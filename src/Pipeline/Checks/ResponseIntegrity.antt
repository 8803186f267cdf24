-- ===== src/Pipeline/Checks/ResponseIntegrity.antt =====
-- Step 1: internal/pipeline/check_response_integrity.go.
use eudi_verifier_core.Prelude.{String, List}
use eudi_verifier_core.Errors.{GoError, Result, ok, err}
use eudi_verifier_core.Libraries.{
  Libraries, Session, Presentation, Flow, same_device, cross_device, dcapi,
}
use eudi_verifier_core.Pipeline.Names
use eudi_verifier_core.Pipeline.Report.{CheckResult, passed, failure}
use eudi_verifier_core.Pipeline.Classify.{classify_oid4vp, fail_detail}
use eudi_verifier_core.Pipeline.Context.{PipelineContext, Check}

module _ {W : Type 0} (lib : Libraries) where
  unfoldable pub refused : GoError → PipelineContext W → Result CheckResult × PipelineContext W
  refused e pc = (ok (failure (classify_oid4vp e) (fail_detail e)), pc)

  unfoldable pub dcapi_response : PipelineContext W → Result CheckResult × PipelineContext W
  unfolding refused
  dcapi_response pc = elim (lib.process_dcapi_response pc.session pc.origin pc.raw_body) [
    | err e ↦ refused e pc
    | ok pres ↦ (ok passed, record pc { presentations = pres })
  ]

  -- What `ProcessResponse` returns, and the session with the response code that it minted.
  unfoldable pub redirect_response :
      Session
      → Result (List Presentation × String)
      → PipelineContext W
      → Result CheckResult × PipelineContext W
  unfolding refused
  redirect_response sess (err e) pc = refused e (record pc { session = sess })
  redirect_response sess (ok (pres, code)) pc =
      (ok passed, record pc { session = sess; presentations = pres; response_code = code })

  unfoldable pub decrypt : Flow → PipelineContext W → Result CheckResult × PipelineContext W
  unfolding dcapi_response redirect_response
  decrypt dcapi pc = dcapi_response pc
  decrypt same_device pc =
      let (sess, r) = lib.process_response pc.session pc.raw_body in redirect_response sess r pc
  decrypt cross_device pc =
      let (sess, r) = lib.process_response pc.session pc.raw_body in redirect_response sess r pc

  unfoldable pub response_integrity : Check W
  unfolding decrypt
  response_integrity = record {
    name = Names.response_integrity;
    run = λ pc. decrypt pc.session.flow pc;
  }
