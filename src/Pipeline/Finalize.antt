-- ===== src/Pipeline/Finalize.antt =====
-- internal/pipeline/finalize.go: delivery, disposal of the session and zeroing of attribute values.
pub mod Zeroed
pub mod Disposal
use mathlib.Core.Option
use eudi_verifier_core.Prelude.{
  String, Bool, Option, none, some, List, map, ◌&&◌, not, Bytes, str_eq, if◌then◌else◌,
}
use eudi_verifier_core.Errors.{GoError}
use eudi_verifier_core.Claims.{Claims, nil}
use eudi_verifier_core.Libraries.{Presentation, VerifiedCredential, VerifiedDocument}
use eudi_verifier_core.Pipeline.Context.{
  Credential, ResultCredential, RunResult, Services, PipelineContext,
}

-- `zeroBytes`
unfoldable pub zero_bytes : Bytes → Bytes
zero_bytes b = map (λ _. 0) b

-- `clearMap`
unfoldable pub clear_map : Claims → Claims
clear_map m = nil

zero_presentation : Presentation → Presentation
zero_presentation p = record p { payload = zero_bytes p.payload }

clear_sd : VerifiedCredential → VerifiedCredential
clear_sd v = record v { claims = clear_map v.claims }

clear_md : VerifiedDocument → VerifiedDocument
clear_md v = record v { namespaces = map (λ (ns, elems). (ns, clear_map elems)) v.namespaces }

zero_credential : Credential → Credential
zero_credential c = record c {
  pres = zero_presentation c.pres;
  sd = Option.map clear_sd c.sd;
  md = Option.map clear_md c.md;
}

clear_result : ResultCredential → ResultCredential
clear_result r = record r { claims = clear_map r.claims }

unfoldable pub zero_result : RunResult → RunResult
unfolding clear_result clear_map
zero_result res = record res { credentials = map clear_result res.credentials }

module _ {W : Type 0} where
  -- `Zero`
  unfoldable pub zero_context : PipelineContext W → PipelineContext W
  unfolding zero_presentation zero_credential clear_sd clear_md zero_bytes clear_map
  zero_context pc = record pc {
    presentations = map zero_presentation pc.presentations;
    credentials = map zero_credential pc.credentials;
    raw_body = zero_bytes pc.raw_body;
  }

  -- A verified run that minted a response code keeps its session; every other session is deleted.
  unfoldable pub keeps_session : PipelineContext W → RunResult → Bool
  keeps_session pc res = str_eq res.outcome "verified" && not (str_eq pc.response_code "")

  dispose : Services W → PipelineContext W → RunResult → W → Option GoError × W
  unfolding keeps_session
  dispose sv pc res w =
      if keeps_session pc res then sv.save pc.session w else sv.delete_session pc.session_id w

  deliver_and_dispose : Services W → PipelineContext W → RunResult → Option GoError × W
  unfolding dispose
  deliver_and_dispose sv pc res =
      let (failure, w) = sv.deliver pc.meta res pc.world in
      elim failure [ some e ↦ (some e, w) | none ↦ dispose sv pc res w ]

  -- `Finalize`, with the context and the result as its deferred `Zero` leaves them.
  unfoldable pub finalize :
      Services W → PipelineContext W → RunResult → Option GoError × PipelineContext W × RunResult
  unfolding deliver_and_dispose zero_context zero_result
  finalize sv pc res =
      let (failure, w) = deliver_and_dispose sv pc res in
      (failure, zero_context (record pc { world = w }), zero_result res)
