-- ===== src/App/Serving.antt =====
-- The wallet's routes on a running service: what routes/wallet.go and routes/processor_pipeline.go take
-- from the application.
pub mod Delivered
pub mod Once
use eudi_verifier_core.Prelude.{ℕ, String, Option, none, some, Bytes, Time, Int64, pos, negsuc}
use eudi_verifier_core.Errors.{GoError, Result, Sentinel}
use eudi_verifier_core.Libraries.{Libraries, Session}
use eudi_verifier_core.Policy.{ClientPolicy}
use eudi_verifier_core.Pipeline.Report.{Report}
use eudi_verifier_core.Pipeline.Context.{SessionRow, RunResult, Services}
use eudi_verifier_core.ValkeyStore.{
  save, load, consume_once, mark_request_object_served, save_response_code, delete_session,
}
use eudi_verifier_core.WalletErrors.{NewProblem}
use eudi_verifier_core.RespondTokens.{resolve}
use eudi_verifier_core.Handoff.{deliver}
use eudi_verifier_core.StatusCache.{record_ref}
use eudi_verifier_core.Processor
use eudi_verifier_core.Wallet.{Router}
use eudi_verifier_core.App.{App, ResultSink, handoff_queue, other_sink}

-- The libraries of the pipeline, the calls of the protocol engine and of the codecs that the handlers
-- make, and the clock: its `i`-th reading in a call that meets a state.
pub record Handlers (W : Type 0) : Type 0 where
  pub libraries : Libraries
  pub clock : ℕ → W → Time
  pub unmarshal_policy : Bytes → Result ClientPolicy
  pub marshal_report : Report → Result Bytes
  pub redirect_uri : Session → Result String
  pub new_problem : NewProblem
  pub sentinel : Sentinel → GoError
  pub request_object_jwt : Session → Result Bytes
  pub error_response : GoError → ℕ × Bytes

-- The bound on a body; a configuration that was validated has a positive one.
body_bound : Int64 → ℕ
body_bound (pos n) = n
body_bound (negsuc n) = 0

module _ {B W : Type 0} (h : Handlers W) (a : App B W) where
  -- `Deliver` of the sink.
  deliver_to : ResultSink W → SessionRow → RunResult → W → Option GoError × W
  deliver_to (handoff_queue wire q) meta res w =
      deliver wire q meta res (h.clock 0 w) (h.clock 1 w) w
  deliver_to (other_sink f) meta res w = f meta res w

  -- The sink, the cleaner and the recorder that `Process` gives to a run.
  unfoldable pub services_of : Services W
  unfolding deliver_to
  services_of = record {
    deliver = deliver_to a.result_sink;
    save = λ sess w. save a.valkey a.sessions sess (h.clock 0 w) w;
    delete_session = λ id w. delete_session a.valkey a.sessions id w;
    record_ref = some (λ uri w. (record_ref a.status_refs uri (h.clock 0 w) w).1);
  }

  unfoldable pub processor_of : Processor.App W
  unfolding services_of
  processor_of = record {
    libraries = h.libraries;
    services = services_of;
    cred_trust = a.cred_trust;
    issuer_validity = a.config.issuer_validity_model;
    get_row = λ id w. (a.session_db.get_session id w).0;
    unmarshal_policy = h.unmarshal_policy;
    marshal_report = h.marshal_report;
    save_report = a.session_db.save_session_report;
    set_status = a.session_db.set_session_status;
    save_response_code = λ code id w. save_response_code a.valkey a.sessions code id w;
    redirect_uri = h.redirect_uri;
    new_problem = h.new_problem;
  }

  -- What the wallet's handlers take from the application.
  unfoldable pub router_of : Router W
  unfolding processor_of body_bound
  router_of = record {
    app = processor_of;
    sentinel = h.sentinel;
    max_response_body = body_bound a.config.max_response_body_bytes;
    resolve = λ token w. resolve a.valkey a.respond_tokens token w;
    load = λ id w. load a.valkey a.sessions id (h.clock 0 w) w;
    mark_served = λ id w. mark_request_object_served a.valkey a.sessions id w;
    consume_once = λ id w. consume_once a.valkey a.sessions id (h.clock 0 w) (h.clock 1 w) w;
    request_object_jwt = h.request_object_jwt;
    error_response = h.error_response;
  }
