-- ===== src/InternalApi/Handlers.antt =====
-- The handlers of the cluster-internal API, behind its gate.
pub mod Serving
use eudi_verifier_core.Prelude.{
  String, Bool, true, false, Option, none, some, List, [], ◌∷◌, Bytes, Time, if◌then◌else◌,
}
use eudi_verifier_core.Errors.{GoError, Result, ok, err}
use eudi_verifier_core.SessionCreator.{CreateInput, Created, Creator, create}
use eudi_verifier_core.Anchors.{Valkey}
use eudi_verifier_core.TrustStatus.{Body, trust_status}
use eudi_verifier_core.InternalApi.{
  CreateRequest, Decoders, ParamError, Checked, refused, taken, is_empty, build_create_input,
  authorized,
}

-- What `ctx.Error` is given.
pub data Fault : Type 0 where
  no_route unauthorized malformed_body no_report : Fault
  parameter : ParamError → Fault
  inner : GoError → Fault

-- `internalCreateResponse`; its invocation, and the browser request if there is one.
pub record CreateResponse : Type 0 where
  pub session_id : String
  pub expires_at : Time
  pub request_uri : String
  pub response_uri : String
  pub link : Bytes
  pub dcapi_request : Option Bytes

pub data Reply : Type 0 where
  problem : Fault → Reply
  created_session : CreateResponse → Reply
  no_content : Reply
  report_body : Bytes → Reply
  trust_status_body : Body → Reply

-- What the handlers call, over the state `W` of the stores.
pub record Internal (W : Type 0) : Type 0 where
  pub creator : Creator W
  pub decoders : Decoders
  pub unmarshal_request : Bytes → Result CreateRequest
  pub delete_session : String → W → Option GoError × W
  pub get_report : String → W → Result Bytes
  pub sha256 : Bytes → Bytes
  pub token : Bytes
  pub source : Option Valkey

member_of : Bytes → Option Bytes
member_of [] = none
member_of (b ∷ raw) = some (b ∷ raw)

unfoldable pub response_of : Created → CreateResponse
unfolding member_of
response_of created = record {
  session_id = created.session_id;
  expires_at = created.expires_at;
  request_uri = created.request_uri;
  response_uri = created.response_uri;
  link = created.invocation.link;
  dcapi_request = member_of created.invocation.dcapi_member;
}

answer : {W : Type 0} → Result Created × W → Reply × W
answer (err e, w) = (problem (inner e), w)
answer (ok created, w) = (created_session (response_of created), w)

module _ {W : Type 0} (i : Internal W) where
  -- The gate in front of a handler.
  unfoldable pub gated : (header : Bytes) → (W → Reply × W) → W → Reply × W
  gated header handler w =
      if authorized i.sha256 (i.sha256 i.token) header then handler w else (problem unauthorized, w)

  from_input : Result String → Time → Checked CreateInput → W → Reply × W
  unfolding answer
  from_input drawn now (refused e) w = (problem (parameter e), w)
  from_input drawn now (taken input) w = answer (create i.creator input drawn now w)

  from_body : Result String → Time → Result CreateRequest → W → Reply × W
  unfolding from_input
  from_body drawn now (err e) w = (problem malformed_body, w)
  from_body drawn now (ok req) w = from_input drawn now (build_create_input i.decoders req) w

  -- `internalCreateSession`, given the routing token that is drawn and the time.
  unfoldable pub create_session : (body : Bytes) → Result String → Time → W → Reply × W
  unfolding from_body
  create_session body drawn now w = from_body drawn now (i.unmarshal_request body) w

  deleted : Option GoError × W → Reply × W
  deleted (some e, w) = (problem (inner e), w)
  deleted (none, w) = (no_content, w)

  -- `internalDeleteSession`
  unfoldable pub delete : String → W → Reply × W
  unfolding deleted
  delete id w = deleted (i.delete_session id w)

  report_reply : Result Bytes → Reply
  report_reply (err e) = problem (inner e)
  report_reply (ok []) = problem no_report
  report_reply (ok (b ∷ raw)) = report_body (b ∷ raw)

  -- `internalSessionReport`
  unfoldable pub session_report : String → W → Reply × W
  unfolding report_reply
  session_report id w = (report_reply (i.get_report id w), w)

-- A request to the group, and how the router answers it.
pub data Request : Type 0 where
  create_request : (body : Bytes) (drawn : Result String) (now : Time) → Request
  delete_request : (id : String) → Request
  report_request : (id : String) → Request
  trust_status_request : Request

unfoldable pub handle : {W : Type 0} → Internal W → Request → W → Reply × W
handle i (create_request body drawn now) w = create_session i body drawn now w
handle i (delete_request id) w = delete i id w
handle i (report_request id) w = session_report i id w
handle i trust_status_request w = (trust_status_body (trust_status i.source), w)

-- `bindInternal` behind the router's guard: without a configured token there is no such route, else
-- the group's requests pass its gate.
unfoldable pub serve : {W : Type 0} → Internal W → (header : Bytes) → Request → W → Reply × W
unfolding gated
serve i header request w =
    if is_empty i.token then (problem no_route, w) else gated i header (λ v. handle i request v) w
