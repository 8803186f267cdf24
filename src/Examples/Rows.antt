-- ===== src/Examples/Rows.antt =====
-- A database that answers every call with the row of one session.
use eudi_verifier_core.Prelude.{none, [], ◌∷◌, ◌≡◌, ◌↔◌, Bytes}
use eudi_verifier_core.Errors.{Result, ok, err, plain}
use eudi_verifier_core.Pipeline.Context.{SessionRow}
use eudi_verifier_core.SessionCreator.{RowInput}
use eudi_verifier_core.SessionDb.{Pool, call, statement}
use eudi_verifier_core.SessionDb.Envelopes.{Taken, call-Taken}

abbrev session_row : SessionRow
session_row = record {
  id = "s1";
  client_id = "client";
  correlation_id = "c1";
  flow = "dcapi";
  status = "pending";
  policy = [];
  webhook_url = "";
  redirect_uri = "";
  expires_at = 1300;
}

abbrev strictly : {A : Type 0} → A → Bytes → Result A
strictly a [] = err (plain [])
strictly a (b ∷ raw) = ok a

abbrev pool : Pool Unit
pool = record {
  query_row = λ text args w. (ok (1 ∷ []), w);
  pg_error = λ e. none;
  unmarshal_envelope = λ raw. ok (record { result = "success"; code = ""; payload = 1 ∷ [] });
  from_result_code = λ code. plain [];
  marshal_row = λ input. ok [];
  marshal_fields = λ fields. ok [];
  marshal_report = λ id report. ok [];
  unmarshal_id = strictly "s1";
  unmarshal_session = strictly session_row;
  unmarshal_report = λ raw. ok raw;
}

abbrev input : RowInput
input = record {
  id = "s1";
  client_id = "client";
  correlation_id = "c1";
  flow = "dcapi";
  policy = [];
  webhook_url = "";
  redirect_uri = "";
  expires_at = 1300;
}

call-Taken_example :
    ((call pool "session.get_session" (ok []) tt).0 ≡ ok (1 ∷ []))
    ↔ Taken pool (pool.query_row (statement "session.get_session") [] tt).0 (1 ∷ [])
call-Taken_example = call-Taken pool "session.get_session" [] (1 ∷ []) tt
