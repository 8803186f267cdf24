-- ===== src/SessionDb.antt =====
-- The session metadata in Postgres: internal/sessiondb/db.go and internal/sessiondb/repo.go.
pub mod Envelopes
pub mod Fake
pub mod Rows
use eudi_verifier_core.Prelude.{
  String, Bool, Option, none, some, List, [], ◌∷◌, ◌++◌, Bytes, bytes, quote, str_eq, text_append,
  if◌then◌else◌,
}
use eudi_verifier_core.Errors.{GoError, Result, ok, err, plain}
use eudi_verifier_core.Pipeline.Context.{SessionRow}
use eudi_verifier_core.SessionCreator.{RowInput}

pub record Envelope : Type 0 where
  pub result : String
  pub code : String
  pub payload : Bytes

-- `pgconn.PgError`
pub record PgError : Type 0 where
  pub code : String
  pub message : Bytes

-- What the repository stands on: the pool, `errors.As` for the driver's error, the JSON codecs and
-- the taxonomy of errors.
pub record Pool (W : Type 0) : Type 0 where
  pub query_row : (statement : String) (args : Bytes) → W → Result Bytes × W
  pub pg_error : GoError → Option PgError
  pub unmarshal_envelope : Bytes → Result Envelope
  pub from_result_code : String → GoError
  pub marshal_row : RowInput → Result Bytes
  pub marshal_fields : List (String × String) → Result Bytes
  pub marshal_report : (id : String) (report : Bytes) → Result Bytes
  pub unmarshal_id : Bytes → Result String
  pub unmarshal_session : Bytes → Result SessionRow
  pub unmarshal_report : Bytes → Result Bytes

abbrev prefixed : Bytes → GoError → GoError
prefixed text e = record e { message = text ++ e.message }

-- What `parseEnvelope` returns: the data, a code, or its error.
pub data Parsed : Type 0 where
  success : Bytes → Parsed
  coded : String → Parsed
  malformed : GoError → Parsed

-- The text of a call.
unfoldable pub statement : String → String
statement proc = text_append "call " (text_append proc "($1, $2)")

module _ {W : Type 0} (p : Pool W) where
  -- `resultError`
  unfoldable pub result_error : String → Option GoError
  result_error code =
      if str_eq code "" then none else some (p.from_result_code (text_append "err:" code))

  by_result : Envelope → Parsed
  by_result e =
      if str_eq e.result "success"
      then success e.payload
      else if str_eq e.result "error"
      then coded e.code
      else malformed (plain (bytes "sessiondb: unknown envelope result " ++ quote e.result))

  -- `parseEnvelope`
  unfoldable pub parse_envelope : Bytes → Parsed
  unfolding by_result
  parse_envelope raw = elim (p.unmarshal_envelope raw) [
    | err e ↦ malformed (prefixed (bytes "sessiondb: malformed envelope: ") e)
    | ok envelope ↦ by_result envelope
  ]

  -- The error of a code, with no data.
  coded_answer : String → Result Bytes
  unfolding result_error
  coded_answer code = elim (result_error code) [ none ↦ ok [] | some e ↦ err e ]

  -- An exception whose message is the envelope.
  raised : Parsed → Result Bytes
  unfolding coded_answer
  raised (success payload) = coded_answer ""
  raised (coded code) = coded_answer code
  raised (malformed e) = err e

  failed : (proc : String) → GoError → Result Bytes
  unfolding raised parse_envelope
  failed proc e = elim (p.pg_error e) [
    | none ↦ err (prefixed (bytes "sessiondb: " ++ (bytes proc ++ bytes ": ")) e)
    | some pg ↦
        if str_eq pg.code "P0001"
        then raised (parse_envelope pg.message)
        else err (prefixed (bytes "sessiondb: " ++ (bytes proc ++ bytes ": ")) e)
  ]

  returned : Parsed → Result Bytes
  unfolding coded_answer
  returned (success payload) = ok payload
  returned (coded code) = if str_eq code "" then ok [] else coded_answer code
  returned (malformed e) = err e

  answered : (proc : String) → Result Bytes → Result Bytes
  unfolding failed returned
  answered proc (err e) = failed proc e
  answered proc (ok out) = returned (parse_envelope out)

  -- `call`, given the encoded argument.
  unfoldable pub call : (proc : String) → Result Bytes → W → Result Bytes × W
  unfolding answered statement
  call proc (err e) w = (err (prefixed (bytes "sessiondb: marshal pi_data: ") e), w)
  call proc (ok args) w =
      let (out, after) = p.query_row (statement proc) args w in (answered proc out, after)

  decoded : {A : Type 0} → (Bytes → Result A) → Result Bytes → Result A
  decoded unmarshal (err e) = err e
  decoded unmarshal (ok payload) = unmarshal payload

  -- `Get`
  unfoldable pub get : String → W → Result SessionRow × W
  unfolding decoded
  get id w =
      let (payload, after) = call "session.get_session" (p.marshal_fields (("id", id) ∷ [])) w in
      (decoded p.unmarshal_session payload, after)

  created : Result String × W → Result SessionRow × W
  created (err e, w) = (err e, w)
  created (ok id, w) = get id w

  -- `Create`, which reads the row back.
  unfoldable pub create : RowInput → W → Result SessionRow × W
  unfolding created decoded
  create input w =
      let (payload, after) = call "session.create_session" (p.marshal_row input) w in
      created (decoded p.unmarshal_id payload, after)

  failure : Result Bytes → Option GoError
  failure (err e) = some e
  failure (ok payload) = none

  -- `SetStatus`
  unfoldable pub set_status : (id status : String) → W → Option GoError × W
  unfolding failure
  set_status id status w =
      let (payload, after) =
        call "session.set_status" (p.marshal_fields (("id", id) ∷ ("status", status) ∷ [])) w in
      (failure payload, after)

  -- `SaveReport`
  unfoldable pub save_report : (id : String) (report : Bytes) → W → Option GoError × W
  unfolding failure
  save_report id report w =
      let (payload, after) = call "session.save_report" (p.marshal_report id report) w in
      (failure payload, after)

  -- `GetReport`
  unfoldable pub get_report : String → W → Result Bytes × W
  unfolding decoded
  get_report id w =
      let (payload, after) =
        call "session.get_report" (p.marshal_fields (("session_id", id) ∷ [])) w in
      (decoded p.unmarshal_report payload, after)

-- `MetadataStore`, over the state `W` of what stands behind it.
pub record MetadataStore (W : Type 0) : Type 0 where
  pub create_session : RowInput → W → Result SessionRow × W
  pub get_session : String → W → Result SessionRow × W
  pub set_session_status : (id status : String) → W → Option GoError × W
  pub save_session_report : (id : String) (report : Bytes) → W → Option GoError × W
  pub get_session_report : String → W → Result Bytes × W

-- `NewPG`
unfoldable pub new_pg : {W : Type 0} → Pool W → MetadataStore W
new_pg p = record {
  create_session = create p;
  get_session = get p;
  set_session_status = set_status p;
  save_session_report = save_report p;
  get_session_report = get_report p;
}
