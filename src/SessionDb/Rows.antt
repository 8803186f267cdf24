-- ===== src/SessionDb/Rows.antt =====
-- What stands behind a row that the repository returns.
use eudi_verifier_core.Prelude.{String, [], ◌∷◌, ◌≡◌, ◌≢◌, inl, inr, refl, Bytes}
use eudi_verifier_core.Errors.{Result, ok, err, Result-cases}
use eudi_verifier_core.Pipeline.Context.{SessionRow}
use eudi_verifier_core.SessionCreator.{RowInput}
use eudi_verifier_core.SessionDb.{
  Pool, Parsed, success, coded, malformed, parse_envelope, call, statement, decoded, get, created,
  create,
}
use eudi_verifier_core.SessionDb.Envelopes.{Says, Taken, call-Taken}

module _ {W : Type 0} (p : Pool W) where
  -- A procedure returned a success whose payload decodes to this value.
  pub record Returned {A : Type 0} (unmarshal : Bytes → Result A) (proc : String)
      (encoded : Result Bytes) (w : W) (a : A) : Type 0 where
    pub args : Bytes
    pub out : Bytes
    pub payload : Bytes
    pub sent : encoded ≡ ok args
    pub returned : (p.query_row (statement proc) args w).0 ≡ ok out
    pub successful : parse_envelope p out ≡ success payload
    pub decodes : unmarshal payload ≡ ok a

  Says-success :
      (m : Parsed) (payload : Bytes) → Says m payload → payload ≢ [] → m ≡ success payload
  Says-success (success d) payload Says.succeeded given = refl
  Says-success (coded code) payload Says.codeless given = absurd (given refl)
  Says-success (malformed e) payload x given = elim x [ ]

  -- A payload that is not empty comes from a success.
  Taken-success :
      (got : Result Bytes) (payload : Bytes)
      → Taken p got payload
      → payload ≢ []
      → (out : Bytes) × (got ≡ ok out) × (parse_envelope p out ≡ success payload)
  unfolding Taken
  Taken-success (ok out) payload t given = (out, refl, Says-success _ payload t given)
  Taken-success (err e) payload t given = absurd (given t.nothing)

  decoded-Returned :
      {A : Type 0} (unmarshal : Bytes → Result A) (proc : String) (encoded : Result Bytes) (w : W)
      (a : A)
      → ((x : A) → unmarshal [] ≢ ok x)
      → decoded p unmarshal (call p proc encoded w).0 ≡ ok a
      → Returned unmarshal proc encoded w a
  unfolding decoded call
  decoded-Returned unmarshal proc (err e) w a strict h = absurd (cc h)
  decoded-Returned unmarshal proc (ok args) w a strict h =
      elim (Result-cases (call p proc (ok args) w).0) [
        | inr (e, c) ↦ absurd (cc (rw (c, decoded) at h))
        | inl (payload, c) ↦
            let decodes : unmarshal payload ≡ ok a = rw (c, decoded) at h in
            let (out, returned, successful) =
              Taken-success (p.query_row (statement proc) args w).0 payload
                ((call-Taken p proc args payload w).0 c)
                (λ nothing. strict a (rw nothing at decodes)) in
            record {
              args = args;
              out = out;
              payload = payload;
              sent = refl;
              returned = returned;
              successful = successful;
              decodes = decodes;
            }
      ]

-- The decoders refuse an empty payload, as a JSON decoder does.
pub record IsStrict {W : Type 0} (p : Pool W) : Type 0 where
  pub session : (x : SessionRow) → p.unmarshal_session [] ≢ ok x
  pub id : (x : String) → p.unmarshal_id [] ≢ ok x

-- A row that `Get` returns was decoded from the payload of a success that `session.get_session`
-- returned for this id, if the decoder refuses an empty payload.
get-Returned :
    {W : Type 0} (p : Pool W) (id : String) (w : W) (row : SessionRow)
    → IsStrict p
    → (get p id w).0 ≡ ok row
    → Returned p p.unmarshal_session "session.get_session"
        (p.marshal_fields (("id", id) ∷ []))
        w
        row
unfolding get
get-Returned p id w row strict h =
    decoded-Returned p p.unmarshal_session "session.get_session" _ w row strict.session h

-- A row that `Create` returns is the one that `Get` reads, after the insertion, under the id that
-- `session.create_session` returned with success, if the decoders refuse an empty payload.
create-Returned :
    {W : Type 0} (p : Pool W) (input : RowInput) (w : W) (row : SessionRow)
    → IsStrict p
    → (create p input w).0 ≡ ok row
    → (id : String) × Returned p p.unmarshal_id "session.create_session" (p.marshal_row input) w id
      × Returned p p.unmarshal_session "session.get_session"
          (p.marshal_fields (("id", id) ∷ []))
          (call p "session.create_session" (p.marshal_row input) w).1
          row
unfolding create created
create-Returned p input w row strict h =
    elim (Result-cases
      (decoded p p.unmarshal_id (call p "session.create_session" (p.marshal_row input) w).0)) [
        | inr (e, d) ↦ absurd (cc (rw (d, create, created) at h))
        | inl (id, d) ↦ (
          id,
          decoded-Returned p p.unmarshal_id "session.create_session" (p.marshal_row input) w id
              strict.id d,
          get-Returned p id _ row strict (rw (d, create, created) at h),
        )
      ]
