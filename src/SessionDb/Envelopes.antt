-- ===== src/SessionDb/Envelopes.antt =====
-- When a call of a procedure is taken to have succeeded.
use eudi_verifier_core.Prelude.{
  String, some, [], ◌≡◌, ◌↔◌, inl, inr, refl, sym, Bytes, str_eq, eq_iff, Bool-cases, Option-cases,
}
use eudi_verifier_core.Errors.{GoError, Result, ok, err}
use eudi_verifier_core.SessionDb.{
  Pool, PgError, Parsed, success, coded, malformed, result_error, parse_envelope, coded_answer,
  raised, failed, returned, answered, call, statement,
}

-- A success with this payload, or an error without a code, which has none.
pub data Says : Parsed → Bytes → Type 0 where
  succeeded : {payload : Bytes} → Says (success payload) payload
  codeless : Says (coded "") []

-- Of an exception: a success or an error without a code.
pub data Excuses : Parsed → Type 0 where
  succeeded : {payload : Bytes} → Excuses (success payload)
  codeless : Excuses (coded "")

module _ {W : Type 0} (p : Pool W) where
  -- The procedure raised its structured exception, with such an envelope for its message.
  pub record Raised (failure : GoError) (payload : Bytes) : Type 0 where
    pub pg : PgError
    pub driver : p.pg_error failure ≡ some pg
    pub structured : pg.code ≡ "P0001"
    pub excuses : Excuses (parse_envelope p pg.message)
    pub nothing : payload ≡ []

  -- What the statement's outcome must be for this payload.
  unfoldable pub Taken : Result Bytes → Bytes → Type 0
  Taken (ok out) payload = Says (parse_envelope p out) payload
  Taken (err failure) payload = Raised failure payload

  coded_answer-ok :
      (code : String) (payload : Bytes)
      → coded_answer p code ≡ ok payload
      → (code ≡ "") × (payload ≡ [])
  unfolding coded_answer result_error
  coded_answer-ok code payload h = elim (Bool-cases (str_eq code "")) [
    | inl e ↦ ((eq_iff code "").0 e, cc (rw (e, coded_answer, result_error) at h))
    | inr e ↦ absurd (cc (rw (e, coded_answer, result_error) at h))
  ]

  returned-Says : (m : Parsed) (payload : Bytes) → returned p m ≡ ok payload → Says m payload
  unfolding returned
  returned-Says (success d) payload h = let same : d ≡ payload = cc h in rw same succeeded
  returned-Says (malformed e) payload h = absurd (cc h)
  returned-Says (coded code) payload h = elim (Bool-cases (str_eq code "")) [
    | inl e ↦
        let nothing : [] ≡ payload = cc (rw (e, returned) at h) in
        rw ((eq_iff code "").0 e, sym nothing) codeless
    | inr e ↦
        let (c, nothing) = coded_answer-ok code payload (rw (e, returned) at h) in
        rw (c, nothing) codeless
  ]

  Says-returned : (m : Parsed) (payload : Bytes) → Says m payload → returned p m ≡ ok payload
  unfolding returned
  Says-returned (success d) payload succeeded = refl
  Says-returned (coded code) payload codeless = refl
  Says-returned (malformed e) payload x = elim x [ ]

  raised-Excuses :
      (m : Parsed) (payload : Bytes) → raised p m ≡ ok payload → Excuses m × (payload ≡ [])
  unfolding raised
  raised-Excuses (success d) payload h = (succeeded, (coded_answer-ok "" payload h).1)
  raised-Excuses (malformed e) payload h = absurd (cc h)
  raised-Excuses (coded code) payload h =
      let (c, nothing) = coded_answer-ok code payload h in (rw c codeless, nothing)

  Excuses-raised : (m : Parsed) → Excuses m → raised p m ≡ ok []
  unfolding raised coded_answer result_error
  Excuses-raised (success d) succeeded = refl
  Excuses-raised (coded code) codeless = refl
  Excuses-raised (malformed e) x = elim x [ ]

  failed-Raised :
      (proc : String) (e : GoError) (payload : Bytes)
      → failed p proc e ≡ ok payload
      → Raised e payload
  unfolding failed
  failed-Raised proc e payload h = elim (Option-cases (p.pg_error e)) [
    | inl d ↦ absurd (cc (rw (d, failed) at h))
    | inr (pg, d) ↦ elim (Bool-cases (str_eq pg.code "P0001")) [
      | inr c ↦ absurd (cc (rw (d, c, failed) at h))
      | inl c ↦
          let (excuses, nothing) =
            raised-Excuses (parse_envelope p pg.message) payload (rw (d, c, failed) at h) in
          record {
            pg = pg;
            driver = d;
            structured = (eq_iff pg.code "P0001").0 c;
            excuses = excuses;
            nothing = nothing;
          }
    ]
  ]

  Raised-failed :
      (proc : String) (e : GoError) (payload : Bytes)
      → Raised e payload
      → failed p proc e ≡ ok payload
  unfolding failed
  Raised-failed proc e payload r =
      rw
        (
          r.driver,
          failed,
          (eq_iff r.pg.code "P0001").1 r.structured,
          Excuses-raised (parse_envelope p r.pg.message) r.excuses,
          r.nothing,
        )
        refl

  answered-Taken :
      (proc : String) (got : Result Bytes) (payload : Bytes)
      → (answered p proc got ≡ ok payload) ↔ Taken got payload
  unfolding answered Taken
  answered-Taken proc (ok out) payload =
      (returned-Says (parse_envelope p out) payload, Says-returned (parse_envelope p out) payload)
  answered-Taken proc (err e) payload = (failed-Raised proc e payload, Raised-failed proc e payload)

-- A call of a procedure whose argument is encoded returns a payload without an error exactly if the
-- statement returned an envelope that says success and has it, or one that names an error without
-- a code, and the payload is empty; or if it raised its structured exception with an envelope that
-- says success or names an error without a code, and the payload is empty.
pub call-Taken :
    {W : Type 0} (p : Pool W) (proc : String) (args payload : Bytes) (w : W)
    → ((call p proc (ok args) w).0 ≡ ok payload)
      ↔ Taken p (p.query_row (statement proc) args w).0 payload
unfolding call
call-Taken p proc args payload w =
    answered-Taken p proc (p.query_row (statement proc) args w).0 payload
