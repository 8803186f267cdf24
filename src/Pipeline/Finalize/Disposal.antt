-- ===== src/Pipeline/Finalize/Disposal.antt =====
-- In which order `Finalize` uses the sink and the session store.
use eudi_verifier_core.Prelude.{
  Bool, not, refl, String, true, false, Option, none, some, List, [], ◌∷◌, ◌++◌, ◌≡◌, ◌⊎◌, inl, inr,
  ◌≢◌, arith, Option-cases, Bool-cases, eq_iff, str_eq,
}
use eudi_verifier_core.Errors.{GoError}
use eudi_verifier_core.Libraries.{Session}
use eudi_verifier_core.Pipeline.Context.{SessionRow, RunResult, Services, PipelineContext}
use eudi_verifier_core.Pipeline.Finalize.{
  zero_context, keeps_session, dispose, deliver_and_dispose, finalize,
}

-- A call of the sink or of the session store.
pub data Call : Type 0 where
  delivers : SessionRow → RunResult → Call
  saves : Session → Call
  deletes : String → Call

module _ {W : Type 0} where
  noted : Call → Option GoError × W → List Call → Option GoError × (List Call × W)
  noted c (failed, w) calls = (failed, (calls ++ c ∷ [], w))

  -- The same services, which also note the calls that reach them.
  abbrev pub logged : Services W → Services (List Call × W)
  unfolding noted
  logged sv = record {
    deliver = λ meta res (calls, w). noted (delivers meta res) (sv.deliver meta res w) calls;
    save = λ sess (calls, w). noted (saves sess) (sv.save sess w) calls;
    delete_session = λ id (calls, w). noted (deletes id) (sv.delete_session id w) calls;
    record_ref = none;
  }

  -- What one run of `Finalize` does, by the error that it returns and the calls that it makes.
  pub data Disposed (sv : Services W) (pc : PipelineContext (List Call × W)) (res : RunResult)
      : Option GoError → List Call → Type 0 where
    undelivered :
        (e : GoError)
        → (sv.deliver pc.meta res pc.world.1).0 ≡ some e
        → Disposed sv pc res (some e) (delivers pc.meta res ∷ [])
    kept :
        (sv.deliver pc.meta res pc.world.1).0 ≡ none
        → res.outcome ≡ "verified"
        → pc.response_code ≢ ""
        → Disposed sv pc res
            (sv.save pc.session (sv.deliver pc.meta res pc.world.1).1).0
            (delivers pc.meta res ∷ saves pc.session ∷ [])
    removed :
        (sv.deliver pc.meta res pc.world.1).0 ≡ none
        → (res.outcome ≢ "verified") ⊎ (pc.response_code ≡ "")
        → Disposed sv pc res
            (sv.delete_session pc.session_id (sv.deliver pc.meta res pc.world.1).1).0
            (delivers pc.meta res ∷ deletes pc.session_id ∷ [])

  not-kept :
      (pc : PipelineContext (List Call × W)) (res : RunResult)
      → keeps_session pc res ≡ false
      → (res.outcome ≢ "verified") ⊎ (pc.response_code ≡ "")
  unfolding keeps_session
  not-kept pc res h = elim (Bool-cases (str_eq pc.response_code "")) [
    | inl e ↦ inr ((eq_iff pc.response_code "").0 e)
    | inr e ↦ inl (λ v. ground (arith, e, h, (eq_iff res.outcome "verified").1 v))
  ]

  is-kept :
      (pc : PipelineContext (List Call × W)) (res : RunResult)
      → keeps_session pc res ≡ true
      → (res.outcome ≡ "verified") × (pc.response_code ≢ "")
  unfolding keeps_session
  is-kept pc res h = (
    ground (arith, eq_iff res.outcome "verified"),
    λ e. ground (arith, eq_iff pc.response_code ""),
  )

  disposed :
      (sv : Services W) (pc : PipelineContext (List Call × W)) (res : RunResult)
      → pc.world.0 ≡ []
      → Disposed sv pc res
          (deliver_and_dispose (logged sv) pc res).0
          (deliver_and_dispose (logged sv) pc res).1.0
  unfolding deliver_and_dispose dispose noted logged
  disposed sv pc res fresh = elim (Option-cases (sv.deliver pc.meta res pc.world.1).0) [
    | inr (e, h) ↦ rw (h, fresh, deliver_and_dispose) (undelivered e h)
    | inl h ↦ elim (Bool-cases (keeps_session pc res)) [
      | inl k ↦
          rw (h, k, fresh, deliver_and_dispose, dispose)
            (kept h (is-kept pc res k).0 (is-kept pc res k).1)
      | inr k ↦ rw (h, k, fresh, deliver_and_dispose, dispose) (removed h (not-kept pc res k))
    ]
  ]

-- `Finalize` calls the sink first; if that fails it makes no other call and returns that error.
-- Otherwise it makes one more call and returns what that returns: it saves the session if the
-- outcome is "verified" and the run has a response code, and deletes it in every other case.
pub finalize-Disposed :
    {W : Type 0} (sv : Services W) (pc : PipelineContext (List Call × W)) (res : RunResult)
    → pc.world.0 ≡ []
    → Disposed sv pc res (finalize (logged sv) pc res).0 (finalize (logged sv) pc res).1.world.0
unfolding finalize zero_context
finalize-Disposed sv pc res fresh = disposed sv pc res fresh

-- `Finalize` without an error had a delivery without one.
pub finalize-delivers :
    {W : Type 0} (sv : Services W) (pc : PipelineContext W) (res : RunResult)
    → (finalize sv pc res).0 ≡ none
    → (sv.deliver pc.meta res pc.world).0 ≡ none
unfolding finalize deliver_and_dispose
finalize-delivers sv pc res h = elim (Option-cases (sv.deliver pc.meta res pc.world).0) [
  | inl e ↦ e
  | inr (e, f) ↦ absurd (cc (rw (finalize, deliver_and_dispose, f) at h))
]

module _ {W : Type 0} (sv : Services W) (pc : PipelineContext W) where
  -- What a verified run without an error leaves, from what its delivery left: the session is saved
  -- under a response code, and deleted without one.
  abbrev pub Settled : (left end : W) → Type 0
  Settled left end =
      ((pc.response_code ≢ "") × (end ≡ (sv.save pc.session left).1))
      ⊎ ((pc.response_code ≡ "") × (end ≡ (sv.delete_session pc.session_id left).1))

  verified_keeps :
      (res : RunResult) (b : Bool)
      → res.outcome ≡ "verified"
      → str_eq pc.response_code "" ≡ b
      → keeps_session pc res ≡ not b
  unfolding keeps_session
  verified_keeps res b v e = rw (e, (eq_iff res.outcome "verified").1 v) refl

  pub finalize-Settled :
      (res : RunResult)
      → (finalize sv pc res).0 ≡ none
      → res.outcome ≡ "verified"
      → Settled (sv.deliver pc.meta res pc.world).1 (finalize sv pc res).1.world
  unfolding finalize deliver_and_dispose dispose zero_context
  finalize-Settled res h v =
      let quiet = finalize-delivers sv pc res h in
      elim (Bool-cases (str_eq pc.response_code "")) [
        | inl e ↦ inr (
          (eq_iff pc.response_code "").0 e,
          rw (deliver_and_dispose, quiet, dispose, verified_keeps res true v e) refl,
        )
        | inr e ↦ inl (
          λ n. cc (e, (eq_iff pc.response_code "").1 n),
          rw (deliver_and_dispose, quiet, dispose, verified_keeps res false v e) refl,
        )
      ]
