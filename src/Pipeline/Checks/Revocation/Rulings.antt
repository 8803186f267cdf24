-- ===== src/Pipeline/Checks/Revocation/Rulings.antt =====
-- What step 5 lets pass.
use eudi_verifier_core.Prelude.{
  String, Bool, true, false, Option, none, some, List, ◌≡◌, refl, ◌⊎◌, inl, inr, ◌&&◌, arith, All,
  each, sym, ◌∙◌, each-keeps, each-All_quiet, each-All, each-result, str_eq, eq_iff, Bool-cases,
}
use eudi_verifier_core.Policy.{revocation_fail_closed}
use eudi_verifier_core.Libraries.{Libraries, Status, StatusRef, StatusReply}
use eudi_verifier_core.Pipeline.Names
use eudi_verifier_core.Pipeline.Report.{CheckResult, pass}
use eudi_verifier_core.Pipeline.Context.{PipelineContext, Services, Credential, doctype_or_vct}
use eudi_verifier_core.Pipeline.Engine.{is_fail, round}
use eudi_verifier_core.Pipeline.Engine.Chain.{Ensures, no_result}
use eudi_verifier_core.Pipeline.Checks.IssuerAuthenticity.Evidence.{setting}
use eudi_verifier_core.Pipeline.Checks.DataIntegrity.Undeferred.{IsSound}
use eudi_verifier_core.Pipeline.Checks.Revocation.{
  status_ref_of, validity_window, is_revoked, is_unknown, skipped_short_lived, skipped_fail_open,
  Ruling, fails, skips, clear, ruling, status_input, apply, record_ref, check_ref, check_evaluated,
  check_status, verdict, revocation,
}

-- What the checker answered of a credential, and that the answer clears it: the status is known to
-- be neither revoked nor suspended, and not unknown under a policy that fails closed.
abbrev pub IsConclusive : Bool → StatusReply → Type 0
IsConclusive fail_closed reply =
    (reply.error ≡ none)
    × (is_revoked reply.status ≡ false)
    × (is_unknown reply.status && fail_closed ≡ false)

abbrev pub IsSkip : StatusReply → Type 0
IsSkip reply = (reply.outcome ≡ skipped_short_lived) ⊎ (reply.outcome ≡ skipped_fail_open)

ruling-clear :
    (fail_closed : Bool) (ref : StatusRef) (id : String) (reply : StatusReply)
    → ruling fail_closed ref id reply ≡ clear
    → IsConclusive fail_closed reply
unfolding ruling
ruling-clear fail_closed ref id reply h = ground arith

ruling-skips :
    (fail_closed : Bool) (ref : StatusRef) (id : String) (reply : StatusReply)
    → ruling fail_closed ref id reply ≡ skips
    → IsSkip reply
unfolding ruling
ruling-skips fail_closed ref id reply h =
    ground (arith, eq_iff reply.outcome skipped_short_lived, eq_iff reply.outcome skipped_fail_open)

ruling-fails :
    (fail_closed : Bool) (ref : StatusRef) (id : String) (reply : StatusReply) (r : CheckResult)
    → ruling fail_closed ref id reply ≡ fails r
    → is_fail r.outcome ≡ true
unfolding ruling
ruling-fails fail_closed ref id reply r h = ground arith

module _ {W : Type 0} (lib : Libraries) (pc : PipelineContext W) where
  -- The checker was asked for the credential's reference under the client's policy, and its answer
  -- is what the credential records.
  pub record Answered (ref : StatusRef) (c : Credential) : Type 0 where
    pub reply : StatusReply
    pub referred : status_ref_of c ≡ some ref
    pub asked : reply ≡ lib.check_status (status_input lib pc ref c)
    pub status : c.status_result ≡ reply.status
    pub provenance : c.status_provenance ≡ reply.outcome

  -- The credential names no status list, or its status is conclusive.
  abbrev pub IsClean : Credential → Type 0
  IsClean c =
      ((status_ref_of c ≡ none) × (c.status_provenance ≡ "no-status-ref"))
      ⊎ ((ref : StatusRef) × (a : Answered ref c) × IsConclusive (revocation_fail_closed pc.policy)
            a.reply)

  -- The credential waits for step 6, or the checker skipped it.
  abbrev pub IsSkipped : Credential → Type 0
  IsSkipped c =
      (c.deferred_step ≡ Names.device_binding)
      ⊎ ((ref : StatusRef) × (a : Answered ref c) × IsSkip a.reply)

module _ {W : Type 0} (lib : Libraries) (sv : Services W) (pc : PipelineContext W) where
  -- A round changes a credential's status and provenance, and nothing else of it.
  restatus :
      (s : W × Bool) (c : Credential)
      → (status : Status) × (provenance : String) × ((check_status lib sv pc s c).2
          ≡ record c { status_result = status; status_provenance = provenance })
  unfolding check_status
  restatus s c =
      let d = (check_status lib sv pc s c).2 in (d.status_result, d.status_provenance, ground arith)

  check_status-IsSound :
      (s : W × Bool) (c : Credential)
      → IsSound lib (setting pc) c
      → IsSound lib (setting pc) (check_status lib sv pc s c).2
  check_status-IsSound s c h = let (status, provenance, same) = restatus s c in rw same h

  apply-fails :
      (o : Ruling) (w : W) (any : Bool) (c : Credential) (r : CheckResult)
      → (apply lib sv pc o w any c).0 ≡ some r
      → o ≡ fails r
  unfolding apply
  apply-fails o w any c r h = ground arith

  check_evaluated-fails :
      (o : Option StatusRef) (s : W × Bool) (c : Credential) (r : CheckResult)
      → (check_evaluated lib sv pc o s c).0 ≡ some r
      → is_fail r.outcome ≡ true
  unfolding check_evaluated check_ref
  check_evaluated-fails none s c r h = cc
  check_evaluated-fails (some ref) s c r h =
      ruling-fails _ ref _ (lib.check_status (status_input lib pc ref c)) r
        (apply-fails _ _ _ _ r h)

  check_status-fails :
      (s : W × Bool) (c : Credential) (r : CheckResult)
      → (check_status lib sv pc s c).0 ≡ some r
      → is_fail r.outcome ≡ true
  unfolding check_status
  check_status-fails s c r h = elim (Bool-cases (str_eq c.deferred_step Names.device_binding)) [
    | inl e ↦ absurd (cc (rw e at h))
    | inr e ↦ check_evaluated-fails (status_ref_of c) s c r (rw e at h)
  ]

  -- How a round ends that does not fail, with `any` as it leaves that variable.
  abbrev Ends : Bool → Bool → Credential → Type 0
  Ends before any c = (IsClean lib pc c × (any ≡ before)) ⊎ (IsSkipped lib pc c × (any ≡ true))

  apply-Ends :
      (o : Ruling) (w : W) (any : Bool) (c : Credential)
      → (o ≡ skips → IsSkipped lib pc c)
      → (o ≡ clear → IsClean lib pc c)
      → (apply lib sv pc o w any c).0 ≡ none
      → Ends any (apply lib sv pc o w any c).1.1 (apply lib sv pc o w any c).2
  unfolding apply
  apply-Ends (fails r) w any c s k h = cc
  apply-Ends skips w any c s k h = inr (s refl, refl)
  apply-Ends clear w any c s k h = inl (k refl, refl)

  answered :
      (ref : StatusRef) (c : Credential)
      → status_ref_of c ≡ some ref
      → let reply = lib.check_status (status_input lib pc ref c) in
        Answered lib pc ref
          (record c { status_result = reply.status; status_provenance = reply.outcome })
  unfolding status_ref_of status_input doctype_or_vct validity_window
  answered ref c e = record {
    reply = lib.check_status (status_input lib pc ref c);
    referred = e;
    asked = refl;
    status = refl;
    provenance = refl;
  }

  check_ref-Ends :
      (ref : StatusRef) (s : W × Bool) (c : Credential)
      → status_ref_of c ≡ some ref
      → (check_ref lib sv pc ref s c).0 ≡ none
      → Ends s.1 (check_ref lib sv pc ref s c).1.1 (check_ref lib sv pc ref s c).2
  unfolding check_ref answered
  check_ref-Ends ref s c e h =
      let a = answered ref c e in
      let fail_closed = revocation_fail_closed pc.policy in
      apply-Ends (ruling fail_closed ref c.pres.query_cred_id a.reply)
        (record_ref lib sv pc ref s.0) s.1 _
        (λ o. inr (ref, a, ruling-skips fail_closed ref _ a.reply o))
        (λ o. inr (ref, a, ruling-clear fail_closed ref _ a.reply o)) h

  check_evaluated-Ends :
      (o : Option StatusRef) (s : W × Bool) (c : Credential)
      → status_ref_of c ≡ o
      → (check_evaluated lib sv pc o s c).0 ≡ none
      → Ends s.1 (check_evaluated lib sv pc o s c).1.1 (check_evaluated lib sv pc o s c).2
  unfolding check_evaluated status_ref_of
  check_evaluated-Ends none s c e h = inl (inl (e, refl), refl)
  check_evaluated-Ends (some ref) s c e h = check_ref-Ends ref s c e h

  check_status-Ends :
      (s : W × Bool) (c : Credential)
      → (check_status lib sv pc s c).0 ≡ none
      → Ends s.1 (check_status lib sv pc s c).1.1 (check_status lib sv pc s c).2
  unfolding check_status
  check_status-Ends s c h = elim (Bool-cases (str_eq c.deferred_step Names.device_binding)) [
    | inl e ↦ rw e (inr (inl ((eq_iff c.deferred_step Names.device_binding).0 e), refl))
    | inr e ↦ rw e (check_evaluated-Ends (status_ref_of c) s c refl (rw e at h))
  ]

  no_failure :
      (fresh : W × Bool) (creds : List Credential)
      → let (o, s, after) = each (check_status lib sv pc) fresh creds in
        is_fail (verdict o s.1).outcome ≡ false → o ≡ none
  unfolding verdict
  no_failure fresh creds e =
      let (o, s, after) = each (check_status lib sv pc) fresh creds in
      no_result o (λ x. verdict x s.1) (λ r. refl)
        (each-result (check_status lib sv pc) (λ r. is_fail r.outcome ≡ true) check_status-fails
          fresh creds)
        e

  quiet_round :
      (s : W × Bool) (c : Credential)
      → (check_status lib sv pc s c).0 ≡ none
      → (check_status lib sv pc s c).1.1 ≡ false
      → (s.1 ≡ false) × IsClean lib pc (check_status lib sv pc s c).2
  quiet_round s c h q = elim (check_status-Ends s c h) [
    | inl (clean, same) ↦ (sym same ∙ q, clean)
    | inr (skipped, any) ↦ absurd (cc (any, q))
  ]

verdict-quiet :
    (o : Option CheckResult) (any : Bool) → o ≡ none → (verdict o any).outcome ≡ pass → any ≡ false
unfolding verdict
verdict-quiet o any h e = ground arith

clean_or_skipped : {A B C D : Type 0} → (A × C) ⊎ (B × D) → A ⊎ B
clean_or_skipped (inl (a, c)) = inl a
clean_or_skipped (inr (b, d)) = inr b

-- Behind step 5, if it does not fail, every credential is either clean (it names no status list, or
-- the checker's answer is free of error and neither revoked nor suspended, nor unknown under a
-- policy that fails closed) or a visible skip (its failure is step 6's to report, or the checker
-- skipped it).
pub revocation-cleared :
    {W : Type 0} (lib : Libraries) (sv : Services W) (pc : PipelineContext W)
    → is_fail (round (revocation lib sv) pc).0.outcome ≡ false
    → All (λ c. IsClean lib pc c ⊎ IsSkipped lib pc c) (round (revocation lib sv) pc).1.credentials
unfolding revocation round
revocation-cleared lib sv pc e =
    each-All (check_status lib sv pc) (λ c. IsClean lib pc c ⊎ IsSkipped lib pc c)
      (λ s c h. clean_or_skipped (check_status-Ends lib sv pc s c h)) (pc.world, false)
      pc.credentials (no_failure lib sv pc (pc.world, false) pc.credentials e)

-- A skip is never silent: where the row of step 5 says "pass", every credential is clean.
pub revocation-pass :
    {W : Type 0} (lib : Libraries) (sv : Services W) (pc : PipelineContext W)
    → (round (revocation lib sv) pc).0.outcome ≡ pass
    → All (IsClean lib pc) (round (revocation lib sv) pc).1.credentials
unfolding revocation round
revocation-pass lib sv pc e =
    let through = no_failure lib sv pc (pc.world, false) pc.credentials (rw e) in
    (each-All_quiet (check_status lib sv pc) (λ s. s.1 ≡ false) (IsClean lib pc)
      (quiet_round lib sv pc) (pc.world, false) pc.credentials through
      (verdict-quiet _ _ through e)).1

-- Step 5 leaves every credential as sound as it was.
pub revocation-IsSound :
    {W : Type 0} (lib : Libraries) (sv : Services W)
    → Ensures
        (λ pc. All (IsSound lib (setting pc)) pc.credentials)
        (revocation lib sv)
        (λ pc. All (IsSound lib (setting pc)) pc.credentials)
unfolding revocation round
revocation-IsSound lib sv pc h e =
    each-keeps (check_status lib sv pc) (IsSound lib (setting pc)) (check_status-IsSound lib sv pc)
      (pc.world, false) pc.credentials h
