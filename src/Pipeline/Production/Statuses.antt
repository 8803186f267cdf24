-- ===== src/Pipeline/Production/Statuses.antt =====
-- The status of the credentials, from step 5 to the end of a run, and what no check changes.
use eudi_verifier_core.Prelude.{
  Bool, false, List, [], ◌∷◌, ◌≡◌, ◌⊎◌, inl, inr, refl, arith, All, All-imp, each-keeps, sym, ◌∙◌,
  ap,
}
use eudi_verifier_core.Libraries.{Libraries, StatusRef}
use eudi_verifier_core.Pipeline.Names
use eudi_verifier_core.Pipeline.Report.{Outcome}
use eudi_verifier_core.Pipeline.Context.{PipelineContext, Services, Credential, doctype_or_vct}
use eudi_verifier_core.Pipeline.Engine.{is_fail, round}
use eudi_verifier_core.Pipeline.Checks.IssuerAuthenticity.Evidence.{Setting}
use eudi_verifier_core.Pipeline.Checks.Revocation.{
  status_ref_of, validity_window, status_input, revocation,
}
use eudi_verifier_core.Pipeline.Checks.Revocation.Rulings.{
  Answered, IsClean, IsSkip, IsSkipped, revocation-cleared,
}
use eudi_verifier_core.Pipeline.Checks.DeviceBinding.{bind_as, bind, device_binding}
use eudi_verifier_core.Pipeline.Checks.UserBinding.Users.{IsAccepted}
use eudi_verifier_core.Pipeline.Checks.ResponseIntegrity.{response_integrity}

-- What no check changes: whose run it is, and what it is held against.
pub record IsKept {W : Type 0} (start pc : PipelineContext W) : Type 0 where
  pub session_id : pc.session_id ≡ start.session_id
  pub meta : pc.meta ≡ start.meta
  pub origin : pc.origin ≡ start.origin
  pub policy : pc.policy ≡ start.policy
  pub cred_trust : pc.cred_trust ≡ start.cred_trust
  pub issuer_validity : pc.issuer_validity ≡ start.issuer_validity

pub response_integrity-IsKept :
    {W : Type 0} (lib : Libraries) (start : PipelineContext W)
    → IsKept start (round (response_integrity lib) start).1
unfolding response_integrity round
response_integrity-IsKept lib start = record {
  session_id = ground arith;
  meta = ground arith;
  origin = ground arith;
  policy = ground arith;
  cred_trust = ground arith;
  issuer_validity = ground arith;
}

module _ {W : Type 0} (lib : Libraries) (start : PipelineContext W) where
  -- The credential names no status list; or the checker was asked for its reference under the
  -- client's policy, the credential records the answer, and this is conclusive or a visible skip.
  abbrev pub IsRuled : Credential → Type 0
  IsRuled c =
      IsClean lib start c ⊎ ((ref : StatusRef) × (a : Answered lib start ref c) × IsSkip a.reply)

  -- The same, or step 6 will fail on the credential.
  abbrev pub IsPending : Credential → Type 0
  IsPending c = (c.deferred_step ≡ Names.device_binding) ⊎ IsRuled c

  module _ (pc : PipelineContext W) (policy : pc.policy ≡ start.policy)
      (trust : pc.cred_trust ≡ start.cred_trust) where
    status_input-same :
        (ref : StatusRef) (c : Credential)
        → status_input lib pc ref c ≡ status_input lib start ref c
    unfolding status_input
    status_input-same ref c = rw (policy, trust) refl

    answered_same :
        (ref : StatusRef) (c : Credential) → Answered lib pc ref c → Answered lib start ref c
    answered_same ref c a = record {
      reply = a.reply;
      referred = a.referred;
      asked = a.asked ∙ ap lib.check_status (status_input-same ref c);
      status = a.status;
      provenance = a.provenance;
    }

    cleared-IsPending : (c : Credential) → IsClean lib pc c ⊎ IsSkipped lib pc c → IsPending c
    unfolding answered_same
    cleared-IsPending c (inl (inl h)) = inr (inl (inl h))
    cleared-IsPending c (inl (inr (ref, a, h))) =
        inr (inl (inr (ref, answered_same ref c a, rw (sym policy) h)))
    cleared-IsPending c (inr (inl h)) = inl h
    cleared-IsPending c (inr (inr (ref, a, h))) = inr (inr (ref, answered_same ref c a, h))

    pub revocation-IsPending :
        (sv : Services W)
        → is_fail (round (revocation lib sv) pc).0.outcome ≡ false
        → All IsPending (round (revocation lib sv) pc).1.credentials
    revocation-IsPending sv e =
        All-imp (λ c. IsClean lib pc c ⊎ IsSkipped lib pc c) IsPending cleared-IsPending _
          (revocation-cleared lib sv pc e)

  answered_bound :
      (ref : StatusRef) (c : Credential) (b : Bool) (o : Outcome)
      → Answered lib start ref c
      → Answered lib start ref (record c { holder_bound = b; device_binding_check = o })
  unfolding status_input status_ref_of doctype_or_vct validity_window
  answered_bound ref c b o a = record {
    reply = a.reply;
    referred = a.referred;
    asked = a.asked;
    status = a.status;
    provenance = a.provenance;
  }

  bound-IsPending :
      (c : Credential) (b : Bool) (o : Outcome)
      → IsPending c
      → IsPending (record c { holder_bound = b; device_binding_check = o })
  unfolding answered_bound status_ref_of
  bound-IsPending c b o (inl h) = inl h
  bound-IsPending c b o (inr (inl (inl h))) = inr (inl (inl h))
  bound-IsPending c b o (inr (inl (inr (ref, a, h)))) =
      inr (inl (inr (ref, answered_bound ref c b o a, h)))
  bound-IsPending c b o (inr (inr (ref, a, h))) = inr (inr (ref, answered_bound ref c b o a, h))

  -- A round of step 6 changes what it found of the binding, and nothing else.
  bind-same :
      (pc : PipelineContext W) (any : Bool) (c : Credential)
      → (b : Bool) × (o : Outcome) × ((bind pc any c).2
          ≡ record c { holder_bound = b; device_binding_check = o })
  unfolding bind bind_as
  bind-same pc any c =
      let d = (bind pc any c).2 in (d.holder_bound, d.device_binding_check, ground arith)

  bind-IsPending :
      (pc : PipelineContext W) (any : Bool) (c : Credential)
      → IsPending c
      → IsPending (bind pc any c).2
  bind-IsPending pc any c h =
      let (b, o, same) = bind-same pc any c in rw same (bound-IsPending c b o h)

  pub device_binding-IsPending :
      (pc : PipelineContext W)
      → All IsPending pc.credentials
      → All IsPending (round device_binding pc).1.credentials
  unfolding device_binding round
  device_binding-IsPending pc h =
      each-keeps (bind pc) IsPending (bind-IsPending pc) false pc.credentials h

  -- No accepted credential waits.
  pub accepted-IsRuled :
      (s : Setting) (creds : List Credential)
      → All (IsAccepted lib s) creds
      → All IsPending creds
      → All IsRuled creds
  accepted-IsRuled s [] h p = tt
  accepted-IsRuled s (c ∷ creds) (h, hs) (inr ruled, ps) = (ruled, accepted-IsRuled s creds hs ps)
  accepted-IsRuled s (c ∷ creds) (h, hs) (inl pending, ps) = absurd (cc (pending, h.undeferred))
