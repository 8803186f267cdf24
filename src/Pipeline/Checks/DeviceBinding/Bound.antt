-- ===== src/Pipeline/Checks/DeviceBinding/Bound.antt =====
-- What step 6 lets pass.
use eudi_verifier_core.Prelude.{
  String, Bool, true, false, none, some, ◌≡◌, refl, inl, inr, arith, All, each-All_of, each-result,
  each, ap, str_eq,
}
use eudi_verifier_core.Libraries.{Libraries, Format, sd_jwt, mdoc, other}
use eudi_verifier_core.Pipeline.Names
use eudi_verifier_core.Pipeline.Report.{CheckResult, pass}
use eudi_verifier_core.Pipeline.Context.{PipelineContext, Credential}
use eudi_verifier_core.Pipeline.Engine.{is_fail, round}
use eudi_verifier_core.Pipeline.Engine.Chain.{Ensures, no_result}
use eudi_verifier_core.Pipeline.Checks.IssuerAuthenticity.{binding_required}
use eudi_verifier_core.Pipeline.Checks.IssuerAuthenticity.Evidence.{
  setting, Setting, requires_binding, Evidence, EvidenceAs,
}
use eudi_verifier_core.Pipeline.Checks.DataIntegrity.Undeferred.{IsSound}
use eudi_verifier_core.Pipeline.Checks.DeviceBinding.{bind_as, bind, verdict, device_binding}

-- A format whose evidence includes the holder's binding: every mdoc, and an SD-JWT of which a key
-- binding was required.
abbrev pub BindsAs : Setting → Format → String → Type 0
BindsAs s sd_jwt id = requires_binding s id ≡ true
BindsAs s mdoc id = Unit
BindsAs s (other name) id = ⊥

abbrev pub IsHeld : Setting → Credential → Type 0
IsHeld s c =
    c.device_binding_check ≡ pass
    → (c.holder_bound ≡ true) × BindsAs s c.pres.format c.pres.query_cred_id

-- A credential behind step 6.
abbrev pub IsBound : Libraries → Setting → Credential → Type 0
IsBound lib s c = (c.deferred_step ≡ "") × Evidence lib s c × IsHeld s c

module _ {W : Type 0} (lib : Libraries) (pc : PipelineContext W) where
  bind_as-held :
      (f : Format) (any : Bool) (c : Credential)
      → EvidenceAs lib (setting pc) f c.pres c.x5c c.iat c.sd c.md
      → let d = (bind_as pc f any c).2 in
        d.device_binding_check ≡ pass
        → (d.holder_bound ≡ true) × BindsAs (setting pc) f c.pres.query_cred_id
  unfolding bind_as binding_required
  bind_as-held mdoc any c e h = (refl, tt)
  bind_as-held sd_jwt any c e h = ground arith
  bind_as-held (other name) any c e h = absurd e

  bind_as-same :
      (f : Format) (any : Bool) (c : Credential)
      → let d = (bind_as pc f any c).2 in
        (d.pres ≡ c.pres)
        × (d.x5c ≡ c.x5c)
        × (d.iat ≡ c.iat)
        × (d.sd ≡ c.sd)
        × (d.md ≡ c.md)
        × (d.deferred_step ≡ c.deferred_step)
  unfolding bind_as
  bind_as-same mdoc any c = (refl, refl, refl, refl, refl, refl)
  bind_as-same sd_jwt any c = ground arith
  bind_as-same (other name) any c = (refl, refl, refl, refl, refl, refl)

  bind_as-IsBound :
      (any : Bool) (c : Credential)
      → (c.deferred_step ≡ "") × Evidence lib (setting pc) c
      → IsBound lib (setting pc) (bind_as pc c.pres.format any c).2
  bind_as-IsBound any c (step, evidence) =
      let (pres, x5c, iat, sd, md, deferred) = bind_as-same c.pres.format any c in
      (
        rw deferred step,
        rw (pres, x5c, iat, sd, md) evidence,
        λ p.
            let (holder, binds) = bind_as-held c.pres.format any c evidence p in
            (holder, rw pres binds),
      )

  bind_as-none : (f : Format) (any : Bool) (c : Credential) → (bind_as pc f any c).0 ≡ none
  unfolding bind_as
  bind_as-none mdoc any c = refl
  bind_as-none sd_jwt any c = ground arith
  bind_as-none (other name) any c = refl

  bind-go :
      (any : Bool) (c : Credential)
      → str_eq c.deferred_step Names.device_binding ≡ false
      → bind pc any c ≡ bind_as pc c.pres.format any c
  unfolding bind
  bind-go any c e = rw e

  -- A round of step 6 that does not fail leaves a credential that is verified, and held if its
  -- binding check passed.
  bind-IsBound :
      (any : Bool) (c : Credential)
      → IsSound lib (setting pc) c
      → (bind pc any c).0 ≡ none
      → IsBound lib (setting pc) (bind pc any c).2
  unfolding bind
  bind-IsBound any c (inr device_step) h =
      absurd (cc (ap (λ s. str_eq s Names.device_binding) device_step, h))
  bind-IsBound any c (inl sound) h =
      rw (bind-go any c (ap (λ s. str_eq s Names.device_binding) sound.0))
        (bind_as-IsBound any c sound)

  bind-fails :
      (any : Bool) (c : Credential) (r : CheckResult)
      → (bind pc any c).0 ≡ some r
      → is_fail r.outcome ≡ true
  unfolding bind
  bind-fails any c r h = ground (arith, bind_as-none c.pres.format any c)

pub device_binding-IsBound :
    {W : Type 0} (lib : Libraries)
    → Ensures {W = W}
        (λ pc. All (IsSound lib (setting pc)) pc.credentials)
        device_binding
        (λ pc. All (IsBound lib (setting pc)) pc.credentials)
unfolding device_binding round verdict
device_binding-IsBound lib pc h e =
    let any = (each (bind pc) false pc.credentials).1 in
    each-All_of (bind pc) (IsSound lib (setting pc)) (IsBound lib (setting pc))
      (bind-IsBound lib pc) false pc.credentials h
      (no_result _ (λ o. verdict o any) (λ r. refl)
        (each-result (bind pc) (λ r. is_fail r.outcome ≡ true) (bind-fails lib pc) false
          pc.credentials)
        e)
