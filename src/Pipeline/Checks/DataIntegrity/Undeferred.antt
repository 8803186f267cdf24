-- ===== src/Pipeline/Checks/DataIntegrity/Undeferred.antt =====
-- Step 4 passes only credentials whose failure, if any, is left to step 6.
use eudi_verifier_core.Prelude.{List, [], ◌∷◌, ◌≡◌, ◌⊎◌, inl, inr, false, All, str_eq, Bool-cases}
use eudi_verifier_core.Libraries.{Libraries}
use eudi_verifier_core.Pipeline.Names
use eudi_verifier_core.Pipeline.Context.{Credential}
use eudi_verifier_core.Pipeline.Engine.{is_fail, round}
use eudi_verifier_core.Pipeline.Engine.Chain.{Ensures}
use eudi_verifier_core.Pipeline.Checks.IssuerAuthenticity.Evidence.{Setting, setting, Evidence}
use eudi_verifier_core.Pipeline.Checks.IssuerAuthenticity.Attribution.{IsJudged}
use eudi_verifier_core.Pipeline.Checks.DataIntegrity.{find_deferred, data_integrity}

-- A credential behind step 4.
abbrev pub IsSound : Libraries → Setting → Credential → Type 0
IsSound lib s c =
    ((c.deferred_step ≡ "") × Evidence lib s c) ⊎ (c.deferred_step ≡ Names.device_binding)

module _ (lib : Libraries) (s : Setting) where
  undeferred :
      (c : Credential)
      → IsJudged lib s c
      → str_eq c.deferred_step Names.data_integrity ≡ false
      → IsSound lib s c
  undeferred c (inl sound) e = inl sound
  undeferred c (inr (inl data_step)) e = absurd (cc (rw data_step at e))
  undeferred c (inr (inr device_step)) e = inr device_step

  find_deferred-IsSound :
      (creds : List Credential)
      → All (IsJudged lib s) creds
      → is_fail (find_deferred creds).outcome ≡ false
      → All (IsSound lib s) creds
  unfolding find_deferred
  find_deferred-IsSound [] h e = tt
  find_deferred-IsSound (c ∷ creds) h e =
      elim (Bool-cases (str_eq c.deferred_step Names.data_integrity)) [
        | inl here ↦ absurd (cc (rw (here, find_deferred) at e))
        | inr other ↦ (
          undeferred c h.0 other,
          find_deferred-IsSound creds h.1 (rw (other, find_deferred) at e),
        )
      ]

pub data_integrity-IsSound :
    {W : Type 0} (lib : Libraries)
    → Ensures {W = W}
        (λ pc. All (IsJudged lib (setting pc)) pc.credentials)
        data_integrity
        (λ pc. All (IsSound lib (setting pc)) pc.credentials)
unfolding data_integrity round
data_integrity-IsSound lib pc h e = find_deferred-IsSound lib (setting pc) pc.credentials h e
