-- ===== src/Pipeline/Checks/UserBinding/Users.antt =====
-- What step 7 lets pass.
use eudi_verifier_core.Prelude.{true, false, List, [], ◌∷◌, ◌≡◌, arith, All}
use eudi_verifier_core.Libraries.{Libraries}
use eudi_verifier_core.Pipeline.Report.{pass}
use eudi_verifier_core.Pipeline.Context.{Credential}
use eudi_verifier_core.Pipeline.Engine.{is_fail, round}
use eudi_verifier_core.Pipeline.Engine.Chain.{Ensures}
use eudi_verifier_core.Pipeline.Checks.IssuerAuthenticity.Evidence.{setting, Setting, Evidence}
use eudi_verifier_core.Pipeline.Checks.DeviceBinding.Bound.{IsBound, BindsAs}
use eudi_verifier_core.Pipeline.Checks.Revocation.{is_revoked}
use eudi_verifier_core.Pipeline.Checks.UserBinding.{check_users, user_binding}

-- A credential that the pipeline accepts: its failure was never deferred, it has its evidence, its
-- holder is bound by it, and its status is neither revoked nor suspended.
pub record IsAccepted (lib : Libraries) (s : Setting) (c : Credential) : Type 0 where
  pub undeferred : c.deferred_step ≡ ""
  pub evidence : Evidence lib s c
  pub checked : c.device_binding_check ≡ pass
  pub held : c.holder_bound ≡ true
  pub binds : BindsAs s c.pres.format c.pres.query_cred_id
  pub in_force : is_revoked c.status_result ≡ false

module _ (lib : Libraries) (s : Setting) where
  check_users-head :
      (c : Credential) (creds : List Credential)
      → is_fail (check_users (c ∷ creds)).outcome ≡ false
      → (c.device_binding_check ≡ pass)
        × (is_revoked c.status_result ≡ false)
        × (is_fail (check_users creds).outcome ≡ false)
  unfolding check_users
  check_users-head c creds e = ground arith

  check_users-IsAccepted :
      (creds : List Credential)
      → All (IsBound lib s) creds
      → is_fail (check_users creds).outcome ≡ false
      → All (IsAccepted lib s) creds
  check_users-IsAccepted [] h e = tt
  check_users-IsAccepted (c ∷ creds) h e =
      let (checked, in_force, rest) = check_users-head c creds e in
      let (held, binds) = h.0.2 checked in
      (
        record {
          undeferred = h.0.0;
          evidence = h.0.1;
          checked = checked;
          held = held;
          binds = binds;
          in_force = in_force;
        },
        check_users-IsAccepted creds h.1 rest,
      )

pub user_binding-IsAccepted :
    {W : Type 0} (lib : Libraries)
    → Ensures {W = W}
        (λ pc. All (IsBound lib (setting pc)) pc.credentials)
        user_binding
        (λ pc. All (IsAccepted lib (setting pc)) pc.credentials)
unfolding user_binding round
user_binding-IsAccepted lib pc h e = check_users-IsAccepted lib (setting pc) pc.credentials h e
