-- ===== src/Examples/Resolving.antt =====
-- The resolution of an issuer's key.
use eudi_verifier_core.Prelude.{[], ◌∷◌, ◌≡◌, refl, ◌⊎◌, ◌↔◌}
use eudi_verifier_core.Errors.{ok}
use eudi_verifier_core.Libraries.{pid_provider}
use eudi_verifier_core.Pipeline.Trust.{
  default_credential_trust, issuance, use_case_for, use_case_allowed, resolve_by_types,
  resolve_issuer_for,
}
use eudi_verifier_core.Pipeline.Trust.Resolution.{
  Resolves, Holds, resolve_by_types-Resolves, resolve_issuer_for-accredited,
}
use eudi_verifier_core.Examples.Wallet.{lib, key, issuer}

resolve_by_types-Resolves_example :
    (resolve_by_types lib ((1 ∷ []) ∷ []) 500 (pid_provider ∷ []) ≡ ok (key, issuer))
    ↔ Resolves lib ((1 ∷ []) ∷ []) 500 (key, issuer) (pid_provider ∷ [])
resolve_by_types-Resolves_example =
    resolve_by_types-Resolves lib ((1 ∷ []) ∷ []) 500 (pid_provider ∷ []) (key, issuer)

resolved_pid :
    resolve_issuer_for lib default_credential_trust ((1 ∷ []) ∷ []) "urn:eudi:pid:1" 500
    ≡ ok (key, issuer)
unfolding resolve_issuer_for resolve_by_types issuance use_case_for use_case_allowed
resolved_pid = refl

resolve_issuer_for-accredited_example :
    Resolves lib
      ((1 ∷ []) ∷ [])
      500
      (key, issuer)
      (issuance default_credential_trust "urn:eudi:pid:1")
    × ((use_case_for default_credential_trust "urn:eudi:pid:1" ≡ "")
        ⊎ Holds (use_case_for default_credential_trust "urn:eudi:pid:1") issuer.use_cases)
resolve_issuer_for-accredited_example =
    resolve_issuer_for-accredited lib default_credential_trust ((1 ∷ []) ∷ []) "urn:eudi:pid:1" 500
      (key, issuer) resolved_pid
