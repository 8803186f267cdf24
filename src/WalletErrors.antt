-- ===== src/WalletErrors.antt =====
-- What a refused verification becomes at the wallet's boundary: `walletFailProblem` of
-- routes/processor_pipeline.go and routes/wallet_error.go.
pub mod Refusals
use eudi_verifier_core.Prelude.{
  ℕ, String, Bool, Option, none, some, List, [], ◌∷◌, ◌||◌, str_eq, ltb, leb, if◌then◌else◌,
}
use eudi_verifier_core.Errors.{GoError, Problem}

-- `pkerrors.NewProblem` of a code, with the status of `WithStatus` if there is one.
abbrev pub NewProblem : Type 0
NewProblem = String → Option ℕ → GoError

-- The codes whose status `walletFailProblem` overrides.
unfoldable pub pins : String → Bool
pins code = str_eq code "err:credential:expired" || str_eq code "err:revocation:revoked"

-- `walletFailProblem`
unfoldable pub wallet_fail_problem : NewProblem → String → GoError
unfolding pins
wallet_fail_problem new_problem fail_code =
    if pins fail_code then new_problem fail_code (some 422) else new_problem fail_code none

-- The members of the OID4VP error shape.
pub record WalletErrorBody : Type 0 where
  pub error : String
  pub error_description : String

abbrev pub desc_not_accepted : String
desc_not_accepted = "credential not accepted"

abbrev pub desc_not_verified : String
desc_not_verified = "presentation could not be verified"

abbrev pub desc_wallet_declined : String
desc_wallet_declined = "wallet reported an error"

-- `trustRefusalCodes`
unfoldable pub trust_refusal_code : String → Bool
trust_refusal_code code =
    str_eq code "err:credential:issuer-untrusted"
    || (str_eq code "err:credential:issuer-cert-expired"
        || (str_eq code "err:credential:expired" || str_eq code "err:revocation:revoked"))

description : String → String
unfolding trust_refusal_code
description code =
    if str_eq code "err:presentation:wallet-declined"
    then desc_wallet_declined
    else if trust_refusal_code code
    then desc_not_accepted
    else desc_not_verified

problem_outcome : Problem → Option (ℕ × WalletErrorBody)
unfolding description
problem_outcome p =
    if ltb p.status 400 || leb 500 p.status
    then none
    else some (400, record { error = "invalid_request"; error_description = description p.code })

-- `verificationOutcome`; `none` is its third result `false`.
unfoldable pub verification_outcome : GoError → Option (ℕ × WalletErrorBody)
unfolding problem_outcome
verification_outcome e = elim e.problem [ none ↦ none | some p ↦ problem_outcome p ]
