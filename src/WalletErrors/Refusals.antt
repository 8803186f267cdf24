-- ===== src/WalletErrors/Refusals.antt =====
-- Which failed runs the wallet is told of.
use eudi_verifier_core.Prelude.{
  ℕ, ◌≤◌, ◌<◌, String, true, false, none, some, ◌≡◌, ◌⊎◌, inl, inr, ◌↔◌, refl, arith, sym, ap, ◌∙◌,
  eq_iff, Bool-cases,
}
use eudi_verifier_core.Errors.{Problem}
use eudi_verifier_core.WalletErrors.{
  NewProblem, wallet_fail_problem, pins, WalletErrorBody, problem_outcome, verification_outcome,
  description, trust_refusal_code, desc_not_accepted,
}

-- What the problem constructor promises: the code, with the status that is given or else the
-- registry's.
pub record IsRegistry (new_problem : NewProblem) (rating : String → ℕ) : Type 0 where
  pub rated :
      (code : String)
      → (new_problem code none).problem ≡ some (record { code = code; status = rating code })
  pub pinned :
      (code : String) (status : ℕ)
      → (new_problem code (some status)).problem ≡ some (record { code = code; status = status })

abbrev pub IsPinned : String → Type 0
IsPinned code = (code ≡ "err:credential:expired") ⊎ (code ≡ "err:revocation:revoked")

-- The status of a problem is a client's.
abbrev IsClient : ℕ → Type 0
IsClient status = (400 ≤ status) × (status < 500)

problem_outcome-IsClient :
    (p : Problem) (r : ℕ × WalletErrorBody) → problem_outcome p ≡ some r → IsClient p.status
unfolding problem_outcome
problem_outcome-IsClient p r h = (ground arith, ground arith)

IsClient-problem_outcome :
    (p : Problem)
    → IsClient p.status
    → problem_outcome p
      ≡ some (400, record { error = "invalid_request"; error_description = description p.code })
unfolding problem_outcome
IsClient-problem_outcome p (low, high) = ground arith

pins-IsPinned : (code : String) → pins code ≡ true → IsPinned code
unfolding pins
pins-IsPinned code h =
    ground (arith, eq_iff code "err:credential:expired", eq_iff code "err:revocation:revoked")

module _ (new_problem : NewProblem) (rating : String → ℕ)
    (registry : IsRegistry new_problem rating) where
  pinned-outcome :
      (code : String)
      → IsPinned code
      → verification_outcome (wallet_fail_problem new_problem code)
        ≡ some (400, record { error = "invalid_request"; error_description = desc_not_accepted })
  unfolding verification_outcome wallet_fail_problem description trust_refusal_code pins
  pinned-outcome code (inl e) = rw (e, registry.pinned "err:credential:expired" 422) refl
  pinned-outcome code (inr e) = rw (e, registry.pinned "err:revocation:revoked" 422) refl

  unpinned :
      (code : String)
      → pins code ≡ false
      → wallet_fail_problem new_problem code ≡ new_problem code none
  unfolding wallet_fail_problem
  unpinned code h = rw h refl

  rated_problem :
      (code : String)
      → verification_outcome (new_problem code none)
        ≡ problem_outcome (record { code = code; status = rating code })
  unfolding verification_outcome
  rated_problem code = rw (registry.rated code) refl

  rated-outcome :
      (code : String)
      → pins code ≡ false
      → verification_outcome (wallet_fail_problem new_problem code)
        ≡ problem_outcome (record { code = code; status = rating code })
  rated-outcome code h = ap verification_outcome (unpinned code h) ∙ rated_problem code

  Told : String → Type 0
  Told code =
      (r : ℕ × WalletErrorBody) × (verification_outcome (wallet_fail_problem new_problem code)
        ≡ some r)

  pinned-Told : (code : String) → IsPinned code → Told code
  unfolding Told
  pinned-Told code pinned = (_, pinned-outcome code pinned)

  Told-IsClient :
      (code : String)
      → verification_outcome (wallet_fail_problem new_problem code)
        ≡ problem_outcome (record { code = code; status = rating code })
      → Told code
      → IsClient (rating code)
  unfolding Told
  Told-IsClient code same (r, h) =
      problem_outcome-IsClient (record { code = code; status = rating code }) r (sym same ∙ h)

  IsClient-Told :
      (code : String)
      → verification_outcome (wallet_fail_problem new_problem code)
        ≡ problem_outcome (record { code = code; status = rating code })
      → IsPinned code ⊎ IsClient (rating code)
      → Told code
  unfolding Told
  IsClient-Told code same (inl pinned) = (_, pinned-outcome code pinned)
  IsClient-Told code same (inr client) =
      (_, same ∙ IsClient-problem_outcome (record { code = code; status = rating code }) client)

-- With a problem constructor that keeps the given status and otherwise takes the registry's, the
-- wallet is told of a failed run exactly if its fail code is one of the two that are pinned to 422 or
-- the registry rates it from 400 up to 499; a pinned code is told as "credential not accepted",
-- whatever the registry rates it.
pub wallet_fail_problem-told :
    (new_problem : NewProblem) (rating : String → ℕ)
    → IsRegistry new_problem rating
    → (code : String)
    → (((r : ℕ × WalletErrorBody) × (verification_outcome (wallet_fail_problem new_problem code)
            ≡ some r))
        ↔ (IsPinned code ⊎ ((400 ≤ rating code) × (rating code < 500))))
      × (IsPinned code
          → verification_outcome (wallet_fail_problem new_problem code)
            ≡ some
                (400, record { error = "invalid_request"; error_description = desc_not_accepted }))
unfolding Told
wallet_fail_problem-told new_problem rating registry code = (
  elim (Bool-cases (pins code)) [
    | inl e ↦
        let pinned = pins-IsPinned code e in
        (λ h. inl pinned, λ h. pinned-Told new_problem rating registry code pinned)
    | inr e ↦
        let same = rated-outcome new_problem rating registry code e in
        (
          λ h. inr (Told-IsClient new_problem rating registry code same h),
          IsClient-Told new_problem rating registry code same,
        )
  ],
  pinned-outcome new_problem rating registry code,
)
