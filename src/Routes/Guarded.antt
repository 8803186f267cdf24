-- ===== src/Routes/Guarded.antt =====
-- The routes of the internal API stand behind the gate.
use eudi_verifier_core.Prelude.{
  String, Bool, true, false, none, some, [], ◌≡◌, ◌≢◌, inl, inr, refl, All, All-append, Bytes,
  bytes, str_eq, eq_iff, not, if◌then◌else◌, Bool-cases,
}
use eudi_verifier_core.Routes.{
  Handler, internal_create_session, internal_delete_session, internal_session_report,
  internal_trust_status, Route, Served, bind_wallet, bind_internal, init,
}

-- The handlers that only a caller with the token may reach.
abbrev pub is_internal : Handler → Bool
is_internal internal_create_session = true
is_internal internal_delete_session = true
is_internal internal_session_report = true
is_internal internal_trust_status = true
is_internal other = false

-- The route leads to such a handler only under the gate for the configured token, which is not empty,
-- and only such handlers stand behind the gate.
pub record IsGuarded (sha256 : Bytes → Bytes) (token : String) (r : Route) : Type 0 where
  pub gated : is_internal r.handler ≡ true → (r.gate ≡ some (sha256 (bytes token))) × (token ≢ "")
  pub open_ : is_internal r.handler ≡ false → r.gate ≡ none

module _ (sha256 : Bytes → Bytes) (token : String) where
  ungated : (r : Route) → is_internal r.handler ≡ false → r.gate ≡ none → IsGuarded sha256 token r
  ungated r h g = record { gated = λ i. absurd (cc); open_ = λ i. g }

  behind :
      (r : Route)
      → is_internal r.handler ≡ true
      → r.gate ≡ some (sha256 (bytes token))
      → token ≢ ""
      → IsGuarded sha256 token r
  behind r h g n = record { gated = λ i. (g, n); open_ = λ i. absurd (cc) }

  bind_internal-IsGuarded : token ≢ "" → All (IsGuarded sha256 token) (bind_internal sha256 token)
  unfolding bind_internal
  bind_internal-IsGuarded n = (
    behind _ refl refl n,
    (behind _ refl refl n, (behind _ refl refl n, (behind _ refl refl n, tt))),
  )

  configured-IsGuarded :
      All
        (IsGuarded sha256 token)
        (if not (str_eq token "") then bind_internal sha256 token else [])
  configured-IsGuarded = elim (Bool-cases (str_eq token "")) [
    | inl e ↦ rw e tt
    | inr e ↦ rw e (bind_internal-IsGuarded (λ same. absurd (cc ((eq_iff token "").1 same))))
  ]

-- `Init` on an application whose routes are guarded leaves all of them guarded: a handler of the
-- internal API is reached only through the gate for the configured token, which is not empty then,
-- and no other handler stands behind the gate. The processor that was there before stays.
pub init-IsGuarded :
    {P : Type 0} (sha256 : Bytes → Bytes) (pipeline : P) (token : String) (a : Served P)
    → All (IsGuarded sha256 token) a.routes
    → All (IsGuarded sha256 token) (init sha256 pipeline token a).routes
      × ((p : P) → a.processor ≡ some p → (init sha256 pipeline token a).processor ≡ some p)
unfolding init bind_wallet
init-IsGuarded sha256 pipeline token a h = (
  All-append (IsGuarded sha256 token) a.routes _ h (
    ungated sha256 token _ refl refl,
    (
      ungated sha256 token _ refl refl,
      (
        ungated sha256 token _ refl refl,
        (
          ungated sha256 token _ refl refl,
          (ungated sha256 token _ refl refl, configured-IsGuarded sha256 token),
        ),
      ),
    ),
  ),
  λ p e. rw e refl,
)
