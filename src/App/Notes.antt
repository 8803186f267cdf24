-- ===== src/App/Notes.antt =====
-- The notices at start-up, and the postures that they tell of.
use eudi_verifier_core.Prelude.{
  String, Bool, true, false, some, ◌≡◌, ◌≢◌, ◌↔◌, ◌⊎◌, inl, inr, refl, arith, Time, str_eq, eq_iff,
  Bool-cases, if◌then◌else◌,
}
use eudi_verifier_core.Policy.{ClientPolicy, defaults}
use eudi_verifier_core.Pipeline.Trust.{
  IssuerValidityModel, validity_at_current_time, validity_at_signing_time, path_validation_time,
}
use eudi_verifier_core.SessionCreator.{signed_dcapi_required}

abbrev pub unsigned_note : String
unsigned_note =
    "UNSIGNED for every client (the wallet cannot authenticate this verifier; the calling web origin is the only identity it gets)"

abbrev pub both_note : String
both_note = "signed by default, unsigned where a client is registered for it"

abbrev pub signed_note : String
signed_note =
    "signed for every client (a client registered as unsigned is issued signed requests anyway)"

-- `effectiveDCAPIModeNote`
unfoldable pub effective_dcapi_mode_note : String → String
effective_dcapi_mode_note mode =
    if str_eq mode "unsigned"
    then unsigned_note
    else if str_eq mode "both"
    then both_note
    else signed_note

abbrev pub current_note : String
current_note =
    "checked at the current time (shell model) — a credential signed before its issuer's last certificate rotation is refused"

abbrev pub signing_note : String
signing_note =
    "checked at the credential's signing time (chain model) — a signer certificate that has since expired is honoured for credentials it signed while valid"

-- `effectiveIssuerValidityNote`
unfoldable pub effective_issuer_validity_note : String → String
effective_issuer_validity_note model =
    if str_eq model validity_at_current_time then current_note else signing_note

-- A client that decided, one way or the other.
client : Bool → ClientPolicy
client b = record defaults { require_signed_dcapi_p = some b }

apart : (s t : String) → str_eq s t ≡ false → s ≢ t
apart s t h same = absurd (cc (h, (eq_iff s t).1 same))

-- The notice says "for every client" exactly where the decision is the same for every client, and
-- says which; it says that a client may choose exactly where two clients differ.
pub effective_dcapi_mode_note-told :
    (mode : String)
    → ((effective_dcapi_mode_note mode ≡ unsigned_note)
        ↔ ((p : ClientPolicy) → signed_dcapi_required mode p ≡ false))
      × ((effective_dcapi_mode_note mode ≡ signed_note)
          ↔ ((p : ClientPolicy) → signed_dcapi_required mode p ≡ true))
      × ((effective_dcapi_mode_note mode ≡ both_note) ↔ (
          (p : ClientPolicy) × (q : ClientPolicy) × (signed_dcapi_required mode p ≡ true)
          × (signed_dcapi_required mode q ≡ false)))
unfolding effective_dcapi_mode_note signed_dcapi_required client
effective_dcapi_mode_note-told mode = elim (Bool-cases (str_eq mode "unsigned")) [
  | inl u ↦ rw u (
    (λ n p. refl, λ n. refl),
    (λ n. absurd (apart unsigned_note signed_note refl n), λ all. absurd (cc (all defaults))),
    (λ n. absurd (apart unsigned_note both_note refl n), λ (p, q, yes_, no_). absurd (cc yes_)),
  )
  | inr u ↦ elim (Bool-cases (str_eq mode "both")) [
    | inl b ↦
        rw (u, b)
          (
            (
              λ n. absurd (apart both_note unsigned_note refl n),
              λ all. absurd (cc (all (client true))),
            ),
            (
              λ n. absurd (apart both_note signed_note refl n),
              λ all. absurd (cc (all (client false))),
            ),
            (λ n. (client true, client false, refl, refl), λ two. refl),
          )
    | inr b ↦
        rw (u, b)
          (
            (
              λ n. absurd (apart signed_note unsigned_note refl n),
              λ all. absurd (cc (all defaults)),
            ),
            (λ n p. refl, λ n. refl),
            (
              λ n. absurd (apart signed_note both_note refl n),
              λ (p, q, yes_, no_). absurd (cc no_),
            ),
          )
  ]
]

-- For the two models that a configuration may name, the notice speaks of the current time exactly
-- where an issuer's chain is judged at the current time, whenever the credential was signed.
pub effective_issuer_validity_note-told :
    (model : IssuerValidityModel)
    → (model ≡ validity_at_signing_time) ⊎ (model ≡ validity_at_current_time)
    → (effective_issuer_validity_note model ≡ current_note)
      ↔ ((signed now : Time) → path_validation_time model signed now ≡ now)
unfolding effective_issuer_validity_note path_validation_time
effective_issuer_validity_note-told model (inl chain) =
    rw chain
      (λ n. absurd (apart signing_note current_note refl n), λ all. absurd (omega (arith, all 1 2)))
effective_issuer_validity_note-told model (inr shell) = rw shell (λ n signed now. refl, λ all. refl)
