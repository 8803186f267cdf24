-- ===== src/Anchors/Static.antt =====
-- The fixed anchor source of tests: internal/anchors/static.go.
use eudi_verifier_core.Prelude.{
  ℕ, ◌+◌, String, Bool, true, false, List, [], ◌∷◌, ◌&&◌, not, Time, ltb, ◌==◌, str_eq,
  if◌then◌else◌,
}
use eudi_verifier_core.Errors.{GoError, Result, ok, err, Sentinel, trust_cache_expired}
use eudi_verifier_core.Libraries.{
  AnchorType, pid_provider, qeaa_provider, pub_eaa_provider, eaa_provider, wallet_provider,
  access_ca, wrprc_issuer, pid_provider_status, qeaa_provider_status, pub_eaa_provider_status,
  eaa_provider_status, named,
}
use eudi_verifier_core.Anchors.{Anchor}

-- `Static`
pub record Static : Type 0 where
  pub anchors : List Anchor
  pub expired : Bool

-- `NewStatic`
unfoldable pub new_static : List Anchor → Static
new_static anchors = record { anchors = anchors; expired = false }

-- `Expire`
unfoldable pub expire : Static → Static
expire s = record s { expired = true }

-- The place of an anchor type among the constants of its type.
place : AnchorType → ℕ
place pid_provider = 0
place qeaa_provider = 1
place pub_eaa_provider = 2
place eaa_provider = 3
place wallet_provider = 4
place access_ca = 5
place wrprc_issuer = 6
place pid_provider_status = 7
place qeaa_provider_status = 8
place pub_eaa_provider_status = 9
place eaa_provider_status = 10
place (named s) = 11

-- Whether two values of the string type are equal.
unfoldable pub same_type : AnchorType → AnchorType → Bool
unfolding place
same_type (named s) (named t) = str_eq s t
same_type a b = place a == place b

unfoldable pub serves : AnchorType → (country : String) → (now : Time) → Anchor → Bool
unfolding same_type
serves t country now a =
    same_type a.anchor_type t
    && (not (not (str_eq country "") && not (str_eq a.country country))
        && not (ltb a.valid_until now))

-- The loop; the time that its round `i` reads is `clock i`.
unfoldable pub served : AnchorType → String → (clock : ℕ → Time) → ℕ → List Anchor → List Anchor
served t country clock i [] = []
served t country clock i (a ∷ rest) =
    let others = served t country clock (i + 1) rest in
    if serves t country (clock i) a then a ∷ others else others

-- `AnchorsFor`
unfoldable pub static_anchors_for :
    (Sentinel → GoError)
    → (clock : ℕ → Time) → Static
    → AnchorType
    → (country : String) → Result (List Anchor)
unfolding served
static_anchors_for sentinel clock s t country =
    if s.expired
    then err (sentinel trust_cache_expired)
    else ok (served t country clock 0 s.anchors)
