-- ===== src/Policy.antt =====
-- internal/policy/policy.go: the per-client verification policy.
use eudi_verifier_core.Prelude.{Bool, true, Option, none, some, Bytes, [], ◌∷◌}
use eudi_verifier_core.Errors.{Result, ok}

-- A field is a Go `*bool`; `nil` is `none`.
pub record ClientPolicy : Type 0 where
  pub revocation_fail_closed_p : Option Bool
  pub short_lived_exemption_p : Option Bool
  pub require_device_binding_sdjwt_p : Option Bool
  pub require_signed_dcapi_p : Option Bool

-- `p == nil || *p`
abbrev default_true : Option Bool → Bool
default_true none = true
default_true (some b) = b

abbrev pub revocation_fail_closed : ClientPolicy → Bool
revocation_fail_closed p = default_true p.revocation_fail_closed_p

abbrev pub short_lived_exemption : ClientPolicy → Bool
short_lived_exemption p = default_true p.short_lived_exemption_p

abbrev pub require_device_binding_sdjwt : ClientPolicy → Bool
require_device_binding_sdjwt p = default_true p.require_device_binding_sdjwt_p

abbrev pub require_signed_dcapi : ClientPolicy → Bool
require_signed_dcapi p = default_true p.require_signed_dcapi_p

-- The policy of a client that has decided nothing.
abbrev pub defaults : ClientPolicy
defaults = record {
  revocation_fail_closed_p = none;
  short_lived_exemption_p = none;
  require_device_binding_sdjwt_p = none;
  require_signed_dcapi_p = none;
}

-- `Parse`: the empty snapshot is the policy of defaults.
unfoldable pub parse_policy :
    (unmarshal : Bytes → Result ClientPolicy) → Bytes → Result ClientPolicy
parse_policy unmarshal [] = ok defaults
parse_policy unmarshal (b ∷ raw) = unmarshal (b ∷ raw)
