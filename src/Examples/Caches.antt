-- ===== src/Examples/Caches.antt =====
-- The caches of anchors and status lists, and readiness.
use eudi_verifier_core.Prelude.{
  ℕ, String, true, false, Option, none, some, [], ◌∷◌, ◌≡◌, ◌↔◌, ◌⊎◌, refl, pos, All, sym,
}
use eudi_verifier_core.Errors.{ok, plain}
use eudi_verifier_core.Libraries.{AnchorType}
use eudi_verifier_core.Anchors.{
  Valkey, WireNames, Entry, Anchor, anchors_for, wire_type, collect, anchor_of,
  type_fresh_for_verification, fresh_in, freshness,
}
use eudi_verifier_core.Anchors.Fetching.{FromEntry, ConfirmedEmpty, anchors_for-Backed}
use eudi_verifier_core.Anchors.Freshness.{is_listed, fresh_in-type_fresh_for_verification}
use eudi_verifier_core.Readiness.{Dependencies, required_anchor_types, readyz}
use eudi_verifier_core.Readiness.Readyz.{IsReady, readyz-IsReady}

abbrev names : WireNames
names = record {
  pid_provider = "pid_provider";
  qeaa_provider = "qeaa_provider";
  pub_eaa_provider = "pub_eaa_provider";
  eaa_provider = "eaa_provider";
  wallet_provider = "wallet_provider";
  access_ca = "access_ca";
  wrprc_issuer = "wrprc_issuer";
  pid_provider_status = "pid_provider_status";
  qeaa_provider_status = "qeaa_provider_status";
  pub_eaa_provider_status = "pub_eaa_provider_status";
  eaa_provider_status = "eaa_provider_status";
}

abbrev entry : Entry
entry = record {
  anchors =
      record {
        cert_der = 1 ∷ [];
        territory = "LV";
        status = "granted";
        valid_until = 2000;
        tl_sequence = 7;
        use_cases = [];
      }
      ∷ [];
  upstream_stale = false;
  valid_until = 1500;
}

abbrev pub valkey : Valkey
valkey = record {
  names = names;
  all_types = required_anchor_types;
  anchor_set = λ wire country. ok entry;
  freshness_of = λ wire.
      ok (record {
        upstream_stale = false;
        valid_until = 1500;
        snapshot_id = "n";
        fetched_at = 900;
      });
  read_snapshot_health = ok (
      some (record {
        snapshot_id = "s1";
        lotl_sequence = pos 7;
        checked_at = 900;
        pending_bootstrap = false;
        upstream_stale = false;
      }));
  normalize_territory = λ s. s;
  parse_certificate = λ der. ok der;
  sentinel = λ s. plain [];
  grace = pos 100;
  now = 1000;
}

abbrev anchor : Anchor
anchor = record {
  cert = 1 ∷ [];
  anchor_type = AnchorType.pid_provider;
  country = "LV";
  status = "granted";
  valid_until = 2000;
  tl_sequence = 7;
  use_cases = [];
}

fetched : anchors_for valkey AnchorType.pid_provider "LV" ≡ ok (anchor ∷ [])
unfolding anchors_for wire_type collect anchor_of
fetched = refl

anchors_for-Backed_example :
    (wire : String) × (wire_type names AnchorType.pid_provider ≡ some wire)
    × (FromEntry valkey AnchorType.pid_provider wire "LV" (anchor ∷ [])
        ⊎ ConfirmedEmpty valkey wire "LV" (anchor ∷ []))
anchors_for-Backed_example =
    anchors_for-Backed valkey AnchorType.pid_provider "LV" (anchor ∷ []) fetched

fresh_in-type_fresh_for_verification_example :
    (type_fresh_for_verification valkey "pid_provider" ≡ true
      → fresh_in "pid_provider" (freshness valkey) ≡ true)
    × (◌≡◌ {A = ℕ} 100 0
        → fresh_in "pid_provider" (freshness valkey)
          ≡ type_fresh_for_verification valkey "pid_provider")
fresh_in-type_fresh_for_verification_example =
    fresh_in-type_fresh_for_verification valkey "pid_provider" 100 refl refl

abbrev pub up : Dependencies
up = record { ping_db = none; ping_valkey = none; source = some valkey }

valkey_listed :
    (v : Valkey)
    → ◌≡◌ {A = Option Valkey} (some valkey) (some v)
    → All (λ t. is_listed t v.all_types ≡ true) required_anchor_types
valkey_listed v same =
    let here : valkey ≡ v = cc same in rw (sym here) (refl, (refl, (refl, (refl, tt))))

readyz-IsReady_example : ((readyz up).0 ≡ 200) ↔ IsReady up
readyz-IsReady_example = readyz-IsReady up valkey_listed
