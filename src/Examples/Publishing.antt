-- ===== src/Examples/Publishing.antt =====
-- The published key set, the trust status, the gauges of the anchors, and a session that is consumed.
use eudi_verifier_core.Prelude.{
  ℕ, String, true, false, Option, none, some, List, [], ◌∷◌, ◌≡◌, ◌≢◌, ◌↔◌, inl, inr, refl, Bytes,
  bytes_equal, bytes_equal_refl, str_eq, eq_iff, if◌then◌else◌,
}
use eudi_verifier_core.Errors.{ok}
use eudi_verifier_core.KeySet.{EcKey, ec, KeySource, Jwk, keys, jwks}
use eudi_verifier_core.KeySet.Published.{Publishes, jwks-Publishes}
use eudi_verifier_core.Readiness.{readyz}
use eudi_verifier_core.TrustStatus.{trust_status}
use eudi_verifier_core.TrustStatus.Agreement.{tells_ready, readyz-tells_ready}
use eudi_verifier_core.Metrics.Gauges.{
  Callback, Registry, Gauges, series, is_loaded, register_anchor_staleness_gauges, scrape,
}
use eudi_verifier_core.Metrics.Gauges.Newest.{
  IsRegistry, IsSound, Registration, replayed, register_anchor_staleness_gauges-newest,
}
use eudi_verifier_core.ValkeyStore.{key_session, key_consumed, save, consume_once}
use eudi_verifier_core.ValkeyStore.Liveness.{IsStorable, consume_once-live}
use eudi_verifier_core.Examples.Wallet.{session}
use eudi_verifier_core.Examples.Caches.{up}
use eudi_verifier_core.Examples.Stores.{
  backend, backend-IsValkey, backend-IsUp, backend-IsLasting, soon, store, unconsumed, nothing,
  nothing_held,
}

abbrev webhook_key : EcKey
webhook_key = record { ecdh = ok (4 ∷ 7 ∷ 9 ∷ []); bit_size = 8; name = "P-8" }

abbrev key_source : KeySource
key_source = record {
  public = λ kid. ok (ec webhook_key);
  raw_url = λ b. if bytes_equal b (7 ∷ []) then "Bw" else "CQ";
  key_webhook_signing = "webhook";
}

abbrev key_set : List Jwk
key_set = record { kty = "EC"; crv = "P-8"; x = "Bw"; y = "CQ"; use_ = "sig"; kid = "webhook" } ∷ []

jwks-Publishes_example :
    (jwks key_source ≡ keys "max-age=300" key_set) ↔ Publishes key_source key_set
jwks-Publishes_example = jwks-Publishes key_source key_set

readyz-tells_ready_example : ((readyz up).0 ≡ 200) ↔ (
    (up.ping_db ≡ none) × (up.ping_valkey ≡ none) × (tells_ready (trust_status up.source) ≡ true))
readyz-tells_ready_example = readyz-tells_ready up

-- A registry that keeps its functions under their names.
abbrev Series : Type 0
Series = Bytes → Option Callback

abbrev first_of : Option Callback → Callback → Callback
first_of none d = d
first_of (some c) d = c

abbrev registry : Registry Series
registry = record {
  get_or_create_gauge =
      λ name d r other. if bytes_equal other name then some (first_of (r name) d) else r other;
  registered = λ name r. r name;
}

registry-IsRegistry : IsRegistry registry
registry-IsRegistry = record {
  fresh = λ name d r h. rw (bytes_equal_refl name, h) refl;
  apart = λ name other d r h. rw h refl;
}

abbrev gauges : Gauges Series ℕ
gauges = record { current = none; gauge_set = []; registry = λ name. none }

no_name : false ≢ true
no_name h = absurd (cc h)

gauges-IsSound : IsSound registry gauges
unfolding is_loaded
gauges-IsSound = record { known = λ name h. absurd (no_name h); absent = λ name h. refl }

-- Two calls: the second one names another type, and takes over the series of the first.
abbrev older : Registration ℕ
older = record { types = "pid" ∷ []; source = λ typ. 5 }

abbrev newer : Registration ℕ
newer = record { types = "qeaa" ∷ []; source = λ typ. if str_eq typ "pid" then 3 else 4 }

pid_loaded : is_loaded (series "pid") (replayed registry (older ∷ []) gauges).gauge_set ≡ true
unfolding replayed register_anchor_staleness_gauges is_loaded series bytes_equal
pid_loaded = refl

register_anchor_staleness_gauges-newest_example :
    (t : String) × (series t ≡ series "pid")
    × (scrape registry 0 (series "pid") (
          register_anchor_staleness_gauges registry newer.types newer.source
            (replayed registry (older ∷ []) gauges))
        ≡ some (newer.source t))
register_anchor_staleness_gauges-newest_example =
    register_anchor_staleness_gauges-newest registry 0 gauges (older ∷ []) newer "pid"
      registry-IsRegistry gauges-IsSound (inl pid_loaded)

unconsumed-IsStorable : IsStorable backend unconsumed
unconsumed-IsStorable = record {
  named = λ h. absurd (no_name ((eq_iff unconsumed.id "").1 h));
  json = _;
  written = refl;
  parsed = refl;
  consumed_json = _;
  consumed_written = refl;
}

keys_apart : key_session store unconsumed.id ≢ key_consumed store unconsumed.id
unfolding key_session key_consumed store
keys_apart h =
    absurd (cc ((eq_iff (key_session store unconsumed.id) (key_consumed store unconsumed.id)).1 h))

consume_once-live_example :
    (consume_once backend store unconsumed.id 20 20
      (backend-IsLasting.elapse 10 (save backend store unconsumed 10 nothing).1)).0
    ≡ ok session
consume_once-live_example =
    consume_once-live backend store backend-IsValkey backend-IsLasting unconsumed 10 20 20 10
      nothing backend-IsUp unconsumed-IsStorable (nothing_held _) keys_apart (inr refl) soon
