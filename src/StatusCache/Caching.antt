-- ===== src/StatusCache/Caching.antt =====
-- What the cache answers after it was told of a token.
use eudi_verifier_core.Prelude.{
  String, none, some, [], ◌∷◌, ◌≡◌, ◌≢◌, ◌⊎◌, inl, inr, refl, Bytes, Duration,
}
use eudi_verifier_core.ValkeyStore.{Backend, found}
use eudi_verifier_core.ValkeyStore.Laws.{IsValkey}
use eudi_verifier_core.StatusCache.{Cache, cache_key, lifetime_of, hit, get, set}

hit-found : (token : Bytes) → token ≢ [] → hit (found token) ≡ some token
unfolding hit
hit-found [] given = absurd (given refl)
hit-found (b ∷ token) given = refl

-- On a backend that behaves like Valkey, a token that is not empty and whose `SET` raised no error is
-- read back or missed; nothing else is read in its place.
get-set :
    {V : Type 0} (b : Backend V) (c : Cache)
    → IsValkey b
    → (uri : String) (token : Bytes) (ttl : Duration) (v : V) → token ≢ []
    → (b.set (cache_key c uri) token (lifetime_of ttl) v).0 ≡ none
    → (get b c uri (set b c uri token ttl v) ≡ some token)
      ⊎ (get b c uri (set b c uri token ttl v) ≡ none)
unfolding get set hit
get-set b c valkey uri token ttl v given h =
    elim (valkey.get_set (cache_key c uri) token (lifetime_of ttl) v h) [
      | inl got ↦ inl (rw got (hit-found token given))
      | inr (e, failed) ↦ inr (rw failed refl)
    ]
