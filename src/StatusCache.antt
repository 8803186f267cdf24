-- ===== src/StatusCache.antt =====
-- Status list tokens that are kept on Valkey, and the record of how often lists are referred to:
-- internal/statuscache/cache.go.
pub mod Caching
use eudi_verifier_core.Prelude.{
  ℕ, String, Bool, true, Option, none, some, [], ◌∷◌, Bytes, Time, Duration, pos, shorter,
  text_append, ◌/◌, ◌-◌, leb, negsuc, Int64, if◌then◌else◌,
}
use eudi_verifier_core.Errors.{GoError}
use eudi_verifier_core.ValkeyStore.{Backend, Got, found, missing, broken}

-- `Cache`, with the key that trustcache makes of a list's URI.
pub record Cache : Type 0 where
  pub prefix : String
  pub status_list_key : String → String

-- `WithKeyPrefix`
unfoldable pub with_key_prefix : String → Cache → Cache
with_key_prefix prefix c = record c { prefix = prefix }

unfoldable pub cache_key : Cache → String → String
cache_key c uri = text_append c.prefix (c.status_list_key uri)

hit : Got → Option Bytes
hit missing = none
hit (broken e) = none
hit (found []) = none
hit (found (b ∷ token)) = some (b ∷ token)

-- A lifetime that is not positive is a minute.
unfoldable pub lifetime_of : Duration → Duration
lifetime_of ttl = if shorter (pos 0) ttl then ttl else pos 60000000000

module _ {V : Type 0} (b : Backend V) (c : Cache) where
  -- `Cache.Get`; `none` is its second result `false`.
  unfoldable pub get : String → V → Option Bytes
  unfolding hit cache_key
  get uri v = hit (b.get (cache_key c uri) v)

  -- `Cache.Set`; an error of the client is dropped.
  unfoldable pub set : String → Bytes → Duration → V → V
  unfolding lifetime_of cache_key
  set uri token ttl v = (b.set (cache_key c uri) token (lifetime_of ttl) v).1

-- `t.Unix()`
unfoldable pub unix : Time → Int64
unix t =
    let s = t / 1_000_000_000 in
    if leb 62135596800 s then pos (s - 62135596800) else negsuc (62135596800 - s - 1)

-- `RefRecorder`, with the server's `ZADD` and the key of trustcache.
pub record RefRecorder (V : Type 0) : Type 0 where
  pub zadd : (key : String) (score : Int64) (member : String) → V → Option GoError × V
  pub refs_key : String
  pub prefix : String

-- `Record`, at the time that the recorder's clock gives.
unfoldable pub record_ref :
    {V : Type 0} → RefRecorder V → String → (now : Time) → V → Option GoError × V
unfolding unix
record_ref r uri now v = r.zadd (text_append r.prefix r.refs_key) (unix now) uri v
