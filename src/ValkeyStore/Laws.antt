-- ===== src/ValkeyStore/Laws.antt =====
-- What the store relies on of the Valkey server, as far as no key has expired.
use eudi_verifier_core.Prelude.{
  ℕ, ◌+◌, pos, shorter, String, Bool, true, false, none, List, ◌≡◌, ◌≢◌, ◌⊎◌, ◌∙◌, All, Bytes,
  Duration,
}
use eudi_verifier_core.Errors.{GoError, ok}
use eudi_verifier_core.ValkeyStore.{found, broken, Backend}

pub record IsValkey {V : Type 0} (b : Backend V) : Type 0 where
  -- Whether the server has the key.
  pub holds : String → V → Bool
  -- `SET` without an error stores the value, and no `SET` removes a key.
  pub get_set :
      (k : String) (value : Bytes) (ttl : Duration) (v : V)
      → (b.set k value ttl v).0 ≡ none
      → (b.get k (b.set k value ttl v).1 ≡ found value)
        ⊎ ((e : GoError) × (b.get k (b.set k value ttl v).1 ≡ broken e))
  pub holds_set :
      (key k : String) (value : Bytes) (ttl : Duration) (v : V)
      → holds key v ≡ true
      → holds key (b.set k value ttl v).1 ≡ true
  -- `SETNX` claims a key only if the server does not have it, and holds it then.
  pub first_set_nx :
      (k : String) (value : Bytes) (ttl : Duration) (v : V)
      → (b.set_nx k value ttl v).0 ≡ ok true
      → (holds k v ≡ false) × (holds k (b.set_nx k value ttl v).1 ≡ true)
  pub holds_set_nx :
      (key k : String) (value : Bytes) (ttl : Duration) (v : V)
      → holds key v ≡ true
      → holds key (b.set_nx k value ttl v).1 ≡ true
  -- `DEL` with no error removes the keys that it names, with an error all of them or none, and it
  -- changes no other key.
  pub del_here :
      (ks : List String) (v : V)
      → (b.del ks v).0 ≡ none
      → All (λ k. holds k (b.del ks v).1 ≡ false) ks
  pub del_atomic :
      (ks : List String) (v : V)
      → All (λ k. holds k (b.del ks v).1 ≡ false) ks
        ⊎ ((key : String) → holds key (b.del ks v).1 ≡ holds key v)
  pub same_del :
      (key : String) (ks : List String) (v : V)
      → All (λ k. k ≢ key) ks
      → holds key (b.del ks v).1 ≡ holds key v
  -- `SET` and `SETNX` change no other key, and what `GET` finds the server has.
  pub set_here :
      (k : String) (value : Bytes) (ttl : Duration) (v : V)
      → (b.set k value ttl v).0 ≡ none
      → holds k (b.set k value ttl v).1 ≡ true
  pub same_set :
      (key k : String) (value : Bytes) (ttl : Duration) (v : V)
      → k ≢ key
      → holds key (b.set k value ttl v).1 ≡ holds key v
  pub same_set_nx :
      (key k : String) (value : Bytes) (ttl : Duration) (v : V)
      → k ≢ key
      → holds key (b.set_nx k value ttl v).1 ≡ holds key v
  pub get_found : (k : String) (value : Bytes) (v : V) → b.get k v ≡ found value → holds k v ≡ true

-- What it relies on of the server as time passes: a value is there for the lifetime that it was set
-- with, which the server counts in whole milliseconds, and no key appears by itself.
pub record IsLasting {V : Type 0} (b : Backend V) (valkey : IsValkey b) : Type 0 where
  -- The server after that many nanoseconds without a command.
  pub elapse : ℕ → V → V
  pub get_within :
      (k : String) (value : Bytes) (ttl : Duration) (d : ℕ) (v : V)
      → (b.set k value ttl v).0 ≡ none
      → shorter ttl (pos (d + 1000000)) ≡ false
      → (b.get k (elapse d (b.set k value ttl v).1) ≡ found value)
        ⊎ ((e : GoError) × (b.get k (elapse d (b.set k value ttl v).1) ≡ broken e))
  pub still_free :
      (k : String) (d : ℕ) (v : V) → valkey.holds k v ≡ false → valkey.holds k (elapse d v) ≡ false

module _ {V : Type 0} {b : Backend V} (valkey : IsValkey b) where
  pub holds_del :
      (key : String) (ks : List String) (v : V)
      → All (λ k. k ≢ key) ks
      → valkey.holds key v ≡ true
      → valkey.holds key (b.del ks v).1 ≡ true
  holds_del key ks v apart h = valkey.same_del key ks v apart ∙ h
