-- ===== src/ValkeyStore/Liveness.antt =====
-- A session that was saved and not yet consumed can be consumed.
use eudi_verifier_core.Prelude.{
  ℕ, String, true, false, not, Option, none, ◌≡◌, ◌≢◌, ◌⊎◌, ◌∙◌, inl, inr, refl, ap, arith, Bytes,
  bytes, Duration, Time, leb, is_zero, str_eq, eq_iff, Bool-cases,
}
use eudi_verifier_core.Errors.{GoError, ok}
use eudi_verifier_core.Libraries.{Session}
use eudi_verifier_core.ValkeyStore.{
  Backend, Store, broken, key_session, key_consumed, save_ttl, save, load, read, unexpired, persist,
  claim, consume_once,
}
use eudi_verifier_core.ValkeyStore.Laws.{IsValkey, IsLasting}
use eudi_verifier_core.ValkeyStore.Lookup.{IsWithin, save_ttl-within}

-- A server that is up answers every command without an error, and claims a key that it does not have.
pub record IsUp {V : Type 0} (b : Backend V) (valkey : IsValkey b) : Type 0 where
  pub writes :
      (k : String) (value : Bytes) (ttl : Duration) (v : V) → (b.set k value ttl v).0 ≡ none
  pub claims :
      (k : String) (value : Bytes) (ttl : Duration) (v : V)
      → (b.set_nx k value ttl v).0 ≡ ok (not (valkey.holds k v))
  pub reads : (k : String) (e : GoError) (v : V) → b.get k v ≢ broken e

-- A session that the store can keep: it has an id, and it has a JSON form, also once it is consumed,
-- of which the first reads back.
pub record IsStorable {V : Type 0} (b : Backend V) (sess : Session) : Type 0 where
  pub named : sess.id ≢ ""
  pub json : Bytes
  pub written : b.marshal sess ≡ ok json
  pub parsed : b.unmarshal json ≡ ok sess
  pub consumed_json : Bytes
  pub consumed_written : b.marshal (record sess { consumed = true }) ≡ ok consumed_json

id_given : (id : String) → id ≢ "" → str_eq id "" ≡ false
id_given id h = elim (Bool-cases (str_eq id "")) [
  | inl e ↦ absurd (h ((eq_iff id "").0 e))
  | inr e ↦ e
]

module _ {V : Type 0} (b : Backend V) (s : Store) (valkey : IsValkey b) (up : IsUp b valkey) where
  saves :
      (sess : Session) (json : Bytes) (wall : Time) (v : V)
      → sess.id ≢ ""
      → b.marshal sess ≡ ok json
      → save b s sess wall v ≡ b.set (key_session s sess.id) json (save_ttl s sess wall) v
  unfolding save
  saves sess json wall v named m = rw (id_given sess.id named, m, save) refl

  in_time :
      (sess : Session) (now : Time)
      → (sess.expires_at ≡ 0) ⊎ (leb sess.expires_at now ≡ false)
      → unexpired b s sess now ≡ ok sess
  unfolding unexpired
  in_time sess now (inl z) = ground (arith, z)
  in_time sess now (inr l) = elim (Bool-cases (is_zero sess.expires_at)) [
    | inl z ↦ rw (z, unexpired) refl
    | inr z ↦ rw (z, l, unexpired) refl
  ]

  loads :
      (lasting : IsLasting b valkey) (sess : Session) (wall now : Time) (d : ℕ) (v : V)
      (k : IsStorable b sess)
      → (sess.expires_at ≡ 0) ⊎ (leb sess.expires_at now ≡ false)
      → IsWithin s sess wall d
      → load b s sess.id now (lasting.elapse d (save b s sess wall v).1) ≡ ok sess
  unfolding load read
  loads lasting sess wall now d v k alive within =
      let same = saves sess k.json wall v k.named k.written in
      elim (lasting.get_within (key_session s sess.id) k.json (save_ttl s sess wall) d v
        (up.writes _ _ _ v) (save_ttl-within s sess wall d within)) [
          | inl got ↦ rw (same, got, read, k.parsed) (in_time sess now alive)
          | inr (e, got) ↦ absurd (up.reads _ e _ got)
        ]

  persists :
      (sess : Session) (wall : Time) (v : V) (k : IsStorable b sess)
      → (persist b s sess.id sess wall v).0 ≡ ok (record sess { consumed = true })
  unfolding persist save
  persists sess wall v k =
      rw
        (
          persist,
          id_given sess.id k.named,
          k.consumed_written,
          up.writes (key_session s sess.id) k.consumed_json
              (save_ttl s (record sess { consumed = true }) wall) v,
        )
        refl

  -- The marker of a loaded session is free.
  consumes :
      (sess : Session) (now later : Time) (v : V) (k : IsStorable b sess)
      → load b s sess.id now v ≡ ok sess
      → valkey.holds (key_consumed s sess.id) v ≡ false
      → (consume_once b s sess.id now later v).0 ≡ ok (record sess { consumed = true })
  unfolding consume_once claim
  consumes sess now later v k loaded free =
      rw
        (
          consume_once,
          loaded,
          claim,
          up.claims (key_consumed s sess.id) (bytes "1") s.session_ttl v,
          free,
        )
        (persists sess later _ k)

-- On a server that behaves like Valkey and is up, a session that can be stored is saved where its
-- marker is not held, under a key that is not the marker's. If `ConsumeOnce` comes before the session
-- expires by the clock of the store, and a time `d` after the `Save`, no other command in between,
-- that is within the store's lifetime and, if positive, what was left of the session's own, by a
-- millisecond at least, then it returns the session, marked as consumed.
pub consume_once-live :
    {V : Type 0} (b : Backend V) (s : Store) (valkey : IsValkey b) (lasting : IsLasting b valkey)
    (sess : Session) (wall now later : Time) (d : ℕ) (v : V)
    → IsUp b valkey
    → IsStorable b sess
    → valkey.holds (key_consumed s sess.id) v ≡ false
    → key_session s sess.id ≢ key_consumed s sess.id
    → (sess.expires_at ≡ 0) ⊎ (leb sess.expires_at now ≡ false)
    → IsWithin s sess wall d
    → (consume_once b s sess.id now later (lasting.elapse d (save b s sess wall v).1)).0
      ≡ ok (record sess { consumed = true })
consume_once-live {V = V} b s valkey lasting sess wall now later d v up k free apart alive within =
    let same = saves b s valkey up sess k.json wall v k.named k.written in
    consumes b s valkey up sess now later (lasting.elapse d (save b s sess wall v).1) k
      (loads b s valkey up lasting sess wall now d v k alive within)
      (lasting.still_free _ d _ (
        ap (λ (r : Option GoError × V). valkey.holds (key_consumed s sess.id) r.1) same
        ∙ valkey.same_set _ _ k.json _ v apart
        ∙ free))
