-- ===== src/ValkeyStore/Lookup.antt =====
-- What `Load` reads of what `Save` wrote, and for how long `Save` keeps it.
use eudi_verifier_core.Prelude.{
  ℕ, ◌+◌, Duration, pos, shorter, sub_time, true, false, none, ◌≡◌, ◌≢◌, ◌⊎◌, inl, inr, refl, Bytes,
  bytes, Time, leb, str_eq, Bool-cases,
}
use eudi_verifier_core.Errors.{GoError, Result, ok, err, Result-cases, oid4vp_session_not_found}
use eudi_verifier_core.Libraries.{Session}
use eudi_verifier_core.ValkeyStore.{Backend, Store, key_session, prefixed, save_ttl, save}

-- The lifetime of a stored session: what is left of its own where that is positive and shorter than
-- the store's, and the store's otherwise.
abbrev pub IsLifetime : Store → Session → (wall : Time) → Duration → Type 0
IsLifetime s sess wall d =
    let until = sub_time sess.expires_at wall in
    ((shorter (pos 0) until ≡ true) × (shorter until s.session_ttl ≡ true) × (d ≡ until))
    ⊎ (((shorter (pos 0) until ≡ false) ⊎ (shorter until s.session_ttl ≡ false))
        × (d ≡ s.session_ttl))

-- A time `d` after the `Save` is within the store's lifetime, and within what was left of the
-- session's own if that was positive, by a millisecond at least.
abbrev pub IsWithin : Store → Session → (wall : Time) → (d : ℕ) → Type 0
IsWithin s sess wall d =
    let until = sub_time sess.expires_at wall in
    (shorter s.session_ttl (pos (d + 1000000)) ≡ false)
    × (shorter (pos 0) until ≡ true → shorter until (pos (d + 1000000)) ≡ false)

module _ (s : Store) (sess : Session) (wall : Time) where
  save_ttl-IsLifetime : IsLifetime s sess wall (save_ttl s sess wall)
  unfolding save_ttl
  save_ttl-IsLifetime =
      let until = sub_time sess.expires_at wall in
      elim (Bool-cases (shorter (pos 0) until)) [
        | inr e ↦ inr (inl e, rw (e, save_ttl) refl)
        | inl e ↦ elim (Bool-cases (shorter until s.session_ttl)) [
          | inl l ↦ inl (e, l, rw (e, l, save_ttl) refl)
          | inr l ↦ inr (inr l, rw (e, l, save_ttl) refl)
        ]
      ]

  pub save_ttl-within :
      (d : ℕ) → IsWithin s sess wall d → shorter (save_ttl s sess wall) (pos (d + 1000000)) ≡ false
  save_ttl-within d (stays, own) = elim save_ttl-IsLifetime [
    | inl (e, l, same) ↦ rw same (own e)
    | inr (why, same) ↦ rw same stays
  ]

module _ {V : Type 0} (b : Backend V) (s : Store) where
  -- What a reader may get of the session `sess` at the time `now`.
  pub data Reads (sess : Session) (now : Time) : Result Session → Type 0 where
    alive : ((sess.expires_at ≡ 0) ⊎ (leb sess.expires_at now ≡ false)) → Reads sess now (ok sess)
    over :
        leb sess.expires_at now ≡ true
        → sess.expires_at ≢ 0
        → Reads sess now (err (b.sentinel oid4vp_session_not_found))
    unread : (e : GoError) → Reads sess now (err (prefixed (bytes "valkeystore: load: ") e))

  -- `Save` without an error stored the session's JSON form under its key.
  saved :
      (sess : Session) (wall : Time) (v : V)
      → (save b s sess wall v).0 ≡ none
      → (json : Bytes) × (b.marshal sess ≡ ok json)
        × ((b.set (key_session s sess.id) json (save_ttl s sess wall) v).0 ≡ none)
        × ((save b s sess wall v).1
            ≡ (b.set (key_session s sess.id) json (save_ttl s sess wall) v).1)
  unfolding save
  saved sess wall v h = elim (Bool-cases (str_eq sess.id "")) [
    | inl e ↦ absurd (cc (rw (e, save) at h))
    | inr e ↦ elim (Result-cases (b.marshal sess)) [
      | inr (failed, m) ↦ absurd (cc (rw (e, m, save) at h))
      | inl (json, m) ↦ (json, m, rw (e, m, save) at h, rw (e, m, save) refl)
    ]
  ]

  -- The one command by which a `Save` stored the session, and its lifetime.
  pub record Stored (sess : Session) (wall : Time) (v : V) : Type 0 where
    pub json : Bytes
    pub lifetime : Duration
    pub written : b.marshal sess ≡ ok json
    pub lasting : IsLifetime s sess wall lifetime
    pub sent : (save b s sess wall v).1 ≡ (b.set (key_session s sess.id) json lifetime v).1
