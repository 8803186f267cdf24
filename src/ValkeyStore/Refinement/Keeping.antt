-- ===== src/ValkeyStore/Refinement/Keeping.antt =====
-- Operations that leave a session's two keys as they were, or take neither away.
use eudi_verifier_core.Prelude.{
  ℕ, String, Bool, true, false, List, ◌≡◌, ◌⊎◌, inl, inr, refl, ◌∙◌, bytes, Time, str_eq,
  Bool-cases, Option-cases,
}
use eudi_verifier_core.Errors.{Result, ok, err, Result-cases}
use eudi_verifier_core.Libraries.{Session}
use eudi_verifier_core.ValkeyStore.{
  Backend, Store, Got, found, missing, broken, key_session, key_consumed, save, save_ttl, load,
  read, consume_once, persist, claim,
}
use eudi_verifier_core.ValkeyStore.Laws.{IsValkey}
use eudi_verifier_core.ValkeyStore.Lifecycle.{others, Step, passed}
use eudi_verifier_core.ValkeyStore.Refinement.{IsApart, phase_of}

module _ {V : Type 0} (b : Backend V) (s : Store) (id : String) (valkey : IsValkey b) where
  -- The two keys of this session are as they were.
  abbrev pub Same : V → V → Type 0
  Same v w =
      (valkey.holds (key_session s id) w ≡ valkey.holds (key_session s id) v)
      × (valkey.holds (key_consumed s id) w ≡ valkey.holds (key_consumed s id) v)

  pub Same-passed :
      (v w : V) → Same v w → Step others (phase_of b s id valkey v) (phase_of b s id valkey w)
  Same-passed v w (hs, hc) = rw (hs, hc) (passed (phase_of b s id valkey v))

  -- `Save` sets the key of its session, or nothing.
  pub saved_or_not :
      (sess : Session) (wall : Time) (v : V)
      → ((save b s sess wall v).1 ≡ v)
        ⊎ ((json : List ℕ) × ((save b s sess wall v).1
              ≡ (b.set (key_session s sess.id) json (save_ttl s sess wall) v).1))
  unfolding save
  saved_or_not sess wall v = elim (Bool-cases (str_eq sess.id "")) [
    | inl e ↦ inl (rw (e, save) refl)
    | inr e ↦ elim (Result-cases (b.marshal sess)) [
      | inr (failed, m) ↦ inl (rw (e, m, save) refl)
      | inl (json, m) ↦ inr (json, rw (e, m, save) refl)
    ]
  ]

  pub save_other-Same :
      (sess : Session) (wall : Time) (v : V)
      → IsApart b s id (key_session s sess.id)
      → Same v (save b s sess wall v).1
  save_other-Same sess wall v apart = elim (saved_or_not sess wall v) [
    | inl same ↦ rw same (refl, refl)
    | inr (json, same) ↦
        rw same
          (valkey.same_set _ _ json _ v apart.session, valkey.same_set _ _ json _ v apart.marker)
  ]

  pub mark-Same :
      (k : String) (v : V) → IsApart b s id k → Same v (b.set_nx k (bytes "1") s.session_ttl v).1
  mark-Same k v apart =
      (valkey.same_set_nx _ _ _ _ v apart.session, valkey.same_set_nx _ _ _ _ v apart.marker)

  persist-Same :
      (other : String) (sess : Session) (wall : Time) (v : V)
      → IsApart b s id (key_session s sess.id)
      → IsApart b s id (key_consumed s other)
      → Same v (persist b s other sess wall v).1
  unfolding persist
  persist-Same other sess wall v own marker =
      let consumed = record sess { consumed = true } in
      let kept = save_other-Same consumed wall v own in
      elim (Option-cases (save b s consumed wall v).0) [
        | inl e ↦ rw (e, persist) kept
        | inr (failed, e) ↦
            rw (e, persist)
              (
                valkey.same_del _ _ _ (marker.session, tt) ∙ kept.0,
                valkey.same_del _ _ _ (marker.marker, tt) ∙ kept.1,
              )
      ]

  claim-Same :
      (other : String) (sess : Session) (wall : Time) (r : Result Bool) (v : V)
      → IsApart b s id (key_session s sess.id)
      → IsApart b s id (key_consumed s other)
      → Same v (claim b s other sess wall (r, v)).1
  unfolding claim
  claim-Same other sess wall (err e) v own marker = (refl, refl)
  claim-Same other sess wall (ok false) v own marker = (refl, refl)
  claim-Same other sess wall (ok true) v own marker = persist-Same other sess wall v own marker

  Same-trans : (u v w : V) → Same u v → Same v w → Same u w
  Same-trans u v w (a, c) (x, y) = (x ∙ a, y ∙ c)

  pub consume_other-Same :
      (other : String) (now wall : Time) (v : V)
      → IsApart b s id (key_consumed s other)
      → ((sess : Session) → load b s other now v ≡ ok sess → IsApart b s id (key_session s sess.id))
      → Same v (consume_once b s other now wall v).1
  unfolding consume_once
  consume_other-Same other now wall v marker own = elim (Result-cases (load b s other now v)) [
    | inr (e, l) ↦ rw (l, consume_once) (refl, refl)
    | inl (sess, l) ↦
        rw (l, consume_once)
          (Same-trans v _ _ (mark-Same (key_consumed s other) v marker)
            (claim-Same other sess wall _ _ (own sess l) marker))
  ]

  pub save-holds :
      (key : String) (sess : Session) (wall : Time) (v : V)
      → valkey.holds key v ≡ true
      → valkey.holds key (save b s sess wall v).1 ≡ true
  save-holds key sess wall v h = elim (saved_or_not sess wall v) [
    | inl same ↦ rw same h
    | inr (json, same) ↦ rw same (valkey.holds_set _ _ json _ v h)
  ]

  found_only :
      (g : Got) (now : Time) (v : V) {sess : Session}
      → b.get (key_session s id) v ≡ g
      → read b s g now ≡ ok sess
      → valkey.holds (key_session s id) v ≡ true
  unfolding read
  found_only missing now v e h = cc h
  found_only (broken x) now v e h = cc h
  found_only (found json) now v e h = valkey.get_found (key_session s id) json v e

  -- What `Load` returns was found.
  pub load-holds :
      (sess : Session) (now : Time) (v : V)
      → load b s id now v ≡ ok sess
      → valkey.holds (key_session s id) v ≡ true
  unfolding load read
  load-holds sess now v h = found_only (b.get (key_session s id) v) now v refl h
