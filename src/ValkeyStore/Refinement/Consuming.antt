-- ===== src/ValkeyStore/Refinement/Consuming.antt =====
-- The phases that consuming, saving and deleting a session lead between.
use eudi_verifier_core.Prelude.{
  String, Bool, true, false, none, [], ◌∷◌, ◌≡◌, ◌≢◌, inl, inr, refl, sym, ◌∙◌, ap, Time,
  Option-cases, text_append,
}
use eudi_verifier_core.Errors.{GoError, Result, ok, err, Result-cases}
use eudi_verifier_core.Libraries.{Session}
use eudi_verifier_core.ValkeyStore.{
  Backend, Store, key_session, key_served, key_consumed, save, load, consume_once, persist, claim,
  save_response_code, delete_session,
}
use eudi_verifier_core.ValkeyStore.Laws.{IsValkey}
use eudi_verifier_core.ValkeyStore.Lifecycle.{
  absent, accepts, rejects, delete_fails, Step, accepted, rejected, unremoved, lost,
}
use eudi_verifier_core.ValkeyStore.Refinement.{IsApart, phase_of}
use eudi_verifier_core.ValkeyStore.Refinement.Bits.{reject-bits}
use eudi_verifier_core.ValkeyStore.Refinement.Keeping.{Same, save-holds, load-holds, saved_or_not}

module _ {V : Type 0} (b : Backend V) (s : Store) (id : String) (valkey : IsValkey b)
    (own : key_consumed s id ≢ key_session s id) where
  accept-phases :
      (got sess : Session) (wall : Time) (r : Result Bool) (v w : V)
      → valkey.holds (key_session s id) v ≡ true
      → valkey.holds (key_session s id) w ≡ true
      → (r ≡ ok true
          → (valkey.holds (key_consumed s id) v ≡ false)
            × (valkey.holds (key_consumed s id) w ≡ true))
      → (claim b s id sess wall (r, w)).0 ≡ ok got
      → Step accepts
          (phase_of b s id valkey v)
          (phase_of b s id valkey (claim b s id sess wall (r, w)).1)
  unfolding claim persist
  accept-phases got sess wall (err e) v w hs hw first h = cc h
  accept-phases got sess wall (ok false) v w hs hw first h = cc h
  accept-phases got sess wall (ok true) v w hs hw first h =
      let (before, after) = first refl in
      let consumed = record sess { consumed = true } in
      elim (Option-cases (save b s consumed wall w).0) [
        | inr (failed, e) ↦ absurd (cc (rw (e, persist) at h))
        | inl e ↦
            rw
              (
                e,
                persist,
                hs,
                before,
                save-holds b s id valkey (key_session s id) consumed wall w hw,
                save-holds b s id valkey (key_consumed s id) consumed wall w after,
              )
              accepted
      ]

  reject-phases :
      (sess : Session) (wall : Time) (r : Result Bool) (e : GoError) (v w : V)
      → valkey.holds (key_session s id) v ≡ true
      → valkey.holds (key_session s id) w ≡ true
      → (valkey.holds (key_consumed s id) v ≡ true → valkey.holds (key_consumed s id) w ≡ true)
      → (r ≡ ok true → valkey.holds (key_consumed s id) v ≡ false)
      → (claim b s id sess wall (r, w)).0 ≡ err e
      → Step rejects
          (phase_of b s id valkey v)
          (phase_of b s id valkey (claim b s id sess wall (r, w)).1)
  unfolding claim persist
  reject-phases sess wall (err x) e v w hs hw more first h = rw (hs, hw) (reject-bits _ _ more)
  reject-phases sess wall (ok false) e v w hs hw more first h = rw (hs, hw) (reject-bits _ _ more)
  reject-phases sess wall (ok true) e v w hs hw more first h =
      let consumed = record sess { consumed = true } in
      elim (Option-cases (save b s consumed wall w).0) [
        | inl q ↦ absurd (cc (rw (q, persist) at h))
        | inr (failed, q) ↦
            let kept =
              valkey.same_del (key_session s id) (key_consumed s id ∷ [])
                (save b s consumed wall w).1 (own, tt)
              ∙ save-holds b s id valkey (key_session s id) consumed wall w hw in
            rw (q, persist, hs, kept) (reject-bits _ _ (λ c. cc (c, first refl)))
      ]

  pub consume-accepts :
      (got : Session) (now wall : Time) (v : V)
      → (consume_once b s id now wall v).0 ≡ ok got
      → Step accepts
          (phase_of b s id valkey v)
          (phase_of b s id valkey (consume_once b s id now wall v).1)
  unfolding consume_once
  consume-accepts got now wall v h = elim (Result-cases (load b s id now v)) [
    | inr (e, l) ↦ absurd (cc (rw (l, consume_once) at h))
    | inl (sess, l) ↦
        let hs = load-holds b s id valkey sess now v l in
        rw (l, consume_once)
          (accept-phases got sess wall _ v _ hs (valkey.same_set_nx _ _ _ _ v own ∙ hs)
            (valkey.first_set_nx _ _ _ v) (rw (l, consume_once) at h))
  ]

  pub consume-rejects :
      (e : GoError) (now wall : Time) (v : V)
      → (consume_once b s id now wall v).0 ≡ err e
      → Step rejects
          (phase_of b s id valkey v)
          (phase_of b s id valkey (consume_once b s id now wall v).1)
  unfolding consume_once
  consume-rejects e now wall v h = elim (Result-cases (load b s id now v)) [
    | inr (x, l) ↦ rw (l, consume_once) (rejected (phase_of b s id valkey v))
    | inl (sess, l) ↦
        let hs = load-holds b s id valkey sess now v l in
        rw (l, consume_once)
          (reject-phases sess wall _ e v _ hs (valkey.same_set_nx _ _ _ _ v own ∙ hs)
            (valkey.holds_set_nx _ _ _ _ v) (λ first. (valkey.first_set_nx _ _ _ v first).0)
            (rw (l, consume_once) at h))
  ]

  -- A save of this session leaves the marker as it was, and takes no key away.
  pub saved_own :
      (sess : Session) (wall : Time) (v : V)
      → sess.id ≡ id
      → (valkey.holds (key_consumed s id) (save b s sess wall v).1
          ≡ valkey.holds (key_consumed s id) v)
        × (valkey.holds (key_session s id) v ≡ true
            → valkey.holds (key_session s id) (save b s sess wall v).1 ≡ true)
  saved_own sess wall v same = (
    elim (saved_or_not b s id valkey sess wall v) [
      | inl kept ↦ rw kept refl
      | inr (json, set) ↦
          rw set (valkey.same_set _ _ json _ v (λ e. own (sym e ∙ ap (key_session s) same)))
    ],
    save-holds b s id valkey (key_session s id) sess wall v,
  )

  pub delete-phases :
      (v : V)
      → (delete_session b s id v).0 ≡ none
      → phase_of b s id valkey (delete_session b s id v).1 ≡ absent
  unfolding delete_session
  delete-phases v h =
      let (gone, (served, (marker, done))) =
        valkey.del_here (key_session s id ∷ key_served s id ∷ key_consumed s id ∷ []) v h in
      rw (gone, marker) refl

  pub delete-fails :
      (v : V)
      → Step delete_fails
          (phase_of b s id valkey v)
          (phase_of b s id valkey (delete_session b s id v).1)
  unfolding delete_session
  delete-fails v =
      elim (valkey.del_atomic (key_session s id ∷ key_served s id ∷ key_consumed s id ∷ []) v) [
        | inl (gone, (served, (marker, done))) ↦ rw (gone, marker) (lost (phase_of b s id valkey v))
        | inr same ↦
            rw (same (key_session s id), same (key_consumed s id))
              (unremoved (phase_of b s id valkey v))
      ]

  pub delete_other-Same :
      (other : String) (v : V)
      → IsApart b s id (key_session s other)
      → IsApart b s id (key_served s other)
      → IsApart b s id (key_consumed s other)
      → Same b s id valkey v (delete_session b s other v).1
  unfolding delete_session
  delete_other-Same other v a c d = (
    valkey.same_del _ _ v (a.session, (c.session, (d.session, tt))),
    valkey.same_del _ _ v (a.marker, (c.marker, (d.marker, tt))),
  )

  pub code-Same :
      (code other : String) (v : V)
      → IsApart b s id (text_append s.prefix (b.resp_code_key code))
      → Same b s id valkey v (save_response_code b s code other v).1
  unfolding save_response_code
  code-Same code other v a =
      (valkey.same_set _ _ _ _ v a.session, valkey.same_set _ _ _ _ v a.marker)
