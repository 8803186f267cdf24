-- ===== src/ValkeyStore/Replay/Traffic.antt =====
-- A consumed session stays consumed while the rest of the service goes on.
use eudi_verifier_core.Prelude.{String, true, ◌≡◌, ◌∙◌, Time}
use eudi_verifier_core.Errors.{GoError, ok, err}
use eudi_verifier_core.Libraries.{Session}
use eudi_verifier_core.ValkeyStore.{Backend, Store, key_consumed, consume_once}
use eudi_verifier_core.ValkeyStore.Laws.{IsValkey}
use eudi_verifier_core.ValkeyStore.Replay.{Calls, Calls-holds, first, again}

module _ {V : Type 0} (b : Backend V) (s : Store) (valkey : IsValkey b) (id : String) where
  -- What happens between two attempts on one session: operations of the store, and changes of the
  -- state by others, such as the database, the queue and the caches, that leave the presence of this
  -- session's marker as it is.
  pub data Traffic : V → V → Type 0 where
    quiet : (v : V) → Traffic v v
    operations : (v v' w : V) → Calls b s id v v' → Traffic v' w → Traffic v w
    elsewhere :
        (v v' w : V)
        → valkey.holds (key_consumed s id) v' ≡ valkey.holds (key_consumed s id) v
        → Traffic v' w
        → Traffic v w

  Traffic-holds :
      (v w : V)
      → Traffic v w
      → valkey.holds (key_consumed s id) v ≡ true
      → valkey.holds (key_consumed s id) w ≡ true
  Traffic-holds v w (quiet _) h = h
  Traffic-holds v w (operations _ v' _ calls t) h =
      Traffic-holds v' w t (Calls-holds b s id valkey v v' calls h)
  Traffic-holds v w (elsewhere _ v' _ same t) h = Traffic-holds v' w t (same ∙ h)

  -- Once an attempt has returned the session, an attempt behind such traffic ends in an error.
  pub Traffic-once :
      (got : Session) (now wall now2 wall2 : Time) (v w : V)
      → (consume_once b s id now wall v).0 ≡ ok got
      → Traffic (consume_once b s id now wall v).1 w
      → (e : GoError) × ((consume_once b s id now2 wall2 w).0 ≡ err e)
  Traffic-once got now wall now2 wall2 v w claimed t =
      (again b s id valkey now2 wall2 w
        (Traffic-holds _ w t (first b s id valkey got now wall v claimed))).0
