-- ===== src/ValkeyStore/Refinement/Simulation.antt =====
-- The store's operations implement the single-use contract.
use eudi_verifier_core.Prelude.{◌≤◌, String, List, ◌∷◌, ◌≡◌, ◌≢◌, arith}
use eudi_verifier_core.ValkeyStore.{Backend, Store, key_session, key_served, key_consumed}
use eudi_verifier_core.ValkeyStore.Laws.{IsValkey}
use eudi_verifier_core.ValkeyStore.Replay.{state-mark}
use eudi_verifier_core.ValkeyStore.Lifecycle.{
  absent, Event, creates, saves, accepts, rejects, deletes, delete_fails, others, Step, removed,
  Trace, stays, goes, acceptances, creations, acceptances-le,
}
use eudi_verifier_core.ValkeyStore.Refinement.{
  phase_of, Does, does_create, does_save, does_accept, does_reject, does_delete, does_delete_fail,
  does_serve, does_code, does_save_other, does_delete_other, does_consume_other, Runs, rests,
  then_does,
}
use eudi_verifier_core.ValkeyStore.Refinement.Bits.{save-bits, create-bits}
use eudi_verifier_core.ValkeyStore.Refinement.Keeping.{
  Same-passed, save_other-Same, mark-Same, consume_other-Same,
}
use eudi_verifier_core.ValkeyStore.Refinement.Consuming.{
  consume-accepts, consume-rejects, saved_own, delete-phases, delete-fails, delete_other-Same,
  code-Same,
}

module _ {V : Type 0} (b : Backend V) (s : Store) (id : String) (valkey : IsValkey b)
    (own : key_consumed s id ≢ key_session s id) where
  -- Every operation is a step of the specification.
  Does-Step :
      (e : Event) (v w : V)
      → Does b s id valkey e v w
      → Step e (phase_of b s id valkey v) (phase_of b s id valkey w)
  Does-Step creates v w (does_create sess wall _ same none_yet) =
      create-bits _ _ _ _ (saved_own b s id valkey own sess wall v same).0 none_yet
  Does-Step saves v w (does_save sess wall _ same there) =
      save-bits _ _ _ _ (saved_own b s id valkey own sess wall v same).0
        (saved_own b s id valkey own sess wall v same).1 there
  Does-Step accepts v w (does_accept got now wall _ h) =
      consume-accepts b s id valkey own got now wall v h
  Does-Step rejects v w (does_reject e now wall _ h) =
      consume-rejects b s id valkey own e now wall v h
  Does-Step deletes v w (does_delete _ h) =
      rw (delete-phases b s id valkey own v h) (removed (phase_of b s id valkey v))
  Does-Step delete_fails v w (does_delete_fail e _ h) = delete-fails b s id valkey own v
  Does-Step others v w (does_serve other _ a) =
      Same-passed b s id valkey v w
        (rw (state-mark b s other v) (mark-Same b s id valkey (key_served s other) v a))
  Does-Step others v w (does_code code other _ a) =
      Same-passed b s id valkey v w (code-Same b s id valkey own code other v a)
  Does-Step others v w (does_save_other sess wall _ a) =
      Same-passed b s id valkey v w (save_other-Same b s id valkey sess wall v a)
  Does-Step others v w (does_delete_other other _ a c d) =
      Same-passed b s id valkey v w (delete_other-Same b s id valkey own other v a c d)
  Does-Step others v w (does_consume_other other now wall _ a c) =
      Same-passed b s id valkey v w (consume_other-Same b s id valkey other now wall v a c)

  Runs-Trace :
      (es : List Event) (v w : V)
      → Runs b s id valkey es v w
      → Trace es (phase_of b s id valkey v) (phase_of b s id valkey w)
  Runs-Trace es v w (rests _) = stays (phase_of b s id valkey v)
  Runs-Trace (e ∷ es) v w (then_does _ _ _ mid _ does runs) =
      goes e es _ _ _ (Does-Step e v mid does) (Runs-Trace es mid w runs)

-- On a backend that behaves like Valkey and of which no key expires, with the session's key and its
-- marker distinct, every sequence of operations of the store, on this session or with keys apart
-- from its two, is a path of the single-use specification between the phases that the server is in.
pub Runs-refines :
    {V : Type 0} (b : Backend V) (s : Store) (id : String) (valkey : IsValkey b)
    → key_consumed s id ≢ key_session s id
    → (es : List Event) (v w : V) → Runs b s id valkey es v w
    → Trace es (phase_of b s id valkey v) (phase_of b s id valkey w)
Runs-refines b s id valkey own es v w runs = Runs-Trace b s id valkey own es v w runs

-- Under the same conditions, from a server that has nothing of a session, `ConsumeOnce` returns the
-- session at most as often as a `Save` met a server that had neither it nor its marker.
pub acceptances-le_creations :
    {V : Type 0} (b : Backend V) (s : Store) (id : String) (valkey : IsValkey b)
    → key_consumed s id ≢ key_session s id
    → (es : List Event) (v w : V) → Runs b s id valkey es v w
    → phase_of b s id valkey v ≡ absent
    → acceptances es ≤ creations es
acceptances-le_creations b s id valkey own es v w runs none_yet =
    let path = rw none_yet at (Runs-Trace b s id valkey own es v w runs) in
    omega (arith, acceptances-le es absent (phase_of b s id valkey w) path)
