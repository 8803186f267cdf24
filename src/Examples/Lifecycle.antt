-- ===== src/Examples/Lifecycle.antt =====
-- A session that is saved, consumed, and consumed again.
use eudi_verifier_core.Prelude.{◌≤◌, [], ◌∷◌, ◌≡◌, ◌≢◌, refl, eq_iff}
use eudi_verifier_core.Errors.{ok, err, plain}
use eudi_verifier_core.ValkeyStore.{save, load, consume_once, key_session, key_consumed}
use eudi_verifier_core.ValkeyStore.Lifecycle.{
  absent, creates, accepts, rejects, Trace, acceptances, creations,
}
use eudi_verifier_core.ValkeyStore.Refinement.{
  phase_of, Runs, rests, then_does, does_create, does_accept, does_reject,
}
use eudi_verifier_core.ValkeyStore.Refinement.Simulation.{Runs-refines, acceptances-le_creations}
use eudi_verifier_core.Examples.Wallet.{session}
use eudi_verifier_core.Examples.Stores.{
  Keys, backend, backend-IsValkey, store, nothing, nothing_held,
}

abbrev first : Keys
first = (save backend store session 10 nothing).1

abbrev second : Keys
second = (consume_once backend store "s1" 20 20 first).1

abbrev third : Keys
third = (consume_once backend store "s1" 30 30 second).1

keys_differ : key_consumed store "s1" ≢ key_session store "s1"
unfolding key_consumed key_session store
keys_differ e = cc ((eq_iff "vc:session:s1:consumed" "vc:session:s1").1 e)

nothing_yet : phase_of backend store "s1" backend-IsValkey nothing ≡ absent
nothing_yet =
    rw (nothing_held (key_session store "s1"), nothing_held (key_consumed store "s1")) refl

accepted_once : (consume_once backend store "s1" 20 20 first).0 ≡ ok session
unfolding save consume_once load store key_session key_consumed
accepted_once = refl

rejected_then : (consume_once backend store "s1" 30 30 second).0 ≡ err (plain [])
unfolding save consume_once load store key_session key_consumed
rejected_then = refl

runs : Runs backend store "s1" backend-IsValkey (creates ∷ accepts ∷ rejects ∷ []) nothing third
runs =
    then_does creates (accepts ∷ rejects ∷ []) nothing first third
      (does_create session 10 nothing refl nothing_yet)
      (then_does accepts (rejects ∷ []) first second third
        (does_accept session 20 20 first accepted_once)
        (then_does rejects [] second third third (does_reject (plain []) 30 30 second rejected_then)
          (rests third)))

Runs-refines_example :
    Trace
      (creates ∷ accepts ∷ rejects ∷ [])
      (phase_of backend store "s1" backend-IsValkey nothing)
      (phase_of backend store "s1" backend-IsValkey third)
Runs-refines_example =
    Runs-refines backend store "s1" backend-IsValkey keys_differ (creates ∷ accepts ∷ rejects ∷ [])
      nothing third runs

acceptances-le_creations_example :
    acceptances (creates ∷ accepts ∷ rejects ∷ []) ≤ creations (creates ∷ accepts ∷ rejects ∷ [])
acceptances-le_creations_example =
    acceptances-le_creations backend store "s1" backend-IsValkey keys_differ
      (creates ∷ accepts ∷ rejects ∷ []) nothing third runs nothing_yet
