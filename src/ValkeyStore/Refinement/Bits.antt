-- ===== src/ValkeyStore/Refinement/Bits.antt =====
-- Steps of the specification, by the bits of the two phases.
use eudi_verifier_core.Prelude.{Bool, true, false, ◌≡◌, ◌≢◌, refl}
use eudi_verifier_core.ValkeyStore.Lifecycle.{
  absent, fresh, spent, closed, creates, saves, rejects, Step, created, uncreated, resaved,
  restored, rejected, burnt,
}
use eudi_verifier_core.ValkeyStore.Refinement.{phase}

pub save-bits :
    (hs hc after_s after_c : Bool)
    → after_c ≡ hc
    → (hs ≡ true → after_s ≡ true)
    → phase hs hc ≢ absent
    → Step saves (phase hs hc) (phase after_s after_c)
save-bits true hc after_s after_c same more ne = rw (same, more refl) (resaved (phase true hc))
save-bits false false after_s after_c same more ne = absurd (ne refl)
save-bits false true true after_c same more ne = rw same restored
save-bits false true false after_c same more ne = rw same (resaved closed)

pub create-bits :
    (hs hc after_s after_c : Bool)
    → after_c ≡ hc
    → phase hs hc ≡ absent
    → Step creates (phase hs hc) (phase after_s after_c)
create-bits false false true after_c same e = rw same created
create-bits false false false after_c same e = rw same uncreated
create-bits true true after_s after_c same e = cc e
create-bits true false after_s after_c same e = cc e
create-bits false true after_s after_c same e = cc e

-- A failed consumption of a session that the server has.
pub reject-bits :
    (hc after_c : Bool)
    → (hc ≡ true → after_c ≡ true)
    → Step rejects (phase true hc) (phase true after_c)
reject-bits true after_c more = rw (more refl) (rejected spent)
reject-bits false true more = burnt
reject-bits false false more = rejected fresh
