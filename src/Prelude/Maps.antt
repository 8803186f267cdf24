-- ===== src/Prelude/Maps.antt =====
-- Go maps from texts, by what they answer for a key.
use Prim.Native.String.{String}
use mathlib.Core.Path.{◌≡◌, refl}
use mathlib.Core.Option.{Option, some}
use text.Mathlib.Text.{◌==◌ as str_eq}
use text.Mathlib.TextEquality.{eq_iff}
use eudi_verifier_core.Prelude.Tests.{if◌then◌else◌}

abbrev pub GoMap : Type 0 → Type 0
GoMap V = String → Option V

-- `m[key] = v`
abbrev pub assign : {V : Type 0} → GoMap V → String → V → GoMap V
assign m key v = λ other. if str_eq other key then some v else m other

pub assigned : {V : Type 0} (m : GoMap V) (key : String) (v : V) → assign m key v key ≡ some v
assigned m key v = rw ((eq_iff key key).1 refl) refl
