-- ===== src/Prelude/Clock.antt =====
-- Instants and durations, in nanoseconds.
use Prim.Native.Nat.{ℕ, suc, ◌+◌, ◌-◌, ◌*◌, ◌%◌, ◌^◌, min}
use mathlib.Core.Bool.{Bool, true, false}
use eudi_verifier_core.Prelude.Tests.{ltb, leb, ◌==◌, if◌then◌else◌}

-- `time.Time`, as the nanoseconds since Go's zero time.
abbrev pub Time : Type 0
Time = ℕ

-- `t.IsZero()`
abbrev pub is_zero : Time → Bool
is_zero t = t == 0

-- `time.Duration`, an `int64`; `negsuc n` is -(n + 1).
pub data Duration : Type 0 where
  pos : ℕ → Duration
  negsuc : ℕ → Duration

-- `t.Sub(u)`, which saturates at the ends of `int64`.
unfoldable pub sub_time : Time → Time → Duration
sub_time t u =
    if leb u t
    then pos (min (t - u) 9223372036854775807)
    else negsuc (min (u - t - 1) 9223372036854775807)

-- `d < e`
abbrev pub shorter : Duration → Duration → Bool
shorter (pos m) (pos n) = ltb m n
shorter (pos m) (negsuc n) = false
shorter (negsuc m) (pos n) = true
shorter (negsuc m) (negsuc n) = ltb n m

-- `t.Add(d)`
abbrev pub add_time : Time → Duration → Time
add_time t (pos n) = t + n
add_time t (negsuc n) = t - suc n

-- A Go `int` of 64 bits, in the same representation.
abbrev pub Int64 : Type 0
Int64 = Duration

-- The number that a 64-bit pattern stands for.
abbrev pub signed64 : ℕ → Int64
signed64 w = if ltb w (2 ^ 63) then pos w else negsuc (2 ^ 64 - w - 1)

-- `time.Duration(n) * time.Second`, which wraps.
unfoldable pub seconds : Int64 → Duration
seconds (pos n) = signed64 (n * 1_000_000_000 % 2 ^ 64)
seconds (negsuc n) = signed64 ((2 ^ 64 - (n + 1) * 1_000_000_000 % 2 ^ 64) % 2 ^ 64)
