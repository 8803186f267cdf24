-- ===== src/InternalApi/Lifetime.antt =====
-- For how long a session is created that was asked for in seconds.
use Prim.Native.Nat.{min}
use eudi_verifier_core.Prelude.{ℕ, ◌*◌, if◌then◌else◌, ◌==◌}

-- The smaller of `n` seconds and `k` nanoseconds, and `k` for no seconds.
abbrev pub lasts : ℕ → ℕ → ℕ
lasts k n = if n == 0 then k else min (n * 1_000_000_000) k
