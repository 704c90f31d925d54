-- ===== src/Prelude/Time.antt =====
-- Times are whole nanoseconds, the resolution of Python's monotonic clock.
use Prim.Native.Nat.{ℕ}

abbrev pub second : ℕ
second = 1000000000
