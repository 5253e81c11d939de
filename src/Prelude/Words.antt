-- ===== src/Prelude/Words.antt =====
-- The machine arithmetic of the Go code: `uint64` wraps, and an instant (`time.Time`) is the
-- number of nanoseconds since the Unix epoch.
use Prim.Native.Nat.{ℕ, ◌+◌, ◌*◌, ◌/◌, ◌%◌, ◌^◌}

abbrev pub u64_mod : ℕ
u64_mod = 2 ^ 64

-- `a + b` and `a * b` on `uint64`.
abbrev pub add64 : ℕ → ℕ → ℕ
add64 a b = (a + b) % u64_mod

abbrev pub mul64 : ℕ → ℕ → ℕ
mul64 a b = (a * b) % u64_mod

-- `t.Unix()` and `time.Unix(s, 0)`.
abbrev pub unix : ℕ → ℕ
unix t = t / 1000000000

abbrev pub at_unix : ℕ → ℕ
at_unix s = s * 1000000000

-- `time.Millisecond` and `time.Second` in nanoseconds.
abbrev pub millisecond : ℕ
millisecond = 1000000

abbrev pub second : ℕ
second = 1000000000

abbrev pub minute : ℕ
minute = 60000000000
