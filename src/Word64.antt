-- ===== src/Word64.antt =====
-- Go's `int`, `int64` and `uint64` on a 64-bit platform, as bit patterns below 2 ^ 64. A pattern of
-- at least 2 ^ 63 stands for a negative `int` in two's complement. Go's conversions between these
-- types keep the pattern, so they are not written.
use cloud_native.Prelude.{ℕ, ◌+◌, ◌-◌, ◌*◌, ◌/◌, ◌%◌, ◌^◌, Bool, ◌&&◌, leb, ltb, if◌then◌else◌}

-- `a + b`, on `int` and on `uint64` alike.
abbrev pub add64 : ℕ → ℕ → ℕ
add64 a b = (a + b) % 2 ^ 64

-- `a - b`
abbrev pub sub64 : ℕ → ℕ → ℕ
sub64 a b = (a + (2 ^ 64 - b)) % 2 ^ 64

-- `a * b`
abbrev pub mul64 : ℕ → ℕ → ℕ
mul64 a b = (a * b) % 2 ^ 64

-- `a < 0` on `int`
abbrev pub is_neg : ℕ → Bool
is_neg a = leb (2 ^ 63) a

-- `a > 0` on `int`
abbrev pub is_pos : ℕ → Bool
is_pos a = ltb 0 a && ltb a (2 ^ 63)

-- `a < b` on `int`: moving both by 2 ^ 63 turns the signed order into the unsigned one.
abbrev pub slt : ℕ → ℕ → Bool
slt a b = ltb ((a + 2 ^ 63) % 2 ^ 64) ((b + 2 ^ 63) % 2 ^ 64)

-- `a / k` on `int` truncates towards 0.
abbrev pub sdiv : ℕ → ℕ → ℕ
sdiv a k = if is_neg a then sub64 0 (sub64 0 a / k) else a / k

-- `a < b` on `int32`, as a pattern of 32 bits
abbrev pub slt32 : ℕ → ℕ → Bool
slt32 a b = ltb ((a + 2 ^ 31) % 2 ^ 32) ((b + 2 ^ 31) % 2 ^ 32)
