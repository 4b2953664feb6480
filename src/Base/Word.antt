-- ===== src/Base/Word.antt =====
-- 64-bit machine integers as bit patterns below 2 ^ 64. An `int64` is the pattern of its two's
-- complement, so that sums, differences and products wrap as the machine's do; `slt` and `sle` are
-- the signed tests, and `sdiv` the quotient rounded to zero of a signed value by a positive constant.
use true_now.Base.Tests.{ltb, leb, if◌then◌else◌}
use Prim.Native.Nat.{ℕ, ◌+◌, ◌-◌, ◌*◌, ◌/◌, ◌%◌, ◌^◌}
use mathlib.Core.Bool.{Bool}

abbrev pub Word : Type 0
Word = ℕ

abbrev pub add64 : Word → Word → Word
add64 a b = (a + b) % 2 ^ 64

abbrev pub sub64 : Word → Word → Word
sub64 a b = (a + 2 ^ 64 - b) % 2 ^ 64

abbrev pub mul64 : Word → Word → Word
mul64 a b = (a * b) % 2 ^ 64

abbrev pub slt : Word → Word → Bool
slt a b = ltb ((a + 2 ^ 63) % 2 ^ 64) ((b + 2 ^ 63) % 2 ^ 64)

abbrev pub sle : Word → Word → Bool
sle a b = leb ((a + 2 ^ 63) % 2 ^ 64) ((b + 2 ^ 63) % 2 ^ 64)

abbrev pub sdiv : Word → ℕ → Word
sdiv a c = if ltb a (2 ^ 63) then a / c else (2 ^ 64 - (2 ^ 64 - a) / c) % 2 ^ 64

-- The largest `int64`, and the least.
abbrev pub max_int64 : Word
max_int64 = 2 ^ 63 - 1

abbrev pub min_int64 : Word
min_int64 = 2 ^ 63

-- `t.Sub(u)` on times given by their nanoseconds: the difference, held at the ends of `int64`.
abbrev pub time_sub : Word → Word → Word
time_sub a b =
    if slt b a
    then (if slt (sub64 a b) 0 then max_int64 else sub64 a b)
    else (if slt 0 (sub64 a b) then min_int64 else sub64 a b)

-- A second, in the nanoseconds of a `time.Duration`.
abbrev pub second : Word
second = 1_000_000_000

-- The same for `int32`, whose patterns are below 2 ^ 32, and its conversion to `uint64`.
abbrev pub add32 : ℕ → ℕ → ℕ
add32 a b = (a + b) % 2 ^ 32

abbrev pub slt32 : ℕ → ℕ → Bool
slt32 a b = ltb ((a + 2 ^ 31) % 2 ^ 32) ((b + 2 ^ 31) % 2 ^ 32)

abbrev pub extend32 : ℕ → Word
extend32 a = if ltb a (2 ^ 31) then a else a + 2 ^ 64 - 2 ^ 32
