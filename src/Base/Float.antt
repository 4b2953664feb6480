-- ===== src/Base/Float.antt =====
-- `float64` is the machine's: a parameter of the model, with the operations that the source uses.
-- No law is assumed here; a theorem that needs one has it as a hypothesis.
use Prim.Native.Nat.{ℕ, ◌+◌, ◌-◌, ◌*◌, ◌/◌}
use true_now.Base.Tests.{ltb, leb, eqb}
use mathlib.Core.Bool.{Bool}
use true_now.Base.Word.{Word}

pub record Float64 : Type 1 where
  pub F : Type 0
  -- `float64(n)` and `int64(f)`, on bit patterns
  pub of_int64 : Word → F
  pub to_int64 : F → Word
  -- `float64(n)` and `uint64(f)` of an unsigned word
  pub of_uint64 : Word → F
  pub to_uint64 : F → Word
  -- The literal `n / d`, rounded.
  pub lit : ℕ → ℕ → F
  pub add : F → F → F
  pub sub : F → F → F
  pub mul : F → F → F
  pub div : F → F → F
  pub ceil : F → F
  pub lt : F → F → Bool
  pub le : F → F → Bool
  pub eq : F → F → Bool

-- Whole numbers in the place of `float64`, for tests: exact, and with literals rounded down.
abbrev pub whole_float : Float64
whole_float = record {
  F = ℕ;
  of_int64 = λ n. n;
  to_int64 = λ n. n;
  of_uint64 = λ n. n;
  to_uint64 = λ n. n;
  lit = λ n d. n / d;
  add = λ a b. a + b;
  sub = λ a b. a - b;
  mul = λ a b. a * b;
  div = λ a b. a / b;
  ceil = λ a. a;
  lt = ltb;
  le = leb;
  eq = eqb;
}
