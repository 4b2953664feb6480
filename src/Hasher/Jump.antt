-- ===== src/Hasher/Jump.antt =====
-- `JumpHash`. Its loop runs on fuel, none when that is spent; the number of buckets is one that
-- an `int32` holds.
use true_now.Base.{
  ℕ, zero, suc, ◌+◌, ◌-◌, ◌*◌, ◌/◌, ◌%◌, ◌^◌, ◌≤◌, ◌<◌, true, Option, none, some, ◌≡◌, refl,
  if◌then◌else◌, arith, inl, inr, Bool-cases,
}
use true_now.Base.Word.{Word, slt}
use true_now.Base.Float.{Float64}

module _ (fl : Float64) where
  open fl use {of_int64, of_uint64, to_int64, mul, div}

  next_key : Word → Word
  next_key key = (key * 2_862_933_555_777_941_757 + 1) % 2 ^ 64

  -- The bucket to jump to from `b`, for the key that comes next.
  next_bucket : Word → ℕ → Word
  next_bucket key b =
      to_int64 (div (mul (of_int64 (b + 1)) (of_int64 (2 ^ 31))) (of_uint64 (key / 2 ^ 33 + 1)))

  unfoldable pub jump_from : ℕ → Word → Word → Word → ℕ → Option ℕ
  unfolding next_key next_bucket
  jump_from zero key b j num_buckets = none
  jump_from (suc fuel) key b j num_buckets =
      let rest = jump_from fuel (next_key key) j (next_bucket (next_key key) j) num_buckets in
      if slt j num_buckets then rest else some (b % 2 ^ 32)

  -- The first bucket is -1.
  unfoldable pub jump_hash : Word → ℕ → Option ℕ
  unfolding jump_from
  jump_hash key num_buckets = jump_from (suc num_buckets) key (2 ^ 64 - 1) 0 num_buckets

  module _
      (law : (n k : ℕ)
        → n ≤ 2 ^ 31
        → 1 ≤ k
        → k ≤ 2 ^ 31
        → (n ≤ to_int64 (div (mul (of_int64 n) (of_int64 (2 ^ 31))) (of_uint64 k)))
          × (to_int64 (div (mul (of_int64 n) (of_int64 (2 ^ 31))) (of_uint64 k)) < 2 ^ 63)) where
    next_key_lem : (key : Word) → next_key key < 2 ^ 64
    unfolding next_key
    next_key_lem key = omega arith

    next_bucket_lem :
        (key : Word) (b : ℕ)
        → key < 2 ^ 64
        → b < 2 ^ 31
        → (b < next_bucket key b) × (next_bucket key b < 2 ^ 63)
    unfolding next_bucket
    next_bucket_lem key b bound below =
        let (up, small) =
          law (b + 1) (key / 2 ^ 33 + 1) (omega (arith, below)) (omega arith)
            (omega (arith, bound)) in
        (omega (arith, up), small)

    -- While the bucket is in range the next is beyond it, so that the fuel lasts.
    jump_from_lem :
        (fuel : ℕ) (key b j : Word) (n : ℕ)
        → n < 2 ^ 31
        → b < n
        → j < 2 ^ 63
        → n < fuel + j
        → 1 ≤ fuel
        → (r : ℕ) × (jump_from fuel key b j n ≡ some r) × (r < n)
    unfolding jump_from
    jump_from_lem zero key b j n small below room enough some_fuel =
        absurd (omega (arith, some_fuel))
    jump_from_lem (suc fuel) key b j n small below room enough some_fuel =
        elim (Bool-cases (slt j n)) [
          | inl more ↦
              let inside : j < n = ground (arith, more, small, room) in
              let (up, fits) =
                next_bucket_lem (next_key key) j (next_key_lem key)
                  (omega (arith, inside, small)) in
              rw more (
                jump_from_lem fuel (next_key key) j (next_bucket (next_key key) j) n small inside
                  fits (omega (arith, enough, up)) (omega (arith, enough, inside)))
          | inr done ↦ (b % 2 ^ 32, rw done refl, omega (arith, below, small))
        ]

    -- If the float64 quotient of n times 2 ^ 31 by k, for n and k up to 2 ^ 31 and k at least 1, is at
    -- least n and below 2 ^ 63 as an int64, then for any key and at least one and fewer than 2 ^ 31
    -- buckets `JumpHash` ends, with no more steps than one more than there are buckets, and gives one
    -- of them.
    pub jump_hash_ends :
        (key : Word) (n : ℕ) → 1 ≤ n → n < 2 ^ 31 → (r : ℕ) × (jump_hash key n ≡ some r) × (r < n)
    unfolding jump_hash jump_from
    jump_hash_ends key n some_bucket small =
        let (up, fits) = next_bucket_lem (next_key key) 0 (next_key_lem key) (omega arith) in
        let first : slt 0 n ≡ true = ground (arith, some_bucket, small) in
        rw first (
          jump_from_lem n (next_key key) 0 (next_bucket (next_key key) 0) n small some_bucket fits
            (omega (arith, up)) some_bucket)
