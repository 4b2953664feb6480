-- ===== src/Base/Search.antt =====
-- `sort.Search(n, f)` of Go's library: the binary search for the least index at which `f` is true.
use true_now.Base.Tests.{if◌then◌else◌, ltb, Bool-cases}
use Prim.Native.Nat.{ℕ, zero, suc, ◌+◌, ◌-◌, ◌/◌, ◌≤◌, ◌<◌}
use mathlib.Core.Bool.{Bool, true, false}
use mathlib.Core.Path.{◌≡◌}
use mathlib.Core.Logic.{inl, inr}
use native.Mathlib.Omega.{arith}

-- The loop on the range from `i` to `j`; each round halves it, so that its length is fuel enough.
unfoldable pub search_loop : ℕ → (ℕ → Bool) → ℕ → ℕ → ℕ
search_loop zero f i j = i
search_loop (suc fuel) f i j =
    let h = (i + j) / 2 in
    let left = search_loop fuel f i h in
    let right = search_loop fuel f (h + 1) j in if ltb i j then (if f h then left else right) else i

unfoldable pub search : ℕ → (ℕ → Bool) → ℕ
search n f = search_loop n f 0 n

-- `r` splits the indexes below `n` into those where `f` is false and those where it is true.
abbrev pub Splits : (ℕ → Bool) → ℕ → ℕ → Type 0
Splits f n r = (r ≤ n) × ((i : ℕ) → i < r → f i ≡ false) × ((i : ℕ) → r ≤ i → i < n → f i ≡ true)

module _ (f : ℕ → Bool) (n : ℕ) (rises : (i j : ℕ) → i ≤ j → j < n → f i ≡ true → f j ≡ true) where
  search_loop-Splits :
      (fuel i j : ℕ)
      → j - i ≤ fuel
      → i ≤ j
      → j ≤ n
      → ((k : ℕ) → k < i → f k ≡ false)
      → ((k : ℕ) → j ≤ k → k < n → f k ≡ true)
      → Splits f n (search_loop fuel f i j)
  unfolding search_loop
  search_loop-Splits zero i j few ord top low high =
      (omega arith, low, λ k a b. high k (omega arith) b)
  search_loop-Splits (suc fuel) i j few ord top low high = elim (Bool-cases (ltb i j)) [
    | inr done ↦ rw done (ground arith, low, λ k a b. high k (ground arith) b)
    | inl more ↦
        let h = (i + j) / 2 in
        elim (Bool-cases (f h)) [
          | inl t ↦
              rw (more, t)
                (search_loop-Splits fuel i h (ground arith) (ground arith) (ground arith) low
                  (λ k a b. rises h k a b t))
          | inr e ↦
              rw (more, e)
                (search_loop-Splits fuel (h + 1) j (ground arith) (ground arith) top
                  (λ k a. elim (Bool-cases (f k)) [
                    | inr x ↦ x
                    | inl x ↦ absurd (cc (e, rises k h (omega arith) (ground arith) x))
                  ])
                  high)
        ]
  ]

  pub search-Splits : Splits f n (search n f)
  unfolding search
  search-Splits =
      search_loop-Splits n 0 n (omega arith) (omega arith) (omega arith)
        (λ k a. absurd (omega arith)) (λ k a b. absurd (omega arith))
