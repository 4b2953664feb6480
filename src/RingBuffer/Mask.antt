-- ===== src/RingBuffer/Mask.antt =====
-- The mask of a power of two takes the remainder.
use true_now.Base.{
  ℕ, zero, suc, ◌+◌, ◌-◌, ◌*◌, ◌/◌, ◌%◌, ◌^◌, ◌≤◌, ◌<◌, ◌≡◌, ◌≢◌, ◌⊎◌, inl, inr, sym, ap, ◌∙◌,
  arith, min,
}
use Prim.Native.Nat.{bit_and, digits, bit_and-bitwise}
use native.Mathlib.Nat.{
  pow-succ', mod-lt, div-add-mod, mod-eq_of_lt, mul-le-mul_left, mul-add-mod_self_left, mul_assoc,
  zero-mod, mod-one,
}

pub pow_pos : (k : ℕ) → 1 ≤ 2 ^ k
pow_pos zero = omega arith
pow_pos (suc k) = omega (arith, pow_pos k, pow-succ' 2 k)

-- The remainder of a number by twice another.
mod_double : (a p : ℕ) → 1 ≤ p → a % (2 * p) ≡ 2 * ((a / 2) % p) + a % 2
mod_double a p pos =
    let q = a / 2 / p in
    let r = 2 * ((a / 2) % p) + a % 2 in
    let small : r < 2 * p = omega (arith, mod-lt (a / 2) pos) in
    let parts : a ≡ 2 * p * q + r =
      omega (arith, div-add-mod a 2, div-add-mod (a / 2) p, mul_assoc 2 p q) in
    ap (λ x. x % (2 * p)) parts ∙ mul-add-mod_self_left (2 * p) q r ∙ mod-eq_of_lt small

digits_mask : (fuel k a : ℕ) → a ≤ fuel → digits (λ b. zero) min fuel a (2 ^ k - 1) ≡ a % 2 ^ k
digits_mask zero k zero h = sym (zero-mod (2 ^ k))
digits_mask zero k (suc a) h = absurd (omega (arith, h))
digits_mask (suc fuel) k zero h = sym (zero-mod (2 ^ k))
digits_mask (suc fuel) zero (suc a) h = omega (
  arith,
  digits_mask fuel zero (suc a / 2) (omega (arith, h)),
  mod-one (suc a / 2),
  mod-one (suc a),
)
digits_mask (suc fuel) (suc k) (suc a) h =
    let double : 2 ^ suc k ≡ 2 * 2 ^ k = pow-succ' 2 k in
    let half : (2 ^ suc k - 1) / 2 ≡ 2 ^ k - 1 = omega (arith, double, pow_pos k) in
    let odd : (2 ^ suc k - 1) % 2 ≡ 1 = omega (arith, double, pow_pos k) in
    let rest = digits_mask fuel k (suc a / 2) (omega (arith, h)) in
    rw (half, odd, rest, double) (omega (arith, mod_double (suc a) (2 ^ k) (pow_pos k)))

pub bit_and_mask : (a k : ℕ) → bit_and a (2 ^ k - 1) ≡ a % 2 ^ k
bit_and_mask a k = bit_and-bitwise a (2 ^ k - 1) ∙ digits_mask a k a (omega arith)

le_or_lt : (a b : ℕ) → (a ≤ b) ⊎ (suc b ≤ a)
le_or_lt a b = ground arith

mul_succ : (c q : ℕ) → c * suc q ≡ c * q + c
mul_succ c q = omega arith

-- Positions less than a size apart have different remainders.
pub mod_apart : (c p n : ℕ) → 1 ≤ c → p < n → n < p + c → p % c ≢ n % c
mod_apart c p n pos before near same =
    let apart = div-add-mod p c in
    let behind = div-add-mod n c in
    elim (le_or_lt (n / c) (p / c)) [
      | inl less ↦ omega (arith, apart, behind, same, before, mul-le-mul_left c less)
      | inr more ↦
          omega (arith, apart, behind, same, near, mul-le-mul_left c more, mul_succ c (p / c))
    ]
