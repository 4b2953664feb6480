-- ===== src/RingBuffer/Reads.antt =====
-- Writes one after another, and what is read then.
use true_now.Base.{
  ℕ, zero, suc, ◌+◌, ◌-◌, ◌^◌, ◌≤◌, ◌<◌, ◌≡◌, refl, sym, ap, subst, ◌∙◌, arith, false, Option, none,
  some, List, [], ◌∷◌, ltb, leb, length, get_elem?, get_or, replicate,
}
use Prim.Native.Nat.{bit_and}
use native.Mathlib.Nat.{mod_self}
use true_now.Base.Word.{Word, add64, sub64}
use true_now.Base.Float.{Float64}
use true_now.RingBuffer.Mask.{pow_pos, bit_and_mask}
use true_now.RingBuffer.{Slot, RingBuffer, new_ring_buffer, empty_slot, read, round_capacity, write}
use true_now.RingBuffer.Writes.{Entry, Holds, IsRing, step-IsRing, at_remainder}

replicate_lem {ℓ} : {A : Type ℓ} (c j : ℕ) (a : A) → j < c → get_elem? (replicate c a) j ≡ some a
replicate_lem zero j a h = absurd (omega (arith, h))
replicate_lem (suc c) zero a h = refl
replicate_lem (suc c) (suc j) a h = replicate_lem c j a (omega (arith, h))

length-replicate {ℓ} : {A : Type ℓ} (c : ℕ) (a : A) → length (replicate c a) ≡ c
length-replicate zero a = refl
length-replicate (suc c) a = ap suc (length-replicate c a)

get_or-some {ℓ} :
    {A : Type ℓ} (xs : List A) (i : ℕ) (a d : A) → get_elem? xs i ≡ some a → get_or xs i d ≡ a
get_or-some [] i a d h = absurd (cc h)
get_or-some (x ∷ xs) zero a d h = cc h
get_or-some (x ∷ xs) (suc i) a d h = get_or-some xs i a d h

get_elem?-lt {ℓ} :
    {A : Type ℓ} (xs : List A) (i : ℕ) (a : A) → get_elem? xs i ≡ some a → i < length xs
get_elem?-lt [] i a h = absurd (cc h)
get_elem?-lt (x ∷ xs) zero a h = omega arith
get_elem?-lt (x ∷ xs) (suc i) a h = omega (arith, get_elem?-lt xs i a h)

get_or_lem {ℓ} :
    {A : Type ℓ} (xs : List A) (i : ℕ) (d : A)
    → i < length xs
    → get_elem? xs i ≡ some (get_or xs i d)
get_or_lem [] i d h = absurd (omega (arith, h))
get_or_lem (x ∷ xs) zero d h = refl
get_or_lem (x ∷ xs) (suc i) d h = get_or_lem xs i d (omega (arith, h))

zero_add : (n : ℕ) → n ≡ 0 + n
zero_add n = omega arith

add_zero : (n : ℕ) → n + 0 ≡ n
add_zero n = omega arith

add_suc : (n i : ℕ) → n + suc i ≡ suc n + i
add_suc n i = omega arith

module _ (fl : Float64) (k : ℕ) (small : 2 ^ k ≤ 2 ^ 63) where
  open fl use {F, lit}

  -- A power of two is its own capacity.
  round_capacity_lem : round_capacity (2 ^ k) ≡ 2 ^ k
  unfolding round_capacity
  round_capacity_lem =
      let mask : sub64 (2 ^ k) 1 ≡ 2 ^ k - 1 = omega (arith, small, pow_pos k) in
      let even : bit_and (2 ^ k) (sub64 (2 ^ k) 1) ≡ 0 =
        ap (bit_and (2 ^ k)) mask ∙ bit_and_mask (2 ^ k) k ∙ mod_self (2 ^ k) in
      rw even refl

  new_ring_buffer-IsRing :
      (slot_size : Word) (log : ℕ → Entry F)
      → IsRing fl k small log 0 (new_ring_buffer (2 ^ k) slot_size)
  unfolding new_ring_buffer
  new_ring_buffer-IsRing slot_size log =
      let c = round_capacity (2 ^ k) in
      let size : c ≡ 2 ^ k = round_capacity_lem in
      record {
        capacity = size;
        mask = omega (arith, size, small, pow_pos k);
        size = length-replicate c empty_slot ∙ size;
        head = refl;
        tail = omega arith;
        written = λ p before near. absurd (omega (arith, before));
        fresh = λ j later room.
            (empty_slot, replicate_lem c j empty_slot (omega (arith, room, size)), refl);
      }

  abbrev pub write_all : List (Entry F) → RingBuffer F → Option (RingBuffer F)
  write_all [] rb = some rb
  write_all (e ∷ es) rb = elim (write fl (e.0) (e.1) (e.2) rb) [
    | none ↦ none
    | some rb' ↦ write_all es rb'
  ]

  write_all-IsRing :
      (log : ℕ → Entry F) (es : List (Entry F)) (n : ℕ) (rb : RingBuffer F)
      → ((i : ℕ) → i < length es → get_elem? es i ≡ some (log (n + i)))
      → n + length es < 2 ^ 64
      → IsRing fl k small log n rb
      → (rb' : RingBuffer F) × (write_all es rb ≡ some rb')
        × IsRing fl k small log (n + length es) rb'
  write_all-IsRing log [] n rb logged bound v =
      (rb, refl, subst (λ x. IsRing fl k small log x rb) (sym (add_zero n)) v)
  write_all-IsRing log (e ∷ es) n rb logged bound v =
      let first : e ≡ log n = cc (logged 0 (omega arith), ap log (add_zero n)) in
      let (rb', done, v') = step-IsRing fl k small log n rb v (omega (arith, bound)) in
      let (rb'', rest, v'') =
        write_all-IsRing log es (suc n) rb'
          (λ i inside.
            logged (suc i) (omega (arith, inside)) ∙ ap (λ x. some (log x)) (add_suc n i))
          (omega (arith, bound)) v' in
      let done' : write fl (e.0) (e.1) (e.2) rb ≡ some rb' =
        subst (λ x. write fl (x.0) (x.1) (x.2) rb ≡ some rb') (sym first) done in
      (
        rb'',
        ap (λ o. elim o as (λ x. Option (RingBuffer F)) [ none ↦ none | some r ↦ write_all es r ])
              done'
            ∙ rest,
        subst (λ x. IsRing fl k small log x rb'') (sym (add_suc n (length es))) v'',
      )

  -- What reading a position gives.
  read_written :
      (log : ℕ → Entry F) (n p : ℕ) (rb : RingBuffer F)
      → IsRing fl k small log n rb
      → p < n
      → n ≤ p + 2 ^ k
      → (s : Slot F) × (read p rb ≡ some (record rb { reads = add64 rb.reads 1 }, some s))
        × Holds s (log p)
  unfolding read
  read_written log n p rb v before near =
      let (s, found, holds) = v.written p before near in
      let here = at_remainder fl k small log n rb v p ∙ found in
      let low : ltb p rb.tail ≡ false = ground (arith, v.tail, near) in
      let high : leb rb.head p ≡ false = ground (arith, v.head, before) in
      (s, rw (low, high, here) refl, holds)

  -- After any writes, less than 2 ^ 64, to a new buffer of 2 ^ `k` slots, none of which panics, each of
  -- the last 2 ^ `k` of them is read at its position, with its timestamp and its group alone.
  pub read-write_all :
      (slot_size : Word) (es : List (Entry F)) (p : ℕ) (e : Entry F)
      → length es < 2 ^ 64
      → get_elem? es p ≡ some e
      → length es ≤ p + 2 ^ k
      → (rb : RingBuffer F) × (s : Slot F) × (write_all es (new_ring_buffer (2 ^ k) slot_size)
          ≡ some rb)
        × (read p rb ≡ some (record rb { reads = add64 rb.reads 1 }, some s))
        × Holds s e
  read-write_all slot_size es p e bound found near =
      let log : ℕ → Entry F = λ i. get_or es i e in
      let (rb, done, v) =
        write_all-IsRing log es 0 (new_ring_buffer (2 ^ k) slot_size)
          (λ i inside. get_or_lem es i e inside ∙ ap (λ x. some (get_or es x e)) (zero_add i))
          (omega (arith, bound)) (new_ring_buffer-IsRing slot_size log) in
      let v' = subst (λ x. IsRing fl k small log x rb) (sym (zero_add (length es))) v in
      let (s, seen, holds) =
        read_written log (length es) p rb v' (get_elem?-lt es p e found) near in
      (rb, s, done, seen, subst (Holds s) (get_or-some es p e e found) holds)
