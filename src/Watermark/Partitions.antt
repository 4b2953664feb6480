-- ===== src/Watermark/Partitions.antt =====
-- The walks over the partitions.
use true_now.Base.{
  ℕ, suc, ◌+◌, ◌-◌, ◌%◌, ◌^◌, subst, ◌≡◌, refl, true, not, ◌||◌, ◌&&◌, none, some, [], ◌∷◌, arith,
  if◌then◌else◌, nat_eq, ◌==◌, All, length, Bool-cases, inl, inr,
}
use true_now.Base.Word.{Word, slt, sle, add32}
use true_now.Base.Map.{Map, lookup, insert}
use true_now.Watermark.{PartitionWatermark, least_low, is_stale, remove_stale}

-- What holds of all entries holds of one that is found, and still holds with a new one.
module _ (P : PartitionWatermark → Type 0) where
  pub All-lookup :
      (id : ℕ) (pw : PartitionWatermark) (m : Map ℕ PartitionWatermark)
      → All (λ entry. P entry.1) m
      → lookup id m ≡ some pw
      → P pw
  unfolding lookup
  All-lookup id pw [] h found = absurd (cc found)
  All-lookup id pw ((k, w) ∷ m) h found = elim (Bool-cases (k == id)) [
    | inl t ↦ subst P (cc (rw t at found)) (h.0)
    | inr f ↦ All-lookup id pw m h.1 (rw f at found)
  ]

  pub All-insert :
      (id : ℕ) (pw : PartitionWatermark) (m : Map ℕ PartitionWatermark)
      → P pw
      → All (λ entry. P entry.1) m
      → All (λ entry. P entry.1) (insert id pw m)
  unfolding insert
  All-insert id pw [] p h = (p, tt)
  All-insert id pw ((k, w) ∷ m) p h = elim (Bool-cases (k == id)) [
    | inl t ↦ rw t (p, h.1)
    | inr f ↦ rw f (h.0, All-insert id pw m p h.1)
  ]

  pub All-remove_stale :
      (now : Word) (m : Map ℕ PartitionWatermark) (count : ℕ)
      → All (λ entry. P entry.1) m
      → All (λ entry. P entry.1) (remove_stale now m count).0
  unfolding remove_stale
  All-remove_stale now [] count h = tt
  All-remove_stale now ((id, pw) ∷ m) count h = elim (Bool-cases (is_stale now pw)) [
    | inl t ↦ rw t (All-remove_stale now m (add32 count (2 ^ 32 - 1)) h.1)
    | inr f ↦ rw f (h.0, All-remove_stale now m count h.1)
  ]

-- If the count is that of the partitions to come and of `kept` ones, it is so after the walk.
pub length-remove_stale :
    (now : Word) (m : Map ℕ PartitionWatermark) (count kept : ℕ)
    → (length m + kept) % 2 ^ 32 ≡ count
    → (length (remove_stale now m count).0 + kept) % 2 ^ 32 ≡ (remove_stale now m count).1
unfolding remove_stale
length-remove_stale now [] count kept h = h
length-remove_stale now ((id, pw) ∷ m) count kept h = elim (Bool-cases (is_stale now pw)) [
  | inl t ↦ rw t (length-remove_stale now m (add32 count (2 ^ 32 - 1)) kept (omega (arith, h)))
  | inr f ↦ rw f (omega (arith, length-remove_stale now m count (suc kept) (omega (arith, h))))
]

pub length-insert-new :
    (id : ℕ) (pw : PartitionWatermark) (m : Map ℕ PartitionWatermark)
    → lookup id m ≡ none
    → length (insert id pw m) ≡ suc (length m)
unfolding lookup insert
length-insert-new id pw [] h = refl
length-insert-new id pw ((k, w) ∷ m) h = ground (arith, length-insert-new id pw m)

pub length-insert-old :
    (id : ℕ) (pw w : PartitionWatermark) (m : Map ℕ PartitionWatermark)
    → lookup id m ≡ some w
    → length (insert id pw m) ≡ length m
unfolding lookup insert
length-insert-old id pw w [] h = absurd (cc h)
length-insert-old id pw w ((k, v) ∷ m) h = ground (arith, length-insert-old id pw w m)

-- One step of the walk.
step_bound :
    (r low least : Word)
    → sle r (if slt 0 low && slt low least then low else least) ≡ true
    → (sle r least ≡ true) × ((not (slt 0 low) || sle r low) ≡ true)
step_bound r low least h = ground arith

-- The walk's result is at most its start and at most each positive low watermark.
pub least_low_bound :
    (least : Word) (m : Map ℕ PartitionWatermark)
    → (sle (least_low least m) least ≡ true)
      × All
          (λ entry.
            (not (slt 0 entry.1.low_watermark) || sle (least_low least m) entry.1.low_watermark)
            ≡ true)
          m
unfolding least_low
least_low_bound least [] = (ground arith, tt)
least_low_bound least ((id, pw) ∷ m) =
    let next =
      if slt 0 pw.low_watermark && slt pw.low_watermark least then pw.low_watermark else least in
    let rest = least_low_bound next m in
    let head = step_bound (least_low next m) pw.low_watermark least rest.0 in
    (head.0, (head.1, rest.1))
