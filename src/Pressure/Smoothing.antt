-- ===== src/Pressure/Smoothing.antt =====
-- The level that the smoothing takes from a history.
use true_now.Base.{
  ℕ, zero, suc, ◌+◌, ◌≤◌, ◌<◌, ◌≡◌, ◌≢◌, refl, sym, ap, ◌∙◌, true, false, Option, none, some, List,
  [], ◌∷◌, if◌then◌else◌, ltb, eqb, eqb_iff, nat_eq, length, replicate, arith, Bool-cases,
  Option-cases, inl, inr, ◌⊎◌,
}
use true_now.Base.Map.{Map, lookup, insert, contains, lookup-insert}
use true_now.Base.Keys.{HasUniqueKeys, insert-HasUniqueKeys, contains-lookup}
use true_now.Pressure.Config.{BackpressureLevel, level_none}
use true_now.Pressure.{count_levels, find_most, get_smoothed_level}

-- How often a level occurs in a history.
pub occurrences : BackpressureLevel → List BackpressureLevel → ℕ
occurrences level [] = 0
occurrences level (l ∷ history) =
    let rest = occurrences level history in if eqb l level then suc rest else rest

value_or_zero : Option ℕ → ℕ
value_or_zero none = 0
value_or_zero (some n) = n

count_levels_lem :
    (level : BackpressureLevel) (history : List BackpressureLevel)
    (counts : Map BackpressureLevel ℕ)
    → value_or_zero (lookup level (count_levels history counts))
      ≡ value_or_zero (lookup level counts) + occurrences level history
unfolding count_levels occurrences value_or_zero
count_levels_lem level [] counts = omega arith
count_levels_lem level (l ∷ history) counts =
    let n : ℕ = elim (lookup l counts) [ none ↦ 1 | some n ↦ suc n ] in
    count_levels_lem level history (insert l n counts) ∙ elim (Bool-cases (eqb l level)) [
      | inr f ↦ rw (lookup-insert, f) refl
      | inl t ↦
          let same = (eqb_iff l level).0 t in
          elim (Option-cases (lookup level counts)) [
            | inl absent ↦ rw (lookup-insert, t, same, absent) (omega arith)
            | inr (m, present) ↦ rw (lookup-insert, t, same, present) (omega arith)
          ]
    ]

count_levels-HasUniqueKeys :
    (history : List BackpressureLevel) (counts : Map BackpressureLevel ℕ)
    → HasUniqueKeys counts
    → HasUniqueKeys (count_levels history counts)
unfolding count_levels
count_levels-HasUniqueKeys [] counts unique = unique
count_levels-HasUniqueKeys (l ∷ history) counts unique =
    count_levels-HasUniqueKeys history
      (insert l (elim (lookup l counts) [ none ↦ 1 | some n ↦ suc n ]) counts)
      (insert-HasUniqueKeys l (elim (lookup l counts) [ none ↦ 1 | some n ↦ suc n ]) counts unique)

find_most-bound :
    (level : BackpressureLevel) (counts : Map BackpressureLevel ℕ) (most : ℕ)
    (best : BackpressureLevel)
    → let (found, n) = find_most counts most best in
      (most ≤ n) × (value_or_zero (lookup level counts) ≤ n)
unfolding find_most value_or_zero lookup
find_most-bound level [] most best = (omega arith, omega arith)
find_most-bound level ((l, count) ∷ counts) most best =
    let better = ltb most count in
    let (above, most_of) =
      find_most-bound level counts (if better then count else most) (if better then l else best) in
    (ground (arith, above), ground (arith, most_of))

lookup_head :
    (l : BackpressureLevel) (count : ℕ) (counts : Map BackpressureLevel ℕ)
    → lookup l ((l, count) ∷ counts) ≡ some count
unfolding lookup
lookup_head l count counts = ground arith

lookup_tail :
    (l k : BackpressureLevel) (count n : ℕ) (counts : Map BackpressureLevel ℕ)
    → contains l counts ≡ false
    → lookup k counts ≡ some n
    → lookup k ((l, count) ∷ counts) ≡ some n
unfolding lookup
lookup_tail l k count n counts fresh found = elim (Bool-cases (eqb l k)) [
  | inr f ↦ rw f found
  | inl t ↦
      let there : contains k counts ≡ true = contains-lookup k counts ∙ rw found refl in
      absurd (ground (arith, (eqb_iff l k).0 t, there, fresh))
]

find_most-lookup :
    (counts : Map BackpressureLevel ℕ) (most : ℕ) (best : BackpressureLevel)
    → HasUniqueKeys counts
    → let (found, n) = find_most counts most best in
      ((found ≡ best) × (n ≡ most)) ⊎ (lookup found counts ≡ some n)
unfolding find_most
find_most-lookup [] most best unique = inl (refl, refl)
find_most-lookup ((l, count) ∷ counts) most best unique = elim (Bool-cases (ltb most count)) [
  | inl t ↦
      rw (find_most, t)
        (elim (find_most-lookup counts count l unique.1) [
          | inl (same, n) ↦ inr (rw (same, n) (lookup_head l count counts))
          | inr found ↦ inr (lookup_tail l _ count _ counts unique.0 found)
        ])
  | inr f ↦
      rw (find_most, f)
        (elim (find_most-lookup counts most best unique.1) [
          | inl kept ↦ inl kept
          | inr found ↦ inr (lookup_tail l _ count _ counts unique.0 found)
        ])
]

occurs_first :
    (l : BackpressureLevel) (history : List BackpressureLevel) → 0 < occurrences l (l ∷ history)
unfolding occurrences
occurs_first l history = ground arith

counted_lem :
    (level : BackpressureLevel) (history : List BackpressureLevel)
    → value_or_zero (lookup level (count_levels history [])) ≡ occurrences level history
unfolding lookup value_or_zero
counted_lem level history = omega (arith, count_levels_lem level history [])

most_occurrences :
    (level l : BackpressureLevel) (history : List BackpressureLevel)
    → let found = (find_most (count_levels (l ∷ history) []) 0 level_none).0 in
      (0 < occurrences found (l ∷ history))
      × (occurrences level (l ∷ history) ≤ occurrences found (l ∷ history))
unfolding value_or_zero
most_occurrences level l history =
    let h = l ∷ history in
    let counts = count_levels h [] in
    let n = (find_most counts 0 level_none).1 in
    let found = (find_most counts 0 level_none).0 in
    let here = (find_most-bound l counts 0 level_none).1 in
    let there = (find_most-bound level counts 0 level_none).1 in
    let first = occurs_first l history in
    elim (find_most-lookup counts 0 level_none (count_levels-HasUniqueKeys h [] tt)) [
      | inl (same, nothing) ↦ absurd (omega (arith, here, counted_lem l h, nothing, first))
      | inr listed ↦
          let all : n ≡ occurrences found h = ap value_or_zero (sym listed) ∙ counted_lem found h in
          (
            omega (arith, here, counted_lem l h, first, all),
            omega (arith, there, counted_lem level h, all),
          )
    ]

-- The smoothed level of a history that is not empty occurs in it, and no level occurs more often.
pub get_smoothed_level-occurrences :
    (level : BackpressureLevel) (history : List BackpressureLevel)
    → length history ≢ 0
    → let smoothed = get_smoothed_level history in
      (0 < occurrences smoothed history)
      × (occurrences level history ≤ occurrences smoothed history)
unfolding get_smoothed_level
get_smoothed_level-occurrences level [] filled = absurd (filled refl)
get_smoothed_level-occurrences level (l ∷ history) filled =
    let opened : get_smoothed_level (l ∷ history)
        ≡ (find_most (count_levels (l ∷ history) []) 0 level_none).0 =
      ground (arith, filled) in
    rw opened (most_occurrences level l history)

pub occurrences-replicate :
    (l level : BackpressureLevel) (k : ℕ) → 0 < occurrences l (replicate k level) → l ≡ level
unfolding occurrences
occurrences-replicate l level zero h = absurd (omega (arith, h))
occurrences-replicate l level (suc k) h = elim (Bool-cases (eqb level l)) [
  | inl t ↦ sym ((eqb_iff level l).0 t)
  | inr f ↦ occurrences-replicate l level k (rw (occurrences, f) at h)
]
