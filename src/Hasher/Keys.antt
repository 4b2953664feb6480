-- ===== src/Hasher/Keys.antt =====
-- Sorted hashes: what sorting keeps, and which hash a search finds.
use true_now.Base.{
  ℕ, zero, suc, ◌+◌, ◌-◌, ◌%◌, ◌^◌, ◌≤◌, ◌<◌, ◌≡◌, refl, Bool, true, false, ◌||◌, List, [], ◌∷◌,
  arith, ltb, leb, eqb, length, get_or, All, All-map, Bool-cases, inl, inr,
}
use true_now.Base.Sort.{sort, insert_sorted}
use true_now.Base.Search.{search, search-Splits}
use true_now.Hasher.Ring.{find_key}

abbrev pub has : ℕ → List ℕ → Bool
has k [] = false
has k (x ∷ xs) = eqb x k || has k xs

abbrev pub IsSorted : List ℕ → Type 0
IsSorted [] = Unit
IsSorted (x ∷ xs) = All (λ y. x ≤ y) xs × IsSorted xs

module _ (P : ℕ → Type 0) where
  All-insert_sorted : (x : ℕ) (xs : List ℕ) → P x → All P xs → All P (insert_sorted ltb x xs)
  unfolding insert_sorted
  All-insert_sorted x [] p h = (p, tt)
  All-insert_sorted x (y ∷ ys) p h = elim (Bool-cases (ltb y x)) [
    | inl t ↦ rw t (h.0, All-insert_sorted x ys p h.1)
    | inr f ↦ rw f (p, h)
  ]

  pub All-sort : (xs : List ℕ) → All P xs → All P (sort ltb xs)
  unfolding sort
  All-sort [] h = tt
  All-sort (x ∷ xs) h = All-insert_sorted x (sort ltb xs) h.0 (All-sort xs h.1)

has-insert_sorted : (k x : ℕ) (xs : List ℕ) → has k (insert_sorted ltb x xs) ≡ (eqb x k || has k xs)
unfolding insert_sorted
has-insert_sorted k x [] = refl
has-insert_sorted k x (y ∷ ys) = ground (arith, has-insert_sorted k x ys)

pub has-sort : (k : ℕ) (xs : List ℕ) → has k (sort ltb xs) ≡ has k xs
unfolding sort
has-sort k [] = refl
has-sort k (x ∷ xs) = ground (arith, has-insert_sorted k x (sort ltb xs), has-sort k xs)

insert_sorted-IsSorted : (x : ℕ) (xs : List ℕ) → IsSorted xs → IsSorted (insert_sorted ltb x xs)
unfolding insert_sorted
insert_sorted-IsSorted x [] h = (tt, tt)
insert_sorted-IsSorted x (y ∷ ys) h = elim (Bool-cases (ltb y x)) [
  | inl t ↦
      rw t (All-insert_sorted (λ z. y ≤ z) x ys (ground arith) h.0, insert_sorted-IsSorted x ys h.1)
  | inr f ↦
      let first : x ≤ y = ground arith in
      rw f ((first, All-map (λ z. y ≤ z) (λ z. x ≤ z) ys (λ z p. omega arith) h.0), h)
]

pub sort-IsSorted : (xs : List ℕ) → IsSorted (sort ltb xs)
unfolding sort
sort-IsSorted [] = tt
sort-IsSorted (x ∷ xs) = insert_sorted-IsSorted x (sort ltb xs) (sort-IsSorted xs)

All-get_or : (P : ℕ → Type 0) (xs : List ℕ) (i : ℕ) → All P xs → i < length xs → P (get_or xs i 0)
All-get_or P [] i h l = absurd (omega arith)
All-get_or P (x ∷ xs) zero h l = h.0
All-get_or P (x ∷ xs) (suc i) h l = All-get_or P xs i h.1 (omega arith)

get_or_rises :
    (xs : List ℕ) (i j : ℕ) → IsSorted xs → i ≤ j → j < length xs → get_or xs i 0 ≤ get_or xs j 0
get_or_rises [] i j h o l = absurd (omega arith)
get_or_rises (x ∷ xs) zero zero h o l = omega arith
get_or_rises (x ∷ xs) zero (suc j) h o l = All-get_or (λ y. x ≤ y) xs j h.0 (omega arith)
get_or_rises (x ∷ xs) (suc i) zero h o l = absurd (omega arith)
get_or_rises (x ∷ xs) (suc i) (suc j) h o l = get_or_rises xs i j h.1 (omega arith) (omega arith)

has-index :
    (k : ℕ) (xs : List ℕ) → has k xs ≡ true → (i : ℕ) × (i < length xs) × (get_or xs i 0 ≡ k)
has-index k [] h = absurd (ground arith)
has-index k (x ∷ xs) h = elim (Bool-cases (eqb x k)) [
  | inl t ↦ (0, omega arith, ground arith)
  | inr f ↦ let (i, l, e) = has-index k xs (ground arith) in (suc i, omega arith, e)
]

has-get_or : (xs : List ℕ) (i : ℕ) → i < length xs → has (get_or xs i 0) xs ≡ true
has-get_or [] i l = absurd (omega arith)
has-get_or (x ∷ xs) zero l = ground arith
has-get_or (x ∷ xs) (suc i) l = ground (arith, has-get_or xs i)

-- The distance from one 32-bit hash to another, clockwise on the ring.
abbrev pub distance : ℕ → ℕ → ℕ
distance hash k = (k + 2 ^ 32 - hash) % 2 ^ 32

-- Of sorted hashes the search finds one of them, and none is at a smaller distance.
find_key-nearest :
    (hash : ℕ) (keys : List ℕ)
    → hash < 2 ^ 32
    → 0 < length keys
    → All (λ k. k < 2 ^ 32) keys
    → IsSorted keys
    → (i : ℕ) × (i < length keys)
      × (find_key hash keys ≡ get_or keys i 0)
      × ((k : ℕ) → has k keys ≡ true → distance hash (get_or keys i 0) ≤ distance hash k)
unfolding find_key
find_key-nearest hash keys small some_ bounded sorted =
    let f = λ (i : ℕ). leb hash (get_or keys i 0) in
    let r = search (length keys) f in
    let (inside, before, after) =
      search-Splits f (length keys)
        (λ i j o l t. ground (arith, get_or_rises keys i j sorted o l)) in
    elim (Bool-cases (eqb r (length keys))) [
      | inl wraps ↦ (
        0,
        some_,
        rw wraps refl,
        λ k h.
            let (i, l, e) = has-index k keys h in
            ground (
              arith,
              before i (ground arith),
              get_or_rises keys 0 i sorted (omega arith) l,
              e,
              All-get_or (λ x. x < 2 ^ 32) keys i bounded l,
            ),
      )
      | inr inner ↦ (
        r,
        ground (arith, inside),
        rw inner refl,
        λ k h.
            let (i, l, e) = has-index k keys h in
            let within : r < length keys = ground (arith, inside) in
            let top = All-get_or (λ x. x < 2 ^ 32) keys r bounded within in
            let at_r = after r (omega arith) within in
            elim (Bool-cases (ltb i r)) [
              | inl t ↦ let under = before i (ground arith) in ground (arith, e, under, at_r, top)
              | inr t ↦
                  let over = get_or_rises keys r i sorted (ground arith) l in
                  let bound = All-get_or (λ x. x < 2 ^ 32) keys i bounded l in
                  ground (arith, e, at_r, over, top, bound)
            ],
      )
    ]

-- The same of what is found.
pub find_key-lem :
    (hash : ℕ) (keys : List ℕ)
    → hash < 2 ^ 32
    → 0 < length keys
    → All (λ k. k < 2 ^ 32) keys
    → IsSorted keys
    → (has (find_key hash keys) keys ≡ true)
      × ((k : ℕ) → has k keys ≡ true → distance hash (find_key hash keys) ≤ distance hash k)
find_key-lem hash keys small some_ bounded sorted =
    let (i, l, e, near) = find_key-nearest hash keys small some_ bounded sorted in
    rw e (has-get_or keys i l, near)
