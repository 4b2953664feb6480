-- ===== src/Base/Keys.antt =====
-- Go maps have one entry for a key: what writes, deletions and filters do to the keys.
use true_now.Base.Tests.{if◌then◌else◌, Eq, ◌==◌, Bool-cases}
use true_now.Base.Lists.{All}
use true_now.Base.Map.{Map, lookup, insert, delete, contains, not-contains}
use mathlib.Core.Bool.{Bool, true, false}
use mathlib.Core.Path.{◌≡◌, refl, subst}
use mathlib.Core.Logic.{inl, inr}
use mathlib.Core.Option.{Option, none, some}
use mathlib.Core.List.{[], ◌∷◌}
use native.Mathlib.Omega.{arith}

module _ {ℓ κ} {K : Type ℓ} {V : Type κ} ⦃e : Eq K⦄ where
  abbrev pub HasUniqueKeys : Map K V → Type 0
  HasUniqueKeys [] = Unit
  HasUniqueKeys ((k, w) ∷ m) = (contains k m ≡ false) × HasUniqueKeys m

  -- The entries whose values pass a test.
  unfoldable pub keep : (V → Bool) → Map K V → Map K V
  keep p [] = []
  keep p ((k, v) ∷ m) = let rest = keep p m in if p v then (k, v) ∷ rest else rest

module _ {ℓ κ} {K : Type ℓ} {V : Type κ} ⦃e : Eq K⦄ where
  pub contains-insert :
      (k j : K) (w : V) (m : Map K V)
      → contains j (insert k w m) ≡ (if k == j then true else contains j m)
  unfolding contains insert
  contains-insert k j w [] = refl
  contains-insert k j w ((i, x) ∷ m) =
      ground (arith, e.beq_iff k j, e.beq_iff i k, e.beq_iff i j, contains-insert k j w m)

  pub contains-delete :
      (k j : K) (m : Map K V) → contains j (delete k m) ≡ (if k == j then false else contains j m)
  unfolding contains delete
  contains-delete k j [] = ground arith
  contains-delete k j ((i, x) ∷ m) =
      ground (arith, e.beq_iff k j, e.beq_iff i k, e.beq_iff i j, contains-delete k j m)

  pub contains-lookup :
      (k : K) (m : Map K V)
      → contains k m ≡ elim (lookup k m) as (λ _. Bool) [ none ↦ false | some v ↦ true ]
  unfolding contains lookup
  contains-lookup k [] = refl
  contains-lookup k ((i, w) ∷ m) = elim (Bool-cases (i == k)) [
    | inl t ↦ rw t refl
    | inr f ↦ rw f (contains-lookup k m)
  ]

  pub insert-HasUniqueKeys :
      (k : K) (w : V) (m : Map K V) → HasUniqueKeys m → HasUniqueKeys (insert k w m)
  unfolding insert contains
  insert-HasUniqueKeys k w [] u = (refl, tt)
  insert-HasUniqueKeys k w ((i, x) ∷ m) u =
      ground
        (arith, e.beq_iff i k, e.beq_iff k i, contains-insert k i w m, insert-HasUniqueKeys k w m)

  pub delete-HasUniqueKeys : (k : K) (m : Map K V) → HasUniqueKeys m → HasUniqueKeys (delete k m)
  unfolding delete
  delete-HasUniqueKeys k [] u = tt
  delete-HasUniqueKeys k ((i, x) ∷ m) u =
      ground (arith, contains-delete k i m, delete-HasUniqueKeys k m)

  pub delete-absent : (k : K) (m : Map K V) → contains k m ≡ false → delete k m ≡ m
  unfolding delete contains
  delete-absent k [] h = refl
  delete-absent k ((i, x) ∷ m) h = ground (arith, delete-absent k m)

  module _ (p : V → Bool) where
    pub keep-absent : (k : K) (m : Map K V) → contains k m ≡ false → contains k (keep p m) ≡ false
    unfolding keep contains
    keep-absent k [] h = refl
    keep-absent k ((i, v) ∷ m) h = elim (Bool-cases (p v)) [
      | inl t ↦ rw t (ground (arith, keep-absent k m))
      | inr f ↦ rw f (keep-absent k m (ground arith))
    ]

    pub keep-contains : (k : K) (m : Map K V) → contains k (keep p m) ≡ true → contains k m ≡ true
    keep-contains k m h = elim (Bool-cases (contains k m)) [
      | inl t ↦ t
      | inr f ↦ absurd (cc (h, keep-absent k m f))
    ]

    pub keep-HasUniqueKeys : (m : Map K V) → HasUniqueKeys m → HasUniqueKeys (keep p m)
    unfolding keep
    keep-HasUniqueKeys [] u = tt
    keep-HasUniqueKeys ((k, v) ∷ m) u = elim (Bool-cases (p v)) [
      | inl t ↦ rw t (keep-absent k m u.0, keep-HasUniqueKeys m u.1)
      | inr f ↦ rw f (keep-HasUniqueKeys m u.1)
    ]

    pub lookup-keep :
        (k : K) (m : Map K V)
        → HasUniqueKeys m
        → lookup k (keep p m) ≡ elim (lookup k m) as (λ _. Option V) [
          | none ↦ none
          | some v ↦ if p v then some v else none
        ]
    unfolding lookup keep
    lookup-keep k [] u = refl
    lookup-keep k ((i, v) ∷ m) u = elim (Bool-cases (i == k)) [
      | inl same ↦ elim (Bool-cases (p v)) [
        | inl t ↦ rw (same, t, same) refl
        | inr f ↦
            rw (same, f)
              (not-contains k (keep p m)
                (keep-absent k m (subst (λ x. contains x m ≡ false) ((e.beq_iff i k).0 same) u.0)))
      ]
      | inr other ↦ elim (Bool-cases (p v)) [
        | inl t ↦ rw (other, t, other) (lookup-keep k m u.1)
        | inr f ↦ rw (other, f) (lookup-keep k m u.1)
      ]
    ]

    pub All-keep {μ} : (P : K × V → Type μ) (m : Map K V) → All P m → All P (keep p m)
    unfolding keep
    All-keep P [] h = tt
    All-keep P ((k, v) ∷ m) h = elim (Bool-cases (p v)) [
      | inl t ↦ rw t (h.0, All-keep P m h.1)
      | inr f ↦ rw f (All-keep P m h.1)
    ]
