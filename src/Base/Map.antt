-- ===== src/Base/Map.antt =====
-- Go maps as association lists with at most one entry for a key that `insert` puts there. Go
-- leaves the order of a `range` over a map open; the order of the list stands for one such order.
use true_now.Base.Tests.{nat_eq, if◌then◌else◌, Eq, ◌==◌, Bool-cases}
use mathlib.Core.Bool.{Bool, true, false}
use mathlib.Core.Path.{◌≡◌, refl}
use mathlib.Core.Logic.{inl, inr}
use mathlib.Core.Option.{Option, none, some}
use mathlib.Core.List.{List, [], ◌∷◌}
use native.Mathlib.Omega.{arith}

abbrev pub Map {ℓ κ} : Type ℓ → Type κ → Type (ℓ ⊔ κ)
Map K V = List (K × V)

module _ {ℓ κ} {K : Type ℓ} {V : Type κ} ⦃e : Eq K⦄ where
  unfoldable pub lookup : K → Map K V → Option V
  lookup k [] = none
  lookup k ((i, w) ∷ entries) = if i == k then some w else lookup k entries

  unfoldable pub insert : K → V → Map K V → Map K V
  insert k v [] = (k, v) ∷ []
  insert k v ((i, old) ∷ entries) =
      if i == k then (k, v) ∷ entries else (i, old) ∷ insert k v entries

  -- `delete(m, k)`
  unfoldable pub delete : K → Map K V → Map K V
  delete k [] = []
  delete k ((i, old) ∷ entries) = if i == k then delete k entries else (i, old) ∷ delete k entries

  -- `_, exists := m[k]`
  unfoldable pub contains : K → Map K V → Bool
  contains k [] = false
  contains k ((i, old) ∷ entries) = if i == k then true else contains k entries

module _ {ℓ κ} {K : Type ℓ} {V : Type κ} ⦃e : Eq K⦄ where
  pub lookup-insert :
      (k j : K) (v : V) (m : Map K V)
      → lookup j (insert k v m) ≡ (if k == j then some v else lookup j m)
  unfolding lookup insert
  lookup-insert k j v [] = ground arith
  lookup-insert k j v ((i, old) ∷ entries) =
      ground (arith, e.beq_iff k j, e.beq_iff i k, e.beq_iff i j, lookup-insert k j v entries)

  pub lookup-delete :
      (k j : K) (m : Map K V) → lookup j (delete k m) ≡ (if k == j then none else lookup j m)
  unfolding lookup delete
  lookup-delete k j [] = ground arith
  lookup-delete k j ((i, w) ∷ m) =
      ground (arith, e.beq_iff k j, e.beq_iff i k, e.beq_iff i j, lookup-delete k j m)

  pub contains-IsSome :
      (k : K) (m : Map K V) → contains k m ≡ true → (v : V) × (lookup k m ≡ some v)
  unfolding contains lookup
  contains-IsSome k [] h = ground arith
  contains-IsSome k ((i, w) ∷ m) h = elim (Bool-cases (i == k)) [
    | inl t ↦ (w, rw t)
    | inr f ↦ rw f (contains-IsSome k m (rw f at h))
  ]

  pub not-contains : (k : K) (m : Map K V) → contains k m ≡ false → lookup k m ≡ none
  unfolding contains lookup
  not-contains k [] h = refl
  not-contains k ((i, w) ∷ m) h = ground (arith, not-contains k m)
