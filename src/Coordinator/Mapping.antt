-- ===== src/Coordinator/Mapping.antt =====
-- The map from virtual to physical shards, through a split or a merge.
use true_now.Base.{
  ℕ, ◌<◌, ◌≡◌, refl, subst, Bool, true, false, some, List, [], ◌∷◌, ◌++◌, arith, if◌then◌else◌, ltb,
  eqb, nat_eq, All, Bool-cases, inl, inr, ◌⊎◌,
}
use true_now.Base.Map.{Map, lookup, insert, contains, lookup-insert}
use true_now.Coordinator.Split.{map_all, remap}
use true_now.Coordinator.Ownership.{count, HasUniqueKeys, insert-HasUniqueKeys}

-- The virtual shards of all pieces, in the order of the map.
abbrev pub pieces : Map ℕ (List ℕ) → List ℕ
pieces [] = []
pieces ((id, vs) ∷ split) = vs ++ pieces split

-- Where a virtual shard is mapped to, once some are mapped to `id`.
pub lookup-map_all :
    (id v : ℕ) (vs : List ℕ) (m : Map ℕ ℕ)
    → lookup v (map_all id vs m) ≡ (if ltb 0 (count v vs) then some id else lookup v m)
unfolding map_all
lookup-map_all id v [] m = refl
lookup-map_all id v (x ∷ vs) m =
    ground (arith, lookup-map_all id v vs (insert x id m), lookup-insert x v id m)

-- `good v p` holds of the entries that may stay; the others are for the virtual shards of `left`,
-- which are still to be written.
module _ (good : ℕ → ℕ → Bool) where
  abbrev pub IsGoodBut : List ℕ → Map ℕ ℕ → Type 0
  IsGoodBut left m = All (λ entry. (good entry.0 entry.1 ≡ true) ⊎ (0 < count entry.0 left)) m

  absent-IsGoodBut :
      (v : ℕ) (left : List ℕ) (m : Map ℕ ℕ)
      → contains v m ≡ false
      → IsGoodBut (v ∷ left) m
      → IsGoodBut left m
  unfolding contains
  absent-IsGoodBut v left [] absent h = tt
  absent-IsGoodBut v left ((w, q) ∷ m) absent h = ground (arith, absent-IsGoodBut v left m)

  insert-IsGoodBut :
      (v p : ℕ) (left : List ℕ) (m : Map ℕ ℕ)
      → good v p ≡ true
      → HasUniqueKeys m
      → IsGoodBut (v ∷ left) m
      → IsGoodBut left (insert v p m)
  unfolding insert
  insert-IsGoodBut v p left [] g u h = (inl g, tt)
  insert-IsGoodBut v p left ((w, q) ∷ m) g u h = elim (Bool-cases (eqb w v)) [
    | inl same ↦
        let e : w ≡ v = ground arith in
        rw same (inl g, absent-IsGoodBut v left m (subst (λ k. contains k m ≡ false) e u.0) h.1)
    | inr differ ↦ rw differ (ground arith, insert-IsGoodBut v p left m g u.1 h.1)
  ]

  map_all-IsGoodBut :
      (p : ℕ) (vs left : List ℕ) (m : Map ℕ ℕ)
      → All (λ v. good v p ≡ true) vs
      → HasUniqueKeys m
      → IsGoodBut (vs ++ left) m
      → IsGoodBut left (map_all p vs m) × HasUniqueKeys (map_all p vs m)
  unfolding map_all
  map_all-IsGoodBut p [] left m g u h = (h, u)
  map_all-IsGoodBut p (v ∷ vs) left m g u h =
      map_all-IsGoodBut p vs left (insert v p m) g.1 (insert-HasUniqueKeys v p m u)
        (insert-IsGoodBut v p (vs ++ left) m g.0 u h)

  remap-IsGoodBut :
      (split : Map ℕ (List ℕ)) (m : Map ℕ ℕ)
      → All (λ entry. All (λ v. good v entry.0 ≡ true) entry.1) split
      → HasUniqueKeys m
      → IsGoodBut (pieces split) m
      → IsGoodBut [] (remap split m) × HasUniqueKeys (remap split m)
  unfolding remap
  remap-IsGoodBut [] m g u h = (h, u)
  remap-IsGoodBut ((id, vs) ∷ split) m g u h =
      let (h', u') = map_all-IsGoodBut id vs (pieces split) m g.0 u h in
      remap-IsGoodBut split (map_all id vs m) g.1 u' h'

  pub IsGoodBut-nil : (m : Map ℕ ℕ) → IsGoodBut [] m → All (λ entry. good entry.0 entry.1 ≡ true) m
  IsGoodBut-nil [] h = tt
  IsGoodBut-nil ((v, p) ∷ m) h = (ground arith, IsGoodBut-nil m h.1)

  -- After every piece was written, each entry is good.
  pub remap_lem :
      (split : Map ℕ (List ℕ)) (m : Map ℕ ℕ)
      → All (λ entry. All (λ v. good v entry.0 ≡ true) entry.1) split
      → HasUniqueKeys m
      → IsGoodBut (pieces split) m
      → All (λ entry. good entry.0 entry.1 ≡ true) (remap split m) × HasUniqueKeys (remap split m)
  remap_lem split m g u h =
      let (h', u') = remap-IsGoodBut split m g u h in (IsGoodBut-nil (remap split m) h', u')
