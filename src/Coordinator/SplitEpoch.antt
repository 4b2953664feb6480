-- ===== src/Coordinator/SplitEpoch.antt =====
-- The epoch that a planned split builds.
use true_now.Base.{
  ℕ, ◌+◌, ◌*◌, ◌/◌, ◌%◌, ◌≤◌, ◌<◌, ◌≡◌, refl, ap, ◌∙◌, true, false, some, List, [], ◌∷◌, arith,
  if◌then◌else◌, ltb→lt, eqb, eqb_iff, nat_eq, All, All-map, length, Bool-cases, inl, inr, ◌⊎◌,
}
use native.Mathlib.Nat.{div-add-mod, mod-lt}
use true_now.Base.Word.{Word}
use true_now.Base.Map.{Map, lookup, delete, contains, lookup-delete}
use true_now.Coordinator.{ShardAssignment}
use true_now.Coordinator.Epoch.{mem, stamp_all}
use true_now.Coordinator.Split.{distribute, shards_of, add_assignments, remap, new_assignment}
use true_now.Coordinator.Ids.{AreDistinct}
use true_now.Coordinator.Mapping.{pieces, remap_lem}
use true_now.Coordinator.Ownership.{
  count, held, held_by, HasUniqueKeys, contains-delete, delete-HasUniqueKeys, held-delete,
  held-stamp_all, contains-stamp_all, stamp_all-HasUniqueKeys, held_by-stamp_all,
}
use true_now.Coordinator.Pieces.{
  AreAbsent, handed-distribute, contains-add_assignments, add_assignments-HasUniqueKeys,
  lookup-add_assignments, held-add_assignments, pieces-distribute, contains-distribute,
  distribute-HasUniqueKeys, found_entries, made,
}
use true_now.Coordinator.Validity.{holds, holds-contains}

-- The pieces of `vs` for the new shards `ids`, `n` in number.
abbrev pub split_of : ℕ → List ℕ → List ℕ → Map ℕ (List ℕ)
split_of n ids vs = distribute (length vs / n) (length vs % n) ids vs []

-- The assignments of the new epoch, made from `m` by a split of `id`.
abbrev pub final_of :
    Word → ℕ → Map ℕ (List ℕ) → List ℕ → Map ℕ ShardAssignment → Map ℕ ShardAssignment
final_of epoch id split ids m = delete id (add_assignments epoch split ids (stamp_all epoch m))

absent-not-mem :
    (id : ℕ) (ids : List ℕ) (m : Map ℕ ShardAssignment)
    → AreAbsent ids m
    → contains id m ≡ true
    → mem id ids ≡ false
unfolding mem
absent-not-mem id [] m absent has = refl
absent-not-mem id (x ∷ ids) m absent has = elim (Bool-cases (eqb x id)) [
  | inl same ↦ absurd (cc (rw ((eqb_iff x id).0 same) at (absent.0), has))
  | inr differ ↦ rw differ (absent-not-mem id ids m absent.1 has)
]

lookup-contains :
    (id : ℕ) (m : Map ℕ ShardAssignment) (a : ShardAssignment)
    → lookup id m ≡ some a
    → contains id m ≡ true
unfolding lookup contains
lookup-contains id [] a h = ground arith
lookup-contains id ((k, b) ∷ m) a h = ground (arith, lookup-contains id m a)

AreAbsent-stamp_all :
    (epoch : Word) (ids : List ℕ) (m : Map ℕ ShardAssignment)
    → AreAbsent ids m
    → AreAbsent ids (stamp_all epoch m)
AreAbsent-stamp_all epoch [] m h = tt
AreAbsent-stamp_all epoch (id ∷ ids) m h =
    (contains-stamp_all id epoch m ∙ h.0, AreAbsent-stamp_all epoch ids m h.1)

no_keys_absent : (ids : List ℕ) → AreAbsent {V = List ℕ} ids []
unfolding contains
no_keys_absent [] = tt
no_keys_absent (id ∷ ids) = (refl, no_keys_absent ids)

differ_by_mem : (i k : ℕ) (ids : List ℕ) → mem i ids ≡ false → mem k ids ≡ true → eqb i k ≡ false
differ_by_mem i k ids old new = elim (Bool-cases (eqb i k)) [
  | inl same ↦ absurd (cc (rw ((eqb_iff i k).0 same) at old, new))
  | inr differ ↦ differ
]

-- The source `id` of assignment `a` among `m`, the new shards `ids`, and the map `v2p`.
module _ (epoch : Word) (id : ℕ) (a : ShardAssignment) (n : ℕ) (ids : List ℕ)
    (m : Map ℕ ShardAssignment) (v2p : Map ℕ ℕ) (found : lookup id m ≡ some a)
    (unique : HasUniqueKeys m) (distinct : AreDistinct ids) (absent : AreAbsent ids m)
    (number : length ids ≡ n) (some_ids : 0 < n) where
  abbrev vs : List ℕ
  vs = a.virtual_shards

  abbrev split : Map ℕ (List ℕ)
  split = split_of n ids vs

  abbrev added : Map ℕ ShardAssignment
  added = add_assignments epoch split ids (stamp_all epoch m)

  abbrev final : Map ℕ ShardAssignment
  final = final_of epoch id split ids m

  enough : length vs ≡ length vs / n * length ids + length vs % n
  enough = rw number (omega (arith, div-add-mod (length vs) n))

  remainder_fits : length vs % n ≤ length ids
  remainder_fits = omega (arith, number, mod-lt (length vs) some_ids)

  source_old : mem id ids ≡ false
  source_old = absent-not-mem id ids m absent (lookup-contains id m a found)

  lookup-added : (k : ℕ) → mem k ids ≡ false → lookup k added ≡ lookup k (stamp_all epoch m)
  lookup-added k old = rw (lookup-add_assignments epoch split k ids (stamp_all epoch m), old)

  -- Nothing is lost, and nothing held twice.
  pub held-final : (v : ℕ) → held v final ≡ held v m
  held-final v =
      let u =
        add_assignments-HasUniqueKeys epoch split ids (stamp_all epoch m)
          (stamp_all-HasUniqueKeys epoch m unique) in
      omega (
        arith,
        held-delete v id added u,
        ap (held_by v) (lookup-added id source_old),
        held_by-stamp_all v id epoch m,
        ap (held_by v) found,
        held-add_assignments epoch split v ids (stamp_all epoch m) distinct
            (AreAbsent-stamp_all epoch ids m absent),
        held-stamp_all v epoch m,
        handed-distribute v (length vs / n) (length vs % n) ids vs [] distinct remainder_fits
            enough,
      )

  pub final-HasUniqueKeys : HasUniqueKeys final
  final-HasUniqueKeys = delete-HasUniqueKeys id added (
      add_assignments-HasUniqueKeys epoch split ids (stamp_all epoch m)
        (stamp_all-HasUniqueKeys epoch m unique))

  pub contains-final :
      (k : ℕ)
      → contains k final ≡ (if eqb id k then false else if mem k ids then true else contains k m)
  contains-final k = rw (
    contains-delete id k added,
    contains-add_assignments epoch split k ids (stamp_all epoch m),
    contains-stamp_all k epoch m,
  )

  lookup-final : (k : ℕ) → eqb id k ≡ false → lookup k final ≡ lookup k added
  lookup-final k other = rw (lookup-delete id k added, other)

  new_holds :
      (k v : ℕ) → contains k split ≡ true → 0 < count v (shards_of k split) → holds final v k ≡ true
  unfolding contains new_assignment
  new_holds k v has pos =
      let member : mem k ids ≡ true =
        ground (arith, contains-distribute k (length vs / n) (length vs % n) ids vs []) in
      let other : eqb id k ≡ false = differ_by_mem id k ids source_old member in
      let here : lookup k final ≡ some (made epoch split k) =
        lookup-final k other
        ∙ rw (lookup-add_assignments epoch split k ids (stamp_all epoch m), member) in
      rw here (ground arith)

  old_good :
      (v p : ℕ) → holds m v p ≡ true → (holds final v p ≡ true) ⊎ (0 < count v (pieces split))
  old_good v p h = elim (Bool-cases (eqb id p)) [
    | inl same ↦
        let e : id ≡ p = (eqb_iff id p).0 same in
        inr (
          omega (
            arith,
            pieces-distribute v (length vs / n) (length vs % n) ids vs [] distinct
                (no_keys_absent ids) remainder_fits enough,
            ltb→lt 0 (held_by v (lookup id m)) (rw e h),
            ap (held_by v) found,
          ))
    | inr other ↦
        let old = absent-not-mem p ids m absent (holds-contains m v p h) in
        inl (rw (lookup-final p other, lookup-added p old, held_by-stamp_all v p epoch m) h)
  ]

  pub mapped-final :
      HasUniqueKeys v2p
      → All (λ entry. holds m entry.0 entry.1 ≡ true) v2p
      → All (λ entry. holds final entry.0 entry.1 ≡ true) (remap split v2p)
        × HasUniqueKeys (remap split v2p)
  mapped-final u h =
      remap_lem (holds final) split v2p
        (found_entries (holds final) split (distribute-HasUniqueKeys _ _ ids vs [] tt) new_holds) u
        (All-map (λ entry. holds m entry.0 entry.1 ≡ true) _ v2p (λ entry. old_good entry.0 entry.1)
          h)
