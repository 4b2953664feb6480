-- ===== src/Coordinator/Pieces.antt =====
-- The virtual shards that a split hands out are those of its source, each as often; and what the new
-- assignments hold.
use true_now.Base.{
  ℕ, ◌+◌, ◌-◌, ◌*◌, ◌≤◌, ◌<◌, ◌≡◌, refl, ap, Bool, true, false, some, List, [], ◌∷◌, arith,
  if◌then◌else◌, ltb, eqb, eqb_iff, nat_eq, All, length, take, drop, length-drop, Bool-cases, inl,
  inr,
}
use true_now.Base.Word.{Word}
use true_now.Base.Map.{Map, lookup, insert, contains, lookup-insert, not-contains}
use true_now.Coordinator.{ShardAssignment}
use true_now.Coordinator.Epoch.{mem}
use true_now.Coordinator.Split.{distribute, shards_of, new_assignment, add_assignments}
use true_now.Coordinator.Ids.{AreDistinct}
use true_now.Coordinator.Mapping.{pieces}
use true_now.Coordinator.Ownership.{
  count, count-append, count-take-drop, held, held_by, HasUniqueKeys, contains-insert,
  insert-HasUniqueKeys, held-insert,
}

-- No shard of the list is there yet.
module _ {ℓ} {V : Type ℓ} where
  abbrev pub AreAbsent : List ℕ → Map ℕ V → Type 0
  AreAbsent ids m = All (λ id. contains id m ≡ false) ids

  AreAbsent-insert :
      (k : ℕ) (w : V) (ids : List ℕ) (m : Map ℕ V)
      → mem k ids ≡ false
      → AreAbsent ids m
      → AreAbsent ids (insert k w m)
  unfolding mem
  AreAbsent-insert k w [] m h absent = tt
  AreAbsent-insert k w (id ∷ ids) m h absent =
      ground (arith, contains-insert k id w m, AreAbsent-insert k w ids m)

-- How often the pieces of the shards listed hold a virtual shard.
abbrev pub handed : ℕ → List ℕ → Map ℕ (List ℕ) → ℕ
handed v [] split = 0
handed v (id ∷ ids) split = count v (shards_of id split) + handed v ids split

pub lookup-distribute :
    (id per rem : ℕ) (ids left : List ℕ) (m : Map ℕ (List ℕ))
    → mem id ids ≡ false
    → lookup id (distribute per rem ids left m) ≡ lookup id m
unfolding distribute mem
lookup-distribute id per rem [] left m h = refl
lookup-distribute id per rem (x ∷ ids) left m h =
    let n = if ltb 0 rem then per + 1 else per in
    ground (
      arith,
      lookup-insert x id (take n left) m,
      lookup-distribute id per (rem - 1) ids (drop n left) (insert x (take n left) m),
    )

pub shards_of-distribute :
    (id per rem : ℕ) (ids left : List ℕ) (m : Map ℕ (List ℕ))
    → mem id ids ≡ false
    → shards_of id (distribute per rem (id ∷ ids) left m)
      ≡ take (if ltb 0 rem then per + 1 else per) left
unfolding distribute shards_of
shards_of-distribute id per rem ids left m h =
    let n = if ltb 0 rem then per + 1 else per in
    ground (
      arith,
      lookup-distribute id per (rem - 1) ids (drop n left) (insert id (take n left) m) h,
      lookup-insert id id (take n left) m,
    )

distribute-cons :
    (id per rem : ℕ) (ids left : List ℕ) (m : Map ℕ (List ℕ))
    → distribute per rem (id ∷ ids) left m ≡ (
        let n = if ltb 0 rem then per + 1 else per in
        distribute per (rem - 1) ids (drop n left) (insert id (take n left) m))
unfolding distribute
distribute-cons id per rem ids left m = refl

-- All that is left is handed out, if it is `per` for each shard and one more for the first `rem`.
pub handed-distribute :
    (v per rem : ℕ) (ids left : List ℕ) (m : Map ℕ (List ℕ))
    → AreDistinct ids
    → rem ≤ length ids
    → length left ≡ per * length ids + rem
    → handed v ids (distribute per rem ids left m) ≡ count v left
handed-distribute v per rem [] [] m d le e = refl
handed-distribute v per rem [] (x ∷ left) m d le e = absurd (omega arith)
handed-distribute v per rem (id ∷ ids) left m d le e =
    let n = if ltb 0 rem then per + 1 else per in
    let rest =
      handed-distribute v per (rem - 1) ids (drop n left) (insert id (take n left) m) d.1
        (omega arith) (ground (arith, length-drop n left)) in
    omega (
      arith,
      ap (count v) (shards_of-distribute id per rem ids left m d.0),
      ap (handed v ids) (distribute-cons id per rem ids left m),
      rest,
      count-take-drop v n left,
    )

-- The assignments after those of the new shards were added.
module _ (epoch : Word) (split : Map ℕ (List ℕ)) where
  abbrev pub made : ℕ → ShardAssignment
  made id = new_assignment epoch id (shards_of id split)

  pub contains-add_assignments :
      (k : ℕ) (ids : List ℕ) (m : Map ℕ ShardAssignment)
      → contains k (add_assignments epoch split ids m) ≡ (if mem k ids then true else contains k m)
  unfolding add_assignments mem
  contains-add_assignments k [] m = refl
  contains-add_assignments k (id ∷ ids) m = ground (
    arith,
    contains-add_assignments k ids (insert id (made id) m),
    contains-insert id k (made id) m,
  )

  pub add_assignments-HasUniqueKeys :
      (ids : List ℕ) (m : Map ℕ ShardAssignment)
      → HasUniqueKeys m
      → HasUniqueKeys (add_assignments epoch split ids m)
  unfolding add_assignments
  add_assignments-HasUniqueKeys [] m u = u
  add_assignments-HasUniqueKeys (id ∷ ids) m u =
      add_assignments-HasUniqueKeys ids (insert id (made id) m)
        (insert-HasUniqueKeys id (made id) m u)

  pub lookup-add_assignments :
      (k : ℕ) (ids : List ℕ) (m : Map ℕ ShardAssignment)
      → lookup k (add_assignments epoch split ids m)
        ≡ (if mem k ids then some (made k) else lookup k m)
  unfolding add_assignments mem
  lookup-add_assignments k [] m = refl
  lookup-add_assignments k (id ∷ ids) m =
      ground (
        arith,
        lookup-add_assignments k ids (insert id (made id) m),
        lookup-insert id k (made id) m,
      )

  held-new_assignment : (v id : ℕ) → count v (made id).virtual_shards ≡ count v (shards_of id split)
  unfolding new_assignment
  held-new_assignment v id = refl

  pub held-add_assignments :
      (v : ℕ) (ids : List ℕ) (m : Map ℕ ShardAssignment)
      → AreDistinct ids
      → AreAbsent ids m
      → held v (add_assignments epoch split ids m) ≡ held v m + handed v ids split
  unfolding add_assignments
  held-add_assignments v [] m d absent = omega arith
  held-add_assignments v (id ∷ ids) m d absent =
      let m' = insert id (made id) m in
      omega (
        arith,
        held-add_assignments v ids m' d.1 (AreAbsent-insert id (made id) ids m d.0 absent.1),
        held-insert v id (made id) m,
        held-new_assignment v id,
        ap (held_by v) (not-contains id m absent.0),
      )

-- The pieces of a split in the order of its map, and its keys.
pieces-insert :
    (v k : ℕ) (vs : List ℕ) (m : Map ℕ (List ℕ))
    → contains k m ≡ false
    → count v (pieces (insert k vs m)) ≡ count v (pieces m) + count v vs
unfolding insert contains
pieces-insert v k vs [] absent = omega (arith, count-append v vs [])
pieces-insert v k vs ((i, ws) ∷ m) absent = ground (
  arith,
  pieces-insert v k vs m,
  count-append v ws (pieces m),
  count-append v ws (pieces (insert k vs m)),
)

pub pieces-distribute :
    (v per rem : ℕ) (ids left : List ℕ) (m : Map ℕ (List ℕ))
    → AreDistinct ids
    → AreAbsent ids m
    → rem ≤ length ids
    → length left ≡ per * length ids + rem
    → count v (pieces (distribute per rem ids left m)) ≡ count v (pieces m) + count v left
unfolding distribute
pieces-distribute v per rem [] [] m d absent le e = omega arith
pieces-distribute v per rem [] (x ∷ left) m d absent le e = absurd (omega arith)
pieces-distribute v per rem (id ∷ ids) left m d absent le e =
    let n = if ltb 0 rem then per + 1 else per in
    let m' = insert id (take n left) m in
    let rest =
      pieces-distribute v per (rem - 1) ids (drop n left) m' d.1
        (AreAbsent-insert id (take n left) ids m d.0 absent.1) (omega arith)
        (ground (arith, length-drop n left)) in
    omega (arith, rest, pieces-insert v id (take n left) m absent.0, count-take-drop v n left)

pub contains-distribute :
    (k per rem : ℕ) (ids left : List ℕ) (m : Map ℕ (List ℕ))
    → contains k (distribute per rem ids left m) ≡ (if mem k ids then true else contains k m)
unfolding distribute mem
contains-distribute k per rem [] left m = refl
contains-distribute k per rem (id ∷ ids) left m =
    let n = if ltb 0 rem then per + 1 else per in
    ground (
      arith,
      contains-distribute k per (rem - 1) ids (drop n left) (insert id (take n left) m),
      contains-insert id k (take n left) m,
    )

pub distribute-HasUniqueKeys :
    (per rem : ℕ) (ids left : List ℕ) (m : Map ℕ (List ℕ))
    → HasUniqueKeys m
    → HasUniqueKeys (distribute per rem ids left m)
unfolding distribute
distribute-HasUniqueKeys per rem [] left m u = u
distribute-HasUniqueKeys per rem (id ∷ ids) left m u =
    let n = if ltb 0 rem then per + 1 else per in
    distribute-HasUniqueKeys per (rem - 1) ids (drop n left) (insert id (take n left) m)
      (insert-HasUniqueKeys id (take n left) m u)

All-counted :
    (good : ℕ → Bool) (vs : List ℕ)
    → ((v : ℕ) → 0 < count v vs → good v ≡ true)
    → All (λ v. good v ≡ true) vs
All-counted good [] h = tt
All-counted good (x ∷ xs) h =
    (h x (ground arith), All-counted good xs (λ v pos. h v (ground arith)))

other_key :
    (i k : ℕ) (m : Map ℕ (List ℕ)) → contains i m ≡ false → contains k m ≡ true → eqb i k ≡ false
other_key i k m absent has = elim (Bool-cases (eqb i k)) [
  | inl same ↦ let e : i ≡ k = (eqb_iff i k).0 same in absurd (cc (rw e at absent, has))
  | inr differ ↦ differ
]

-- In a map with unique keys, what holds at every key with the piece found there holds of the entries.
pub found_entries :
    (good : ℕ → ℕ → Bool) (split : Map ℕ (List ℕ))
    → HasUniqueKeys split
    → ((id v : ℕ) → contains id split ≡ true → 0 < count v (shards_of id split) → good v id ≡ true)
    → All (λ entry. All (λ v. good v entry.0 ≡ true) entry.1) split
unfolding contains shards_of lookup
found_entries good [] u h = tt
found_entries good ((id, vs) ∷ split) u h = (
  All-counted (λ v. good v id) vs (λ v pos. h id v (ground arith) (ground arith)),
  found_entries good split u.1 λ k v has pos.
      let ne : eqb id k ≡ false = other_key id k split u.0 has in
      h k v (rw ne has) (rw (ne, shards_of, lookup) pos),
)
