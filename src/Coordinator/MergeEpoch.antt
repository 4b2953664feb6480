-- ===== src/Coordinator/MergeEpoch.antt =====
-- The epoch that a merge builds: which shards it has, what they hold, and where virtual shards map to.
use true_now.Base.{
  ℕ, ◌+◌, ◌≡◌, refl, ap, ◌∙◌, true, false, none, some, List, [], ◌∷◌, arith, if◌then◌else◌, ltb,
  eqb, nat_eq, Option-cases, Bool-cases, inl, inr,
}
use true_now.Base.Word.{Word, add64}
use true_now.Base.Map.{Map, lookup, insert, delete, contains, lookup-insert, lookup-delete}
use true_now.Coordinator.{ShardAssignment, EpochConfig, ShardCoordinator}
use true_now.Coordinator.Epoch.{mem, prepare_new_epoch}
use true_now.Coordinator.Split.{new_assignment}
use true_now.Coordinator.Mapping.{lookup-map_all}
use true_now.Coordinator.Merge.{ShardMergePlan, collect, delete_sources, merge_epoch}
use true_now.Coordinator.Ownership.{
  count, count-append, held_by, held_by-stamp_all, contains-stamp_all, contains-insert,
  contains-delete,
}

-- How often some shards hold a virtual shard.
abbrev pub held_among : ℕ → List ℕ → Map ℕ ShardAssignment → ℕ
held_among v [] m = 0
held_among v (id ∷ ids) m = held_by v (lookup id m) + held_among v ids m

count-collect :
    (v : ℕ) (ids : List ℕ) (m : Map ℕ ShardAssignment)
    → count v (collect ids m) ≡ held_among v ids m
unfolding collect
count-collect v [] m = refl
count-collect v (id ∷ ids) m = elim (Option-cases (lookup id m)) [
  | inl e ↦ rw (e, collect) (omega (arith, count-collect v ids m))
  | inr (a, e) ↦
      rw (e, collect)
        (omega (arith, count-append v a.virtual_shards (collect ids m), count-collect v ids m))
]

lookup-delete_sources :
    (target k : ℕ) (ids : List ℕ) (m : Map ℕ ShardAssignment)
    → lookup k (delete_sources target ids m)
      ≡ (if eqb target k then lookup k m else if mem k ids then none else lookup k m)
unfolding delete_sources mem
lookup-delete_sources target k [] m = ground arith
lookup-delete_sources target k (id ∷ ids) m = ground (
  arith,
  lookup-delete_sources target k ids m,
  lookup-delete_sources target k ids (delete id m),
  lookup-delete id k m,
)

contains-delete_sources :
    (target k : ℕ) (ids : List ℕ) (m : Map ℕ ShardAssignment)
    → contains k (delete_sources target ids m)
      ≡ (if eqb target k then contains k m else if mem k ids then false else contains k m)
unfolding delete_sources mem
contains-delete_sources target k [] m = ground arith
contains-delete_sources target k (id ∷ ids) m = ground (
  arith,
  contains-delete_sources target k ids m,
  contains-delete_sources target k ids (delete id m),
  contains-delete id k m,
)

-- The epoch `new` has the target and the shards of before that are not sources; the target holds what
-- the sources held, and the others hold what they did; the virtual shards of the sources are mapped to
-- the target, and the others as before; and its number is the next one.
pub record HasMerged {F : Type 0} (plan : ShardMergePlan F) (c : ShardCoordinator)
    (new : EpochConfig) : Type 0 where
  pub number : new.epoch ≡ add64 c.epoch_counter 1
  pub shards :
      (k : ℕ)
      → contains k new.assignments ≡ (
          if eqb plan.target_shard k
          then true
          else if mem k plan.source_shards
          then false
          else contains k c.current_epoch.assignments)
  pub holders :
      (v k : ℕ)
      → held_by v (lookup k new.assignments) ≡ (
          if eqb plan.target_shard k
          then held_among v plan.source_shards c.current_epoch.assignments
          else if mem k plan.source_shards
          then 0
          else held_by v (lookup k c.current_epoch.assignments))
  pub mapping :
      (v : ℕ)
      → lookup v new.virtual_to_physical ≡ (
          if ltb 0 (held_among v plan.source_shards c.current_epoch.assignments)
          then some plan.target_shard
          else lookup v c.current_epoch.virtual_to_physical)

module _ {F : Type 0} (now : Word) (plan : ShardMergePlan F) (c : ShardCoordinator) where
  pub merge_epoch-HasMerged : HasMerged plan c (merge_epoch now plan c)
  unfolding merge_epoch prepare_new_epoch new_assignment
  merge_epoch-HasMerged =
      let e = prepare_new_epoch now "Shard merge" c in
      let target = plan.target_shard in
      let old = c.current_epoch.assignments in
      let vs = collect plan.source_shards old in
      let merged = new_assignment e.epoch target vs in
      let added = insert target merged e.assignments in
      record {
        number = refl;
        shards = λ k. ground (
          arith,
          contains-delete_sources target k plan.source_shards added,
          contains-insert target k merged e.assignments,
          contains-stamp_all k e.epoch old,
        );
        holders = λ v k.
            let swept = ap (held_by v) (lookup-delete_sources target k plan.source_shards added) in
            let put = ap (held_by v) (lookup-insert target k merged e.assignments) in
            elim (Bool-cases (eqb target k)) [
              | inl t ↦ swept ∙ rw t (put ∙ rw t (count-collect v plan.source_shards old))
              | inr f ↦ elim (Bool-cases (mem k plan.source_shards)) [
                | inl t ↦ swept ∙ rw (f, t) refl
                | inr g ↦ swept ∙ rw (f, g) (put ∙ rw f (held_by-stamp_all v k e.epoch old))
              ]
            ];
        mapping = λ v.
            lookup-map_all target v vs c.current_epoch.virtual_to_physical
            ∙ rw (count-collect v plan.source_shards old) refl;
      }
