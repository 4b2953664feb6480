-- ===== src/Coordinator/Division.antt =====
-- The epoch that a split builds, of any plan: which shards it has, what they hold, and where virtual
-- shards map to.
use true_now.Base.{
  ℕ, ◌≡◌, refl, ap, ◌∙◌, true, false, Option, some, List, [], ◌∷◌, if◌then◌else◌, ltb, eqb, nat_eq,
  Bool-cases, inl, inr,
}
use true_now.Base.Word.{Word, add64}
use true_now.Base.Map.{Map, lookup, contains, lookup-delete}
use true_now.Coordinator.{EpochConfig, ShardCoordinator}
use true_now.Coordinator.Epoch.{mem, prepare_new_epoch}
use true_now.Coordinator.Split.{
  ShardSplitPlan, shards_of, add_assignments, remap, map_all, new_assignment, split_epoch,
}
use true_now.Coordinator.Mapping.{lookup-map_all}
use true_now.Coordinator.Ownership.{
  count, held_by, held_by-stamp_all, contains-stamp_all, contains-delete,
}
use true_now.Coordinator.Pieces.{contains-add_assignments, lookup-add_assignments}

-- The shard of the last piece that has a virtual shard, or the one that it was mapped to.
abbrev pub last_piece : ℕ → Map ℕ (List ℕ) → Option ℕ → Option ℕ
last_piece v [] old = old
last_piece v ((id, vs) ∷ split) old =
    last_piece v split (if ltb 0 (count v vs) then some id else old)

lookup-remap :
    (v : ℕ) (split : Map ℕ (List ℕ)) (m : Map ℕ ℕ)
    → lookup v (remap split m) ≡ last_piece v split (lookup v m)
unfolding remap
lookup-remap v [] m = refl
lookup-remap v ((id, vs) ∷ split) m =
    lookup-remap v split (map_all id vs m) ∙ ap (last_piece v split) (lookup-map_all id v vs m)

-- The epoch `new` has the planned shards and those of before, but for the source; the planned ones
-- hold their pieces, and the others what they did; the virtual shards of the pieces are mapped to
-- their shards, and the others as before; and its number is the next one.
pub record HasDivided {F : Type 0} (plan : ShardSplitPlan F) (c : ShardCoordinator)
    (new : EpochConfig) : Type 0 where
  pub number : new.epoch ≡ add64 c.epoch_counter 1
  pub shards :
      (k : ℕ)
      → contains k new.assignments ≡ (
          if eqb plan.source_shard k
          then false
          else if mem k plan.new_shards
          then true
          else contains k c.current_epoch.assignments)
  pub holders :
      (v k : ℕ)
      → held_by v (lookup k new.assignments) ≡ (
          if eqb plan.source_shard k
          then 0
          else if mem k plan.new_shards
          then count v (shards_of k plan.virtual_shard_split)
          else held_by v (lookup k c.current_epoch.assignments))
  pub mapping :
      (v : ℕ)
      → lookup v new.virtual_to_physical
        ≡ last_piece v plan.virtual_shard_split (lookup v c.current_epoch.virtual_to_physical)

module _ {F : Type 0} (now : Word) (plan : ShardSplitPlan F) (c : ShardCoordinator) where
  pub split_epoch-HasDivided : HasDivided plan c (split_epoch now plan c)
  unfolding split_epoch prepare_new_epoch new_assignment
  split_epoch-HasDivided =
      let e = prepare_new_epoch now "Shard split" c in
      let source = plan.source_shard in
      let ids = plan.new_shards in
      let old = c.current_epoch.assignments in
      let split = plan.virtual_shard_split in
      let added = add_assignments e.epoch split ids e.assignments in
      record {
        number = refl;
        shards = λ k.
            contains-delete source k added
            ∙ rw
                (
                  contains-add_assignments e.epoch split k ids e.assignments,
                  contains-stamp_all k e.epoch old,
                )
                refl;
        holders = λ v k.
            let swept = ap (held_by v) (lookup-delete source k added) in
            let put = ap (held_by v) (lookup-add_assignments e.epoch split k ids e.assignments) in
            elim (Bool-cases (eqb source k)) [
              | inl t ↦ swept ∙ rw t refl
              | inr f ↦ elim (Bool-cases (mem k ids)) [
                | inl t ↦ swept ∙ rw (f, t) (put ∙ rw t refl)
                | inr g ↦ swept ∙ rw (f, g) (put ∙ rw g (held_by-stamp_all v k e.epoch old))
              ]
            ];
        mapping = λ v. lookup-remap v split c.current_epoch.virtual_to_physical;
      }
