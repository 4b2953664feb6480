-- ===== src/Coordinator/Merge.antt =====
-- Shard merges: the plan, and its execution as a new epoch.
use true_now.Base.{
  ℕ, Option, none, some, List, [], ◌∷◌, ◌++◌, if◌then◌else◌, nat_eq, ◌==◌, length, ◌⊎◌, inl, inr,
}
use true_now.Base.Word.{Word, add64, mul64}
use true_now.Base.Float.{Float64}
use true_now.Base.Map.{Map, lookup, insert, delete}
use true_now.Coordinator.{
  ShardAssignment, EpochConfig, ShardCoordinator, Err, shard_not_found, too_few_shards,
  RebalanceAction, merge_shard, id_eq,
}
use true_now.Coordinator.Epoch.{prepare_new_epoch, transition_to_epoch}
use true_now.Coordinator.Split.{
  new_assignment, map_all, start_action, fail_action, in_progress_action, complete_action,
}

pub record ShardMergePlan (F : Type 0) : Type 0 where
  pub source_shards : List ℕ
  pub target_shard : ℕ
  pub total_keys : Word
  pub estimated_load : F

module _ (fl : Float64) where
  open fl use {F, lit, add, of_int64}

  -- The loop over the shards: the keys and the load so far.
  unfoldable pub sum_load : List ℕ → Map ℕ ShardAssignment → Word → F → Err ⊎ (Word × F)
  sum_load [] m keys load = inr (keys, load)
  sum_load (id ∷ ids) m keys load = elim (lookup id m) [
    | none ↦ inl (shard_not_found id)
    | some a ↦
        sum_load ids m (add64 keys (mul64 (length a.virtual_shards) 1000))
          (add load (of_int64 (length a.virtual_shards)))
  ]

  merge_plan : List ℕ → ℕ → Err ⊎ (Word × F) → Err ⊎ ShardMergePlan F
  merge_plan ids target (inl err) = inl err
  merge_plan ids target (inr (keys, load)) = inr (record {
    source_shards = ids;
    target_shard = target;
    total_keys = keys;
    estimated_load = load;
  })

  -- Fewer than two shards are refused.
  unfoldable pub plan_shard_merge : List ℕ → ShardCoordinator → Err ⊎ ShardMergePlan F
  unfolding merge_plan sum_load
  plan_shard_merge [] c = inl too_few_shards
  plan_shard_merge (id ∷ []) c = inl too_few_shards
  plan_shard_merge (id ∷ id' ∷ ids) c =
      merge_plan (id ∷ id' ∷ ids) id (sum_load (id ∷ id' ∷ ids) c.assignments 0 (lit 0 1))

unfoldable pub collect : List ℕ → Map ℕ ShardAssignment → List ℕ
collect [] m = []
collect (id ∷ ids) m = elim (lookup id m) [
  | none ↦ collect ids m
  | some a ↦ a.virtual_shards ++ collect ids m
]

unfoldable pub delete_sources : ℕ → List ℕ → Map ℕ ShardAssignment → Map ℕ ShardAssignment
delete_sources target [] m = m
delete_sources target (id ∷ ids) m =
    delete_sources target ids (if id == target then m else delete id m)

-- The new epoch of a merge: what lines 250 to 282 build.
unfoldable pub merge_epoch : {F : Type 0} → Word → ShardMergePlan F → ShardCoordinator → EpochConfig
merge_epoch now plan c =
    let e = prepare_new_epoch now "Shard merge" c in
    let vs = collect plan.source_shards c.current_epoch.assignments in
    record e {
      assignments =
          delete_sources plan.target_shard plan.source_shards
            (insert plan.target_shard (new_assignment e.epoch plan.target_shard vs) e.assignments);
      virtual_to_physical = map_all plan.target_shard vs e.virtual_to_physical;
    }

-- `plan.SourceShards[0]` panics on a plan with no source shard: `none`.
unfoldable pub source_of : List ℕ → Option ℕ
source_of [] = none
source_of (id ∷ ids) = some id

unfoldable pub finish_merge :
    (ℕ → Word) → RebalanceAction → ShardCoordinator × Option Err → ShardCoordinator × Option Err
finish_merge now action (c, some err) = (fail_action action err c, some err)
finish_merge now action (c, none) = (
  record c {
    merge_count = add64 c.merge_count 1;
    active_actions = delete action.id c.active_actions;
    action_history = c.action_history ++ (complete_action (now 5) action ∷ []);
  },
  none,
)

unfoldable pub execute_shard_merge :
    {F : Type 0}
    → (ℕ → Word)
    → ShardMergePlan F
    → ShardCoordinator
    → Option (ShardCoordinator × Option Err)
unfolding source_of finish_merge
execute_shard_merge now plan c = elim (source_of plan.source_shards) [
  | none ↦ none
  | some source ↦
      let action =
        record (in_progress_action now merge_shard plan.target_shard plan.target_shard 5
          "Shards underutilized") { source_shard = source } in
      let c₁ = start_action now action c in
      some (finish_merge now action (transition_to_epoch (now 4) (merge_epoch (now 3) plan c₁) c₁))
]
