-- ===== src/Coordinator/Split.antt =====
-- Shard splits: the plan, and its execution as a new epoch.
use true_now.Base.{
  ℕ, zero, suc, ◌+◌, ◌-◌, ◌/◌, ◌%◌, ◌^◌, String, Option, none, some, List, [], ◌∷◌, ◌++◌,
  if◌then◌else◌, ltb, nat_eq, length, take, drop, ◌⊎◌, inl, inr,
}
use true_now.Base.Word.{Word, add64, add32, slt}
use true_now.Base.Float.{Float64}
use true_now.Base.Map.{Map, lookup, insert, delete}
use true_now.Coordinator.{
  ShardAssignment, EpochConfig, ShardCoordinator, Err, shard_not_found, RebalanceAction, ActionType,
  split_shard, action_id, in_progress, completed, failed, active, id_eq, get_next_shard_id,
}
use true_now.Coordinator.Epoch.{prepare_new_epoch, transition_to_epoch, calculate_key_range}

pub record ShardSplitPlan (F : Type 0) : Type 0 where
  pub source_shard : ℕ
  pub new_shards : List ℕ
  pub key_distribution : Map ℕ (List String)
  pub virtual_shard_split : Map ℕ (List ℕ)
  pub estimated_balance : F

-- The new IDs: `count` of them from `next` on.
unfoldable pub assign_ids : ℕ → ℕ → List ℕ
assign_ids zero next = []
assign_ids (suc count) next = next ∷ assign_ids count (add32 next 1)

unfoldable pub no_keys : List ℕ → Map ℕ (List String) → Map ℕ (List String)
no_keys [] m = m
no_keys (id ∷ ids) m = no_keys ids (insert id [] m)

-- The loop that hands out the virtual shards that are left, each new shard getting `per_new` of
-- them, and the first `remainder` ones one more.
unfoldable pub distribute : ℕ → ℕ → List ℕ → List ℕ → Map ℕ (List ℕ) → Map ℕ (List ℕ)
distribute per_new remainder [] left m = m
distribute per_new remainder (id ∷ ids) left m =
    let count = if ltb 0 remainder then per_new + 1 else per_new in
    distribute per_new (remainder - 1) ids (drop count left) (insert id (take count left) m)

module _ (fl : Float64) where
  open fl use {F, lit, div, ceil, of_int64, to_int64}

  unfoldable pub calculate_optimal_split_count : F → ℕ
  calculate_optimal_split_count requests_per_second =
      let split_count = to_int64 (ceil (div requests_per_second (lit 10000 1))) % 2 ^ 64 in
      let at_least = if slt split_count 2 then 2 else split_count in
      if slt 4 at_least then 4 else at_least

  unfoldable pub make_split_plan : ℕ → ℕ → ℕ → List ℕ → ShardSplitPlan F
  unfolding distribute no_keys assign_ids
  make_split_plan shard_id split_count next virtual_shards =
      let ids = assign_ids split_count next in
      record {
        source_shard = shard_id;
        new_shards = ids;
        key_distribution = no_keys ids [];
        virtual_shard_split =
            distribute (length virtual_shards / split_count) (length virtual_shards % split_count)
              ids virtual_shards [];
        estimated_balance = div (lit 1 1) (of_int64 split_count);
      }

  unfoldable pub plan_shard_split : ℕ → F → ShardCoordinator → Err ⊎ ShardSplitPlan F
  plan_shard_split shard_id requests_per_second c = elim (lookup shard_id c.assignments) [
    | none ↦ inl (shard_not_found shard_id)
    | some a ↦ inr (
        make_split_plan shard_id (calculate_optimal_split_count requests_per_second)
          (get_next_shard_id c) a.virtual_shards)
  ]

-- What a map of slices gives for a key that it lacks is the empty slice.
unfoldable pub shards_of : ℕ → Map ℕ (List ℕ) → List ℕ
shards_of id m = elim (lookup id m) [ none ↦ [] | some vs ↦ vs ]

unfoldable pub new_assignment : Word → ℕ → List ℕ → ShardAssignment
new_assignment epoch id virtual_shards =
    let (start, end) = calculate_key_range virtual_shards in
    record {
      shard_id = id;
      virtual_shards = virtual_shards;
      key_range_start = start;
      key_range_end = end;
      salted_keys = [];
      replicas = [];
      state = active;
      owner = "";
      epoch = epoch;
    }

unfoldable pub add_assignments :
    Word → Map ℕ (List ℕ) → List ℕ → Map ℕ ShardAssignment → Map ℕ ShardAssignment
add_assignments epoch split [] m = m
add_assignments epoch split (id ∷ ids) m =
    add_assignments epoch split ids (insert id (new_assignment epoch id (shards_of id split)) m)

-- The virtual shards listed now belong to `id`.
unfoldable pub map_all : ℕ → List ℕ → Map ℕ ℕ → Map ℕ ℕ
map_all id [] m = m
map_all id (v ∷ vs) m = map_all id vs (insert v id m)

unfoldable pub remap : Map ℕ (List ℕ) → Map ℕ ℕ → Map ℕ ℕ
remap [] m = m
remap ((id, vs) ∷ split) m = remap split (map_all id vs m)

-- The start of an execution: an action in progress, among the active ones.
unfoldable pub start_action : (ℕ → Word) → RebalanceAction → ShardCoordinator → ShardCoordinator
start_action now action c = record c { active_actions = insert action.id action c.active_actions }

unfoldable pub fail_action : RebalanceAction → Err → ShardCoordinator → ShardCoordinator
fail_action action err c = record c {
  active_actions =
      insert action.id (record action { status = failed; error = some err }) c.active_actions;
}

-- The action as it stands once it has been started, and as it goes into the history.
unfoldable pub in_progress_action : (ℕ → Word) → ActionType → ℕ → ℕ → ℕ → String → RebalanceAction
in_progress_action now action_type source target priority reason = record {
  id = action_id action_type source (now 0);
  action_type = action_type;
  source_shard = source;
  target_shard = target;
  salt_changes = [];
  reason = reason;
  priority = priority;
  created_at = now 1;
  started_at = some (now 2);
  completed_at = none;
  status = in_progress;
  error = none;
}

unfoldable pub complete_action : Word → RebalanceAction → RebalanceAction
complete_action now action = record action { status = completed; completed_at = some now }

-- Of a history of more than 100 the oldest goes.
unfoldable pub keep_last_100 : List RebalanceAction → List RebalanceAction
keep_last_100 history = if ltb 100 (length history) then drop 1 history else history

-- The new epoch of a split: what lines 140 to 165 build.
unfoldable pub split_epoch : {F : Type 0} → Word → ShardSplitPlan F → ShardCoordinator → EpochConfig
split_epoch now plan c =
    let e = prepare_new_epoch now "Shard split" c in
    record e {
      assignments =
          delete plan.source_shard
            (add_assignments e.epoch plan.virtual_shard_split plan.new_shards e.assignments);
      virtual_to_physical = remap plan.virtual_shard_split e.virtual_to_physical;
    }

unfoldable pub execute_shard_split :
    {F : Type 0} → (ℕ → Word) → ShardSplitPlan F → ShardCoordinator → ShardCoordinator × Option Err
execute_shard_split now plan c =
    let action = in_progress_action now split_shard plan.source_shard 0 10 "Shard overloaded" in
    let c₁ = start_action now action c in
    let (c₂, err) = transition_to_epoch (now 4) (split_epoch (now 3) plan c₁) c₁ in
    elim err [
      | some e ↦ (fail_action action e c₂, some e)
      | none ↦ (
        record c₂ {
          split_count = add64 c₂.split_count 1;
          active_actions = delete action.id c₂.active_actions;
          action_history =
              keep_last_100 (c₂.action_history ++ (complete_action (now 5) action ∷ []));
        },
        none,
      )
    ]
