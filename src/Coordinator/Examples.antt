-- ===== src/Coordinator/Examples.antt =====
-- The theorems on a coordinator with two shards.
use true_now.Base.{
  ℕ, ◌+◌, ◌≡◌, ◌↔◌, refl, String, true, false, Option, none, some, List, [], ◌∷◌, arith,
  if◌then◌else◌, eqb, nat_eq, string_eq, inr,
}
use true_now.Base.Word.{Word}
use true_now.Base.Float.{whole_float}
use true_now.Base.Map.{Map, lookup, insert, contains}
use true_now.Coordinator.{
  ShardAssignment, EpochConfig, ShardCoordinator, Err, active, get_next_shard_id,
}
use true_now.Coordinator.Epoch.{validate_epoch, transition_to_epoch, notify, mem}
use true_now.Coordinator.Split.{
  ShardSplitPlan, plan_shard_split, execute_shard_split, make_split_plan,
  calculate_optimal_split_count, assign_ids, distribute, no_keys,
}
use true_now.Coordinator.Merge.{execute_shard_merge}
use true_now.Coordinator.Ownership.{held}
use true_now.Coordinator.Transition.{
  IsConsistent, validate_epoch_iff, transition_to_epoch_lem, is_none,
}
use true_now.Coordinator.Validity.{IsValid}
use true_now.Coordinator.Division.{HasDivided}
use true_now.Coordinator.SplitLaws.{epoch_of, SplitOutcome, execute_shard_split_lem}
use true_now.Coordinator.PlannedSplit.{execute-plan_shard_split}
use true_now.Coordinator.MergeLaws.{
  execute_shard_merge_lem, MergeOutcome, plan_of, epoch_of as merged_epoch,
}
use true_now.Coordinator.MergeEpoch.{HasMerged}

abbrev shard : ℕ → List ℕ → Map String String → ShardAssignment
shard id virtual_shards salts = record {
  shard_id = id;
  virtual_shards = virtual_shards;
  key_range_start = 0;
  key_range_end = 0;
  salted_keys = salts;
  replicas = [];
  state = active;
  owner = "";
  epoch = 4;
}

abbrev first : ShardAssignment
first = shard 1 (10 ∷ 11 ∷ 12 ∷ []) []

abbrev second_shard : ShardAssignment
second_shard = shard 2 (20 ∷ []) (("hot", "s0") ∷ [])

abbrev two_shards : Map ℕ ShardAssignment
two_shards = (1, first) ∷ (2, second_shard) ∷ []

abbrev fourth_epoch : EpochConfig
fourth_epoch = record {
  epoch = 4;
  assignments = two_shards;
  virtual_to_physical = (10, 1) ∷ (20, 2) ∷ [];
  created_at = 0;
  activated_at = some 0;
  reason = "Shard split";
}

abbrev coordinator : ShardCoordinator
coordinator = record {
  current_epoch = fourth_epoch;
  epoch_counter = 4;
  assignments = two_shards;
  active_actions = [];
  action_history = [];
  max_salted_keys_per_shard = 2;
  on_epoch_change = none;
  split_count = 3;
  merge_count = 0;
  salt_count = 1;
}

abbrev clock : ℕ → Word
clock k = 1_000 + k

coordinator-IsValid : IsValid coordinator
unfolding contains lookup
coordinator-IsValid = record {
  sync = refl;
  counted = refl;
  unique = ground arith;
  unique_map = ground arith;
  once = λ v. ground arith;
  mapped = (refl, (refl, tt));
  small = λ k h. ground arith;
}

validate_epoch_iff_example : (validate_epoch fourth_epoch ≡ none) ↔ IsConsistent fourth_epoch
validate_epoch_iff_example = validate_epoch_iff fourth_epoch

transition_to_epoch_lem_example :
    let (c', err) = transition_to_epoch 9 fourth_epoch coordinator in
    ((err ≡ none) ↔ (IsConsistent fourth_epoch × (notify none fourth_epoch ≡ none)))
    × (c' ≡ (
        if is_none err
        then record coordinator { current_epoch = record fourth_epoch { activated_at = some 9 } }
        else coordinator))
transition_to_epoch_lem_example = transition_to_epoch_lem 9 fourth_epoch coordinator

-- 30,000 requests a second on shard 1.
abbrev plan : ShardSplitPlan ℕ
plan = record {
  source_shard = 1;
  new_shards = 3 ∷ 4 ∷ 5 ∷ [];
  key_distribution = (3, []) ∷ (4, []) ∷ (5, []) ∷ [];
  virtual_shard_split = (3, 10 ∷ []) ∷ (4, 11 ∷ []) ∷ (5, 12 ∷ []) ∷ [];
  estimated_balance = 0;
}

execute_shard_split_lem_example :
    let (c', err) = execute_shard_split clock plan coordinator in
    let e = epoch_of clock plan coordinator in
    HasDivided plan coordinator e
    × ((err ≡ none) ↔ (IsConsistent e × (notify none e ≡ none)))
    × SplitOutcome clock plan coordinator c' err
execute_shard_split_lem_example = execute_shard_split_lem clock plan coordinator

planned : plan_shard_split whole_float 1 30_000 coordinator ≡ inr plan
unfolding plan_shard_split calculate_optimal_split_count get_next_shard_id make_split_plan
    assign_ids distribute no_keys lookup insert
planned = refl

execute-plan_shard_split_example :
    let (c', err) = execute_shard_split clock plan coordinator in
    (err ≡ none)
    × IsValid c'
    × ((v : ℕ) → held v c'.assignments ≡ held v two_shards)
    × ((k : ℕ)
        → contains k c'.assignments ≡ (
            if eqb 1 k
            then false
            else if mem k (3 ∷ 4 ∷ 5 ∷ [])
            then true
            else contains k two_shards))
unfolding get_next_shard_id
execute-plan_shard_split_example =
    execute-plan_shard_split whole_float clock 1 30_000 coordinator plan coordinator-IsValid
      (omega arith) refl planned

-- Shard 2 is merged into shard 1.
execute_shard_merge_lem_example :
    let merge = plan_of {F = ℕ} clock 1 (2 ∷ []) 1 4_000 4 coordinator in
    let e = merged_epoch {F = ℕ} clock 1 (2 ∷ []) 1 4_000 4 coordinator in
    (c' : ShardCoordinator) × (err : Option Err) × (execute_shard_merge clock merge coordinator
      ≡ some (c', err))
    × HasMerged merge coordinator e
    × ((err ≡ none) ↔ (IsConsistent e × (notify none e ≡ none)))
    × MergeOutcome {F = ℕ} clock 1 (2 ∷ []) 1 4_000 4 coordinator c' err
execute_shard_merge_lem_example = execute_shard_merge_lem clock 1 (2 ∷ []) 1 4_000 4 coordinator
