-- ===== src/Coordinator/MergeLaws.antt =====
-- What the execution of a merge does to the coordinator.
use true_now.Base.{
  ℕ, ◌≡◌, ◌↔◌, refl, Option, none, some, List, [], ◌∷◌, ◌++◌, Option-cases, inl, inr,
}
use true_now.Base.Word.{Word, add64}
use true_now.Base.Map.{insert, delete}
use true_now.Coordinator.{
  EpochConfig, ShardCoordinator, Err, RebalanceAction, merge_shard, action_id, in_progress, id_eq,
}
use true_now.Coordinator.Epoch.{notify, transition_to_epoch, activate}
use true_now.Coordinator.Split.{start_action, fail_action, in_progress_action, complete_action}
use true_now.Coordinator.Merge.{
  ShardMergePlan, merge_epoch, source_of, finish_merge, execute_shard_merge,
}
use true_now.Coordinator.Transition.{IsConsistent, transition_to_epoch_lem}
use true_now.Coordinator.Actions.{
  finished, HasActive, HasFailed, fail_action-HasFailed, delete-HasActive,
}
use true_now.Coordinator.MergeEpoch.{HasMerged, merge_epoch-HasMerged}

module _ {F : Type 0} (now : ℕ → Word) (source : ℕ) (sources : List ℕ) (target : ℕ) (keys : Word)
    (load : F) (c : ShardCoordinator) where
  abbrev pub plan_of : ShardMergePlan F
  plan_of = record {
    source_shards = source ∷ sources;
    target_shard = target;
    total_keys = keys;
    estimated_load = load;
  }

  -- The action of the merge, as the coordinator starts it.
  abbrev pub action_of : RebalanceAction
  action_of = record {
    id = action_id merge_shard target (now 0);
    action_type = merge_shard;
    source_shard = source;
    target_shard = target;
    salt_changes = [];
    reason = "Shards underutilized";
    priority = 5;
    created_at = now 1;
    started_at = some (now 2);
    completed_at = none;
    status = in_progress;
    error = none;
  }

  -- The epoch that the merge would enter.
  abbrev pub epoch_of : EpochConfig
  epoch_of = merge_epoch (now 3) plan_of (start_action now action_of c)

  epoch_of-HasMerged : HasMerged plan_of c epoch_of
  unfolding start_action
  epoch_of-HasMerged =
      let m = merge_epoch-HasMerged (now 3) plan_of (start_action now action_of c) in
      record { number = m.number; shards = m.shards; holders = m.holders; mapping = m.mapping }

  -- The coordinator after a merge that entered its epoch, by its active actions.
  pub record HasEntered (c' : ShardCoordinator) : Type 0 where
    pub entered : c' ≡ record c {
      current_epoch = record epoch_of { activated_at = some (now 4) };
      epoch_counter = epoch_of.epoch;
      assignments = epoch_of.assignments;
      merge_count = add64 c.merge_count 1;
      active_actions = c'.active_actions;
      action_history = c.action_history ++ (finished (now 5) action_of ∷ []);
    }
    pub active_no_more : HasActive action_of.id none c c'

  -- The coordinator as the code leaves it then.
  abbrev after_merge : ShardCoordinator
  after_merge = record c {
    current_epoch = record epoch_of { activated_at = some (now 4) };
    epoch_counter = epoch_of.epoch;
    assignments = epoch_of.assignments;
    merge_count = add64 c.merge_count 1;
    active_actions = delete action_of.id (insert action_of.id action_of c.active_actions);
    action_history = c.action_history ++ (finished (now 5) action_of ∷ []);
  }

  after_merge-HasEntered : HasEntered after_merge
  after_merge-HasEntered = record {
    entered = refl;
    active_no_more = delete-HasActive action_of c after_merge refl;
  }

  -- What a merge has come to, by the error that it returns.
  abbrev pub MergeOutcome : ShardCoordinator → Option Err → Type 0
  MergeOutcome c' none = HasEntered c'
  MergeOutcome c' (some err) = HasFailed action_of err c c'

  -- The execution of a merge plan with a source shard does not panic. Its epoch has the next number;
  -- the target in it holds the virtual shards that the sources held, each as often as they did
  -- together, which are mapped to the target; the other sources are gone; and the other shards and
  -- the mapping of the other virtual shards are as before. It returns no error exactly if that epoch
  -- is consistent and the callback has nothing against it. Then the coordinator is in that epoch with
  -- its assignments, one more merge is counted, and the action, as completed, stands at the end of the
  -- history and is active no more. Otherwise all stays as it was, but for the action, which is active,
  -- failed and with the error.
  pub execute_shard_merge_lem :
      (c' : ShardCoordinator) × (err : Option Err) × (execute_shard_merge now plan_of c
        ≡ some (c', err))
      × HasMerged plan_of c epoch_of
      × ((err ≡ none) ↔ (IsConsistent epoch_of × (notify c.on_epoch_change epoch_of ≡ none)))
      × MergeOutcome c' err
  unfolding execute_shard_merge start_action activate finish_merge source_of in_progress_action
      complete_action
  execute_shard_merge_lem =
      let c₁ = start_action now action_of c in
      let t = transition_to_epoch_lem (now 4) epoch_of c₁ in
      elim (Option-cases (transition_to_epoch (now 4) epoch_of c₁).1) [
        | inl e ↦
            let entered : (transition_to_epoch (now 4) epoch_of c₁).0
                ≡ activate (now 4) epoch_of c₁ =
              rw e at (t.1) in
            (
              after_merge,
              none,
              rw (e, entered, finish_merge) refl,
              epoch_of-HasMerged,
              ((λ _. t.0.0 e), (λ _. refl)),
              after_merge-HasEntered,
            )
        | inr (err, e) ↦
            let same : (transition_to_epoch (now 4) epoch_of c₁).0 ≡ c₁ = rw e at (t.1) in
            (
              fail_action action_of err c₁,
              some err,
              rw (e, same, finish_merge) refl,
              epoch_of-HasMerged,
              ((λ h. absurd (cc h)), (λ h. absurd (cc (t.0.1 h, e)))),
              fail_action-HasFailed now action_of err c,
            )
      ]
