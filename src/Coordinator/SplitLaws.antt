-- ===== src/Coordinator/SplitLaws.antt =====
-- What the execution of a split does to the coordinator, of any plan.
use true_now.Base.{
  ℕ, ◌≡◌, ◌↔◌, refl, Option, none, some, List, [], ◌∷◌, ◌++◌, length, latest, max, nat_eq,
  Option-cases, inl, inr,
}
use true_now.Base.Word.{Word, add64}
use true_now.Base.Map.{Map, insert, delete}
use true_now.Coordinator.{
  EpochConfig, ShardCoordinator, Err, RebalanceAction, ActionId, split_shard, action_id,
  in_progress, id_eq,
}
use true_now.Coordinator.Epoch.{notify, transition_to_epoch, activate}
use true_now.Coordinator.Split.{
  ShardSplitPlan, start_action, in_progress_action, complete_action, keep_last_100, split_epoch,
  execute_shard_split,
}
use true_now.Coordinator.Transition.{IsConsistent, transition_to_epoch_lem}
use true_now.Coordinator.Division.{HasDivided, split_epoch-HasDivided}
use true_now.Coordinator.Actions.{
  finished, HasActive, HasFailed, fail_action-HasFailed, delete-HasActive, keep_last_100-latest,
}

module _ {F : Type 0} (now : ℕ → Word) (plan : ShardSplitPlan F) (c : ShardCoordinator) where
  -- The action of the split, as the coordinator starts it.
  abbrev pub action_of : RebalanceAction
  action_of = record {
    id = action_id split_shard plan.source_shard (now 0);
    action_type = split_shard;
    source_shard = plan.source_shard;
    target_shard = 0;
    salt_changes = [];
    reason = "Shard overloaded";
    priority = 10;
    created_at = now 1;
    started_at = some (now 2);
    completed_at = none;
    status = in_progress;
    error = none;
  }

  -- The epoch that the split would enter.
  abbrev pub epoch_of : EpochConfig
  epoch_of = split_epoch (now 3) plan (start_action now action_of c)

  -- The coordinator in that epoch, with one more split, for some active actions and a history.
  abbrev pub in_epoch : Map ActionId RebalanceAction → List RebalanceAction → ShardCoordinator
  in_epoch actions history = record c {
    current_epoch = record epoch_of { activated_at = some (now 4) };
    epoch_counter = epoch_of.epoch;
    assignments = epoch_of.assignments;
    split_count = add64 c.split_count 1;
    active_actions = actions;
    action_history = history;
  }

  -- The coordinator after a split that entered its epoch.
  pub record HasSplit (c' : ShardCoordinator) : Type 0 where
    pub entered : c' ≡ in_epoch c'.active_actions c'.action_history
    pub active_no_more : HasActive action_of.id none c c'
    pub history :
        c'.action_history
        ≡ latest
            (max 100 (length c.action_history))
            (c.action_history ++ (finished (now 5) action_of ∷ []))

  -- The coordinator as the code leaves it then.
  abbrev after_split : ShardCoordinator
  after_split =
      in_epoch (delete action_of.id (insert action_of.id action_of c.active_actions))
        (keep_last_100 (c.action_history ++ (finished (now 5) action_of ∷ [])))

  after_split-HasSplit : HasSplit after_split
  after_split-HasSplit = record {
    entered = refl;
    active_no_more = delete-HasActive action_of c after_split refl;
    history = keep_last_100-latest c.action_history (finished (now 5) action_of);
  }

  -- What a split has come to, by the error that it returns.
  abbrev pub SplitOutcome : ShardCoordinator → Option Err → Type 0
  SplitOutcome c' none = HasSplit c'
  SplitOutcome c' (some err) = HasFailed action_of err c c'

  epoch_of-HasDivided : HasDivided plan c epoch_of
  unfolding start_action
  epoch_of-HasDivided =
      let d = split_epoch-HasDivided (now 3) plan (start_action now action_of c) in
      record { number = d.number; shards = d.shards; holders = d.holders; mapping = d.mapping }

  -- The epoch of a split has the next number; the source is gone from it, the planned shards hold the
  -- pieces that the plan gives them, and the other shards what they held; the virtual shards of the
  -- pieces are mapped to the shards of the pieces (one that is in several to the last of these in the
  -- order of the plan's map), and the others as before. The split returns no error exactly if that epoch is consistent and the
  -- callback has nothing against it. Then the coordinator is in that epoch with its assignments, one
  -- more split is counted, the action, as completed, is the last of the history, which keeps its last
  -- 100 entries (or as many as it had, if it had more), and is active no more. On an error all stays
  -- as it was, but for the action, which is active, failed and with the error.
  pub execute_shard_split_lem :
      let (c', err) = execute_shard_split now plan c in
      HasDivided plan c epoch_of
      × ((err ≡ none) ↔ (IsConsistent epoch_of × (notify c.on_epoch_change epoch_of ≡ none)))
      × SplitOutcome c' err
  unfolding execute_shard_split start_action activate in_progress_action complete_action
  execute_shard_split_lem =
      let c₁ = start_action now action_of c in
      let t = transition_to_epoch_lem (now 4) epoch_of c₁ in
      elim (Option-cases (transition_to_epoch (now 4) epoch_of c₁).1) [
        | inl e ↦
            let entered : (transition_to_epoch (now 4) epoch_of c₁).0
                ≡ activate (now 4) epoch_of c₁ =
              rw e at (t.1) in
            rw (e, execute_shard_split)
              (epoch_of-HasDivided, ((λ _. t.0.0 e), (λ _. refl)), rw entered after_split-HasSplit)
        | inr (err, e) ↦
            let same : (transition_to_epoch (now 4) epoch_of c₁).0 ≡ c₁ = rw e at (t.1) in
            rw (e, execute_shard_split)
              (
                epoch_of-HasDivided,
                ((λ h. absurd (cc h)), (λ h. absurd (cc (t.0.1 h, e)))),
                rw same (fail_action-HasFailed now action_of err c),
              )
      ]
