-- ===== src/Coordinator/PlannedSplit.antt =====
-- What a split does that was planned for the coordinator's state.
use true_now.Base.{
  ℕ, ◌+◌, ◌^◌, ◌≤◌, ◌<◌, ◌≡◌, refl, sym, ap, subst, true, false, none, some, List, [], ◌∷◌, arith,
  if◌then◌else◌, eqb, nat_eq, All, All-map, length, Option-cases, inl, inr, ◌⊎◌,
}
use true_now.Base.Word.{Word, add64}
use true_now.Base.Float.{Float64}
use true_now.Base.Map.{Map, lookup, contains}
use true_now.Coordinator.{
  ShardAssignment, EpochConfig, ShardCoordinator, ActionId, RebalanceAction, Err, id_eq,
  get_next_shard_id,
}
use true_now.Coordinator.Epoch.{mem, prepare_new_epoch, notify}
use true_now.Coordinator.Split.{
  ShardSplitPlan, plan_shard_split, make_split_plan, calculate_optimal_split_count, assign_ids,
  remap, start_action, split_epoch, execute_shard_split,
}
use true_now.Coordinator.Ids.{
  AreDistinct, calculate_optimal_split_count_bounds, length-assign_ids, assign_ids_bounds,
  assign_ids-AreDistinct, next-absent,
}
use true_now.Coordinator.Ownership.{held, HasUniqueKeys}
use true_now.Coordinator.Pieces.{AreAbsent}
use true_now.Coordinator.SplitEpoch.{
  split_of, final_of, held-final, final-HasUniqueKeys, contains-final, mapped-final,
}
use true_now.Coordinator.Transition.{IsConsistent}
use true_now.Coordinator.Validity.{IsValid, holds, holds-contains, small-All}
use true_now.Coordinator.SplitLaws.{epoch_of, in_epoch, HasSplit, execute_shard_split_lem}

module _ (fl : Float64) (now : ℕ → Word) (id : ℕ) (rps : fl.F) (c : ShardCoordinator) where
  abbrev count_of : ℕ
  count_of = calculate_optimal_split_count fl rps

  abbrev ids_of : List ℕ
  ids_of = assign_ids count_of (get_next_shard_id c)

  -- A plan is made of the assignment of a shard that is there.
  plan_found :
      (plan : ShardSplitPlan fl.F)
      → plan_shard_split fl id rps c ≡ inr plan
      → (a : ShardAssignment) × (lookup id c.assignments ≡ some a)
        × (make_split_plan fl id count_of (get_next_shard_id c) a.virtual_shards ≡ plan)
  unfolding plan_shard_split
  plan_found plan e = elim (Option-cases (lookup id c.assignments)) [
    | inl missing ↦ absurd (cc (rw (missing, plan_shard_split) at e))
    | inr (a, found) ↦
        let made : ◌≡◌ {A = Err ⊎ ShardSplitPlan fl.F}
            (inr (make_split_plan fl id count_of (get_next_shard_id c) a.virtual_shards))
            (inr plan) =
          rw (found, plan_shard_split) at e in
        (a, found, cc)
  ]

  ids_absent :
      (ids : List ℕ)
      → IsValid c
      → get_next_shard_id c < 2 ^ 31
      → All (λ k. (get_next_shard_id c ≤ k) × (k < 2 ^ 31)) ids
      → AreAbsent ids c.assignments
  ids_absent ids v room bounds =
      All-map (λ k. (get_next_shard_id c ≤ k) × (k < 2 ^ 31))
        (λ k. contains k c.assignments ≡ false) ids
        (λ k b. next-absent k c (small-All c.assignments v.small) b.0 room) bounds

  -- What a split does that was planned for this state.
  Succeeds : ShardSplitPlan fl.F → Type 0
  Succeeds plan =
      let (c', err) = execute_shard_split now plan c in
      (err ≡ none)
      × IsValid c'
      × ((v : ℕ) → held v c'.assignments ≡ held v c.assignments)
      × ((k : ℕ)
          → contains k c'.assignments ≡ (
              if eqb id k
              then false
              else if mem k plan.new_shards
              then true
              else contains k c.assignments))

  module _ (v : IsValid c) (room : get_next_shard_id c + 4 < 2 ^ 31)
      (silent : c.on_epoch_change ≡ none) (a : ShardAssignment)
      (found : lookup id c.assignments ≡ some a) where
    abbrev plan_of : ShardSplitPlan fl.F
    plan_of = make_split_plan fl id count_of (get_next_shard_id c) a.virtual_shards

    bounds : All (λ k. (get_next_shard_id c ≤ k) × (k < 2 ^ 31)) ids_of
    bounds =
        assign_ids_bounds count_of (get_next_shard_id c) (get_next_shard_id c) (omega arith)
          (omega (arith, calculate_optimal_split_count_bounds fl rps))

    distinct : AreDistinct ids_of
    distinct =
        assign_ids-AreDistinct count_of (get_next_shard_id c)
          (omega (arith, calculate_optimal_split_count_bounds fl rps))

    absent : AreAbsent ids_of c.assignments
    absent = ids_absent ids_of v (omega arith) bounds

    abbrev e : EpochConfig
    e = epoch_of now plan_of c

    abbrev number : Word
    number = add64 c.epoch_counter 1

    abbrev split : Map ℕ (List ℕ)
    split = split_of count_of ids_of a.virtual_shards

    e_assignments : e.assignments ≡ final_of number id split ids_of c.assignments
    unfolding split_epoch prepare_new_epoch make_split_plan start_action
    e_assignments = ap (final_of number id split ids_of) (sym v.sync)

    e_mapping : e.virtual_to_physical ≡ remap split c.current_epoch.virtual_to_physical
    unfolding split_epoch prepare_new_epoch make_split_plan start_action
    e_mapping = refl

    ids_number : length ids_of ≡ count_of
    ids_number = length-assign_ids count_of (get_next_shard_id c)

    ids_some : 0 < count_of
    ids_some = omega (arith, calculate_optimal_split_count_bounds fl rps)

    held-e : (w : ℕ) → held w e.assignments ≡ held w c.assignments
    held-e w = rw e_assignments (
        held-final number id a count_of ids_of c.assignments [] found v.unique distinct absent
          ids_number ids_some w)

    contains-e :
        (k : ℕ)
        → contains k e.assignments
          ≡ (if eqb id k then false else if mem k ids_of then true else contains k c.assignments)
    contains-e k = rw e_assignments (
        contains-final number id a count_of ids_of c.assignments [] found v.unique distinct absent
          ids_number ids_some k)

    unique-e : HasUniqueKeys e.assignments
    unique-e = rw e_assignments (
        final-HasUniqueKeys number id a count_of ids_of c.assignments [] found v.unique distinct
          absent ids_number ids_some)

    mapped-e :
        All (λ entry. holds e.assignments entry.0 entry.1 ≡ true) e.virtual_to_physical
        × HasUniqueKeys e.virtual_to_physical
    mapped-e =
        rw (e_mapping, e_assignments)
          (mapped-final number id a count_of ids_of c.assignments
            c.current_epoch.virtual_to_physical found v.unique distinct absent ids_number ids_some
            v.unique_map v.mapped)

    IsConsistent-e : IsConsistent e
    IsConsistent-e = record {
      once = λ w. omega (arith, held-e w, v.once w);
      mapped =
          All-map (λ entry. holds e.assignments entry.0 entry.1 ≡ true) _ e.virtual_to_physical
            (λ entry. holds-contains e.assignments entry.0 entry.1) mapped-e.0;
    }

    small_member :
        (k : ℕ) (ids : List ℕ)
        → All (λ j. (get_next_shard_id c ≤ j) × (j < 2 ^ 31)) ids
        → mem k ids ≡ true
        → k < 2 ^ 31
    unfolding mem
    small_member k [] b h = ground arith
    small_member k (x ∷ ids) b h = ground (arith, small_member k ids b.1)

    small-e : (k : ℕ) → contains k e.assignments ≡ true → k < 2 ^ 31
    small-e k has = ground (arith, contains-e k, small_member k ids_of bounds, v.small k)

    IsValid-e :
        (actions : Map ActionId RebalanceAction) (history : List RebalanceAction)
        → IsValid (in_epoch now plan_of c actions history)
    IsValid-e actions history = record {
      sync = refl;
      counted = refl;
      unique = unique-e;
      unique_map = mapped-e.1;
      once = IsConsistent-e.once;
      mapped = mapped-e.0;
      small = small-e;
    }

    succeeds : Succeeds plan_of
    unfolding Succeeds notify make_split_plan assign_ids
    succeeds =
        let t = execute_shard_split_lem now plan_of c in
        let ok_ : (execute_shard_split now plan_of c).1 ≡ none =
          t.1.1 (IsConsistent-e, rw silent refl) in
        let c' = (execute_shard_split now plan_of c).0 in
        let done : HasSplit now plan_of c c' = rw ok_ at (t.2) in
        (
          ok_,
          subst IsValid (sym done.entered) (IsValid-e c'.active_actions c'.action_history),
          rw done.entered held-e,
          rw done.entered contains-e,
        )

  -- A split that is planned and executed at once succeeds, if the coordinator is valid, the five
  -- numbers after the highest ID are int32 values that are not negative, and there is no callback.
  -- The coordinator is valid again; each virtual shard is held as often as before, thus by one
  -- shard if it was held; and the shards are those of before, the planned ones for the split one.
  pub execute-plan_shard_split :
      (plan : ShardSplitPlan fl.F)
      → IsValid c
      → get_next_shard_id c + 4 < 2 ^ 31
      → c.on_epoch_change ≡ none
      → plan_shard_split fl id rps c ≡ inr plan
      → let (c', err) = execute_shard_split now plan c in
        (err ≡ none)
        × IsValid c'
        × ((v : ℕ) → held v c'.assignments ≡ held v c.assignments)
        × ((k : ℕ)
            → contains k c'.assignments ≡ (
                if eqb id k
                then false
                else if mem k plan.new_shards
                then true
                else contains k c.assignments))
  unfolding Succeeds
  execute-plan_shard_split plan v room silent planned =
      let (a, found, made) = plan_found plan planned in
      subst Succeeds made (succeeds v room silent a found)
