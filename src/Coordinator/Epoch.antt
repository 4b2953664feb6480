-- ===== src/Coordinator/Epoch.antt =====
-- Epochs: how a new one is prepared, validated and entered.
use true_now.Base.{
  ℕ, ◌/◌, ◌-◌, ◌^◌, String, Bool, true, false, Option, none, some, List, [], ◌∷◌, if◌then◌else◌,
  nat_eq, ◌==◌, ◌⊎◌, inl, inr,
}
use true_now.Base.Word.{Word, add64, mul64, add32, slt32, extend32}
use true_now.Base.Map.{Map, contains}
use true_now.Base.Sort.{sort}
use true_now.Coordinator.{
  ShardAssignment, EpochConfig, ShardCoordinator, Err, assigned_twice, physical_not_found,
  callback_failed,
}

unfoldable pub stamp_all : Word → Map ℕ ShardAssignment → Map ℕ ShardAssignment
stamp_all epoch [] = []
stamp_all epoch ((shard_id, a) ∷ m) = (shard_id, record a { epoch = epoch }) ∷ stamp_all epoch m

unfoldable pub prepare_new_epoch : Word → String → ShardCoordinator → EpochConfig
prepare_new_epoch now reason c =
    let epoch = add64 c.epoch_counter 1 in
    record {
      epoch = epoch;
      assignments = stamp_all epoch c.current_epoch.assignments;
      virtual_to_physical = c.current_epoch.virtual_to_physical;
      created_at = now;
      activated_at = none;
      reason = reason;
    }

-- `virtualShards[v]` is the test whether `v` is in `seen`.
unfoldable pub mem : ℕ → List ℕ → Bool
mem v [] = false
mem v (x ∷ xs) = if x == v then true else mem v xs

-- The inner loop of the first check: the shards seen, or the one met twice.
unfoldable pub mark_all : List ℕ → List ℕ → Err ⊎ List ℕ
mark_all seen [] = inr seen
mark_all seen (v ∷ vs) =
    let rest = mark_all (v ∷ seen) vs in if mem v seen then inl (assigned_twice v) else rest

unfoldable pub check_assignments : List ℕ → Map ℕ ShardAssignment → Option Err
check_assignments seen [] = none
check_assignments seen ((shard_id, a) ∷ m) = elim (mark_all seen a.virtual_shards) [
  | inl err ↦ some err
  | inr seen' ↦ check_assignments seen' m
]

unfoldable pub check_mapping : Map ℕ ShardAssignment → Map ℕ ℕ → Option Err
check_mapping assignments [] = none
check_mapping assignments ((v, p) ∷ m) =
    let rest = check_mapping assignments m in
    if contains p assignments then rest else some (physical_not_found p)

unfoldable pub validate_epoch : EpochConfig → Option Err
validate_epoch e = elim (check_assignments [] e.assignments) [
  | some err ↦ some err
  | none ↦ check_mapping e.assignments e.virtual_to_physical
]

-- What the callback says of the new epoch.
unfoldable pub notify : Option (EpochConfig → Option String) → EpochConfig → Option Err
notify none e = none
notify (some callback) e = elim (callback e) [
  | none ↦ none
  | some text ↦ some (callback_failed text)
]

unfoldable pub activate : Word → EpochConfig → ShardCoordinator → ShardCoordinator
activate now e c = record c {
  current_epoch = record e { activated_at = some now };
  epoch_counter = e.epoch;
  assignments = e.assignments;
}

unfoldable pub transition_to_epoch :
    Word → EpochConfig → ShardCoordinator → ShardCoordinator × Option Err
transition_to_epoch now e c = elim (validate_epoch e) [
  | some err ↦ (c, some err)
  | none ↦ elim (notify c.on_epoch_change e) [
    | some err ↦ (c, some err)
    | none ↦ (activate now e c, none)
  ]
]

abbrev pub range_size : Word
range_size = (2 ^ 64 - 1) / 1000

last_of_list : ℕ → List ℕ → ℕ
last_of_list x [] = x
last_of_list x (y ∷ ys) = last_of_list y ys

key_range : List ℕ → Word × Word
unfolding last_of_list
key_range [] = (0, 0)
key_range (x ∷ xs) =
    (mul64 (extend32 x) range_size, mul64 (extend32 (add32 (last_of_list x xs) 1)) range_size)

unfoldable pub calculate_key_range : List ℕ → Word × Word
unfolding key_range
calculate_key_range virtual_shards = key_range (sort slt32 virtual_shards)
