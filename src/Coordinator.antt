-- ===== src/Coordinator.antt =====
-- The rebalancer's shard coordinator (services/rebalancer/internal/coordinator/coordinator.go, with
-- the types of services/rebalancer/pkg/types/types.go): the data and the state. Its epochs, splits,
-- merges and salts are in the modules below. An int32 is its bit pattern. An operation runs alone,
-- and the k-th reading of the clock in it is `now k`.
pub mod Epoch
pub mod Split
pub mod Merge
pub mod Salt
pub mod Ownership
pub mod Transition
pub mod Ids
pub mod Pieces
pub mod Mapping
pub mod Validity
pub mod SplitEpoch
pub mod Actions
pub mod Division
pub mod SplitLaws
pub mod MergeEpoch
pub mod PlannedSplit
pub mod MergeLaws
pub mod SaltLaws
mod Examples
use true_now.Base.{
  ℕ, String, Bool, true, false, Option, none, some, List, [], ◌∷◌, ◌++◌, if◌then◌else◌, ◌&&◌, eqb,
  Eq, nat_eq, ◌≡◌, ◌↔◌, arith, eqb_iff, length,
}
use true_now.Base.Word.{Word, add32, slt32}
use true_now.Base.Map.{Map}

pub data ShardState : Type 0 where
  active splitting merging migrating draining : ShardState

pub record ShardAssignment : Type 0 where
  pub shard_id : ℕ
  pub virtual_shards : List ℕ
  pub key_range_start : Word
  pub key_range_end : Word
  pub salted_keys : Map String String
  pub replicas : List String
  pub state : ShardState
  pub owner : String
  pub epoch : Word

pub data ActionType : Type 0 where
  split_shard merge_shard migrate_keys add_salt remove_salt redistribute : ActionType

pub data ActionStatus : Type 0 where
  pending in_progress completed failed cancelled : ActionStatus

-- The text that `Sprintf` makes of a verb, a shard and a Unix time.
pub data ActionId : Type 0 where
  action_id : ActionType → ℕ → Word → ActionId

type_code : ActionType → ℕ
type_code split_shard = 0
type_code merge_shard = 1
type_code migrate_keys = 2
type_code add_salt = 3
type_code remove_salt = 4
type_code redistribute = 5

unfoldable pub same_id : ActionId → ActionId → Bool
unfolding type_code
same_id (action_id t s u) (action_id t' s' u') =
    eqb (type_code t) (type_code t') && (eqb s s' && eqb u u')

pub same_id_iff : (a b : ActionId) → (same_id a b ≡ true) ↔ (a ≡ b)
unfolding same_id
same_id_iff (action_id t s u) (action_id t' s' u') = ground arith

instance abbrev pub id_eq : Eq ActionId
id_eq = record { beq = same_id; beq_iff = same_id_iff }

-- The errors of the coordinator, with the values that their texts show.
pub data Err : Type 0 where
  shard_not_found : ℕ → Err
  too_few_shards : Err
  salt_limit_reached : ℕ → Err
  assigned_twice : ℕ → Err
  physical_not_found : ℕ → Err
  callback_failed : String → Err

pub record RebalanceAction : Type 0 where
  pub id : ActionId
  pub action_type : ActionType
  pub source_shard : ℕ
  pub target_shard : ℕ
  pub salt_changes : Map String String
  pub reason : String
  pub priority : ℕ
  pub created_at : Word
  pub started_at : Option Word
  pub completed_at : Option Word
  pub status : ActionStatus
  pub error : Option Err

pub record EpochConfig : Type 0 where
  pub epoch : Word
  pub assignments : Map ℕ ShardAssignment
  pub virtual_to_physical : Map ℕ ℕ
  pub created_at : Word
  pub activated_at : Option Word
  pub reason : String

-- Of the configuration the coordinator reads one field. `on_epoch_change` is nil or returns nil or
-- an error. `next_epoch` and `on_shard_migrate` are read by nothing, and `assignments` shares its
-- objects with the current epoch once an epoch has been entered.
pub record ShardCoordinator : Type 0 where
  pub current_epoch : EpochConfig
  pub epoch_counter : Word
  pub assignments : Map ℕ ShardAssignment
  pub active_actions : Map ActionId RebalanceAction
  pub action_history : List RebalanceAction
  pub max_salted_keys_per_shard : ℕ
  pub on_epoch_change : Option (EpochConfig → Option String)
  pub split_count : Word
  pub merge_count : Word
  pub salt_count : Word

unfoldable pub new_shard_coordinator : (ℕ → Word) → ℕ → ShardCoordinator
new_shard_coordinator now max_salted_keys = record {
  current_epoch = record {
    epoch = 1;
    assignments = [];
    virtual_to_physical = [];
    created_at = now 0;
    activated_at = some (now 1);
    reason = "Initial configuration";
  };
  epoch_counter = 1;
  assignments = [];
  active_actions = [];
  action_history = [];
  max_salted_keys_per_shard = max_salted_keys;
  on_epoch_change = none;
  split_count = 0;
  merge_count = 0;
  salt_count = 0;
}

-- The loop of `getNextShardID`, from `max_id`.
max_shard_id : ℕ → Map ℕ ShardAssignment → ℕ
max_shard_id max_id [] = max_id
max_shard_id max_id ((shard_id, a) ∷ m) =
    max_shard_id (if slt32 max_id shard_id then shard_id else max_id) m

unfoldable pub get_next_shard_id : ShardCoordinator → ℕ
unfolding max_shard_id
get_next_shard_id c = add32 (max_shard_id 0 c.assignments) 1

-- The map of `GetStatistics`, its keys as fields; nothing counts migrations.
pub record Statistics : Type 0 where
  pub current_epoch : Word
  pub shard_count : ℕ
  pub split_count : Word
  pub merge_count : Word
  pub salt_count : Word
  pub active_actions : ℕ
  pub action_history : ℕ

unfoldable pub get_statistics : ShardCoordinator → Statistics
get_statistics c = record {
  current_epoch = c.epoch_counter;
  shard_count = length c.assignments;
  split_count = c.split_count;
  merge_count = c.merge_count;
  salt_count = c.salt_count;
  active_actions = length c.active_actions;
  action_history = length c.action_history;
}
