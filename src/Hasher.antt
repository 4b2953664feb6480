-- ===== src/Hasher.antt =====
-- The rebalancer's map from keys to shards (services/rebalancer/internal/hasher/hasher.go, with its
-- configuration in services/rebalancer/pkg/types/types.go). `none` stands for a panic. The hashes of
-- keys are parameters, as are the texts that `Sprintf` makes; an operation runs alone.
pub mod Ring
pub mod Keys
pub mod Owner
pub mod Balance
pub mod Panics
pub mod Jump
mod Examples
use true_now.Base.{
  ℕ, zero, suc, ◌+◌, ◌-◌, ◌%◌, ◌^◌, String, Bool, true, false, ◌&&◌, Option, none, some, List, [],
  ◌∷◌, ◌++◌, if◌then◌else◌, ltb, leb, eqb, nat_eq, string_eq, length, get_elem?,
}
use true_now.Base.Word.{Word, add64}
use true_now.Base.Map.{Map, lookup, insert, delete}
use true_now.Base.Float.{Float64}
use true_now.Hasher.Ring.{ConsistentHashRing, new_consistent_hash_ring, add_node, get_node}

pub record HashingConfig : Type 0 where
  pub algorithm : String
  pub virtual_shard_count : ℕ
  pub consistent_hash : Bool
  pub salt_prefix : String
  pub power_of_two_choices : Bool

-- The keys are salted in a map of the lock's and in a `sync.Map`.
pub record ShardHasher : Type 0 where
  pub config : HashingConfig
  pub virtual_shard_count : ℕ
  pub physical_shard_count : ℕ
  pub virtual_to_physical : List ℕ
  pub salted_keys : Map String String
  pub key_salts : Map String String
  pub hash_ring : Option ConsistentHashRing
  pub hash_count : Word
  pub salt_count : Word

-- The entries from virtual shard `i` on, `left` of them.
unfoldable pub round_robin : ℕ → ℕ → ℕ → List ℕ
round_robin physical i zero = []
round_robin physical i (suc left) = i % physical ∷ round_robin physical (suc i) left

pub record Statistics : Type 0 where
  pub hash_count : Word
  pub salt_count : Word
  pub salted_keys : ℕ
  pub virtual_shards : ℕ
  pub physical_shards : ℕ
  pub algorithm : String
  pub consistent_hash : Bool
  pub power_of_two : Bool

unfoldable pub get_statistics : ShardHasher → Statistics
get_statistics h = record {
  hash_count = h.hash_count;
  salt_count = h.salt_count;
  salted_keys = length h.salted_keys;
  virtual_shards = h.virtual_shard_count;
  physical_shards = h.physical_shard_count;
  algorithm = h.config.algorithm;
  consistent_hash = h.config.consistent_hash;
  power_of_two = h.config.power_of_two_choices;
}

unfoldable pub add_salt : String → String → ShardHasher → ShardHasher
add_salt key salt h = record h {
  salted_keys = insert key salt h.salted_keys;
  key_salts = insert key salt h.key_salts;
  salt_count = add64 h.salt_count 1;
}

unfoldable pub remove_salt : String → ShardHasher → ShardHasher
remove_salt key h = record h {
  salted_keys = delete key h.salted_keys;
  key_salts = delete key h.key_salts;
}

-- A mapping of another length is refused: the expected length and the given one.
unfoldable pub update_virtual_mapping : List ℕ → ShardHasher → ShardHasher × Option (ℕ × ℕ)
update_virtual_mapping mapping h =
    if eqb (length mapping) h.virtual_shard_count
    then (record h { virtual_to_physical = mapping }, none)
    else (h, some (h.virtual_shard_count, length mapping))

-- `hash_string` and `virtual_key` are those of the ring; `hash_key` is the 64-bit FNV-1a hash, to which
-- every algorithm falls back; `salted` is `Sprintf("%s%s%s", prefix, key, salt)`.
module _ (hash_string : String → ℕ) (virtual_key : ℕ → ℕ → String) (hash_key : String → Word)
    (salted : String → String → String → String) where
  unfoldable pub add_nodes : ℕ → ℕ → ConsistentHashRing → ConsistentHashRing
  add_nodes i zero r = r
  add_nodes i (suc left) r = add_nodes (suc i) left (add_node hash_string virtual_key i r)

  unfoldable pub new_shard_hasher : HashingConfig → ℕ → Option ShardHasher
  unfolding add_nodes round_robin
  new_shard_hasher config physical_shards =
      if eqb physical_shards 0 && ltb 0 config.virtual_shard_count
      then none
      else some (record {
        config = config;
        virtual_shard_count = config.virtual_shard_count;
        physical_shard_count = physical_shards;
        virtual_to_physical = round_robin physical_shards 0 config.virtual_shard_count;
        salted_keys = [];
        key_salts = [];
        hash_ring =
            if config.consistent_hash
            then some
                (add_nodes 0 physical_shards (new_consistent_hash_ring config.virtual_shard_count))
            else none;
        hash_count = 0;
        salt_count = 0;
      })

  -- By the mapping: the division by no virtual shards and an index that is negative as an `int32` or
  -- out of bounds panic.
  unfoldable pub by_mapping : Word → ShardHasher → Option ℕ
  by_mapping hash h =
      let index = hash % h.virtual_shard_count % 2 ^ 32 in
      if eqb h.virtual_shard_count 0
      then none
      else (if ltb index (2 ^ 31) then get_elem? h.virtual_to_physical index else none)

  by_ring : String → Option ConsistentHashRing → ShardHasher → Option ℕ
  unfolding by_mapping
  by_ring key none h = by_mapping (hash_key key) h
  by_ring key (some ring) h = some (get_node hash_string virtual_key key ring)

  unfoldable pub compute_shard : String → ShardHasher → Option ℕ
  unfolding by_ring
  compute_shard key h =
      if h.config.consistent_hash then by_ring key h.hash_ring h else by_mapping (hash_key key) h

  salted_key : String → Option String → ShardHasher → String
  salted_key key none h = key
  salted_key key (some salt) h = salted h.config.salt_prefix key salt

  unfoldable pub get_shard : String → ShardHasher → ShardHasher × Option ℕ
  unfolding compute_shard salted_key
  get_shard key h = (
    record h { hash_count = add64 h.hash_count 1 },
    compute_shard (salted_key key (lookup key h.key_salts) h) h,
  )

  -- The less loaded of two candidates; `alt` is the key with "_alt" at its end.
  less_loaded : (fl : Float64) → (ℕ → fl.F) → Option ℕ → Option ℕ → Option ℕ
  less_loaded fl load none second = none
  less_loaded fl load (some a) none = none
  less_loaded fl load (some a) (some b) = if fl.le (load a) (load b) then some a else some b

  unfoldable pub get_shard_with_power_of_two :
      (fl : Float64) → (ℕ → fl.F) → String → String → ShardHasher → ShardHasher × Option ℕ
  unfolding get_shard less_loaded
  get_shard_with_power_of_two fl load key alt h =
      if h.config.power_of_two_choices
      then (h, less_loaded fl load (compute_shard key h) (compute_shard alt h))
      else get_shard key h
