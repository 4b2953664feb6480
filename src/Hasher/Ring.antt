-- ===== src/Hasher/Ring.antt =====
-- `ConsistentHashRing`.
use true_now.Base.{
  ℕ, zero, suc, String, not, none, some, List, [], ◌∷◌, ◌++◌, if◌then◌else◌, ltb, leb, nat_eq, eqb,
  length, get_or,
}
use true_now.Base.Map.{Map, lookup, insert}
use true_now.Base.Keys.{keep}
use true_now.Base.Sort.{sort}
use true_now.Base.Search.{search}

pub record ConsistentHashRing : Type 0 where
  pub nodes : Map ℕ ℕ
  pub sorted_keys : List ℕ
  pub virtual_nodes : ℕ

unfoldable pub new_consistent_hash_ring : ℕ → ConsistentHashRing
new_consistent_hash_ring virtual_nodes = record {
  nodes = [];
  sorted_keys = [];
  virtual_nodes = virtual_nodes;
}

-- The nodes of the other shards.
unfoldable pub other_nodes : ℕ → Map ℕ ℕ → Map ℕ ℕ
unfolding keep
other_nodes shard_id nodes = keep (λ shard. not (eqb shard shard_id)) nodes

unfoldable pub hashes_of : Map ℕ ℕ → List ℕ
hashes_of [] = []
hashes_of ((hash, shard) ∷ m) = hash ∷ hashes_of m

unfoldable pub remove_node : ℕ → ConsistentHashRing → ConsistentHashRing
unfolding other_nodes hashes_of
remove_node shard_id r =
    let nodes = other_nodes shard_id r.nodes in
    record r { nodes = nodes; sorted_keys = sort ltb (hashes_of nodes) }

-- What a map of shards gives for a hash that it lacks is 0.
unfoldable pub shard_at : ℕ → Map ℕ ℕ → ℕ
shard_at hash nodes = elim (lookup hash nodes) [ none ↦ 0 | some shard ↦ shard ]

-- The hash of the node that the hash of a key falls to, in keys that are not empty.
unfoldable pub find_key : ℕ → List ℕ → ℕ
find_key hash keys =
    let idx = search (length keys) (λ i. leb hash (get_or keys i 0)) in
    get_or keys (if eqb idx (length keys) then 0 else idx) 0

-- `hash_string` is the 32-bit FNV-1a hash of the library `hash/fnv`, and `virtual_key` the text that
-- `Sprintf` makes of a shard and the number of a virtual node.
module _ (hash_string : String → ℕ) (virtual_key : ℕ → ℕ → String) where
  -- The loop from virtual node `i`, with `left` to come.
  unfoldable pub add_virtual_nodes : ℕ → ℕ → ℕ → Map ℕ ℕ → List ℕ → Map ℕ ℕ × List ℕ
  add_virtual_nodes shard_id i zero nodes keys = (nodes, keys)
  add_virtual_nodes shard_id i (suc left) nodes keys =
      let hash = hash_string (virtual_key shard_id i) in
      add_virtual_nodes shard_id (suc i) left (insert hash shard_id nodes) (keys ++ (hash ∷ []))

  unfoldable pub add_node : ℕ → ConsistentHashRing → ConsistentHashRing
  unfolding add_virtual_nodes
  add_node shard_id r =
      let (nodes, keys) = add_virtual_nodes shard_id 0 r.virtual_nodes r.nodes r.sorted_keys in
      record r { nodes = nodes; sorted_keys = sort ltb keys }

  unfoldable pub get_node : String → ConsistentHashRing → ℕ
  unfolding find_key shard_at
  get_node key r =
      if eqb (length r.sorted_keys) 0
      then 0
      else shard_at (find_key (hash_string key) r.sorted_keys) r.nodes
