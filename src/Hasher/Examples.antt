-- ===== src/Hasher/Examples.antt =====
-- The hasher on a ring of shards 1 and 2 with one node each, and with virtual shards.
use true_now.Base.{
  ℕ, ◌*◌, ◌/◌, ◌^◌, ◌≤◌, ◌<◌, ◌≡◌, ◌≢◌, refl, String, true, false, none, some, [], ◌∷◌, arith,
  if◌then◌else◌, eqb, nat_eq, ne_of_beq, string_eq, ◌==◌, length, All,
}
use true_now.Base.Float.{whole_float}
use true_now.Base.Map.{lookup, contains, insert}
use native.Mathlib.Nat.{le-div_iff_mul-le, mul-le-mul_left, div-le_self}
use true_now.Base.Search.{search, search_loop}
use true_now.Hasher.{ShardHasher}
use true_now.Hasher.Ring.{
  ConsistentHashRing, new_consistent_hash_ring, remove_node, shard_at, find_key, add_virtual_nodes,
  add_node, get_node,
}
use true_now.Hasher.Keys.{distance}
use true_now.Hasher.Owner.{IsRing, change_all, get_node-change_all, get_node-remove_node}
use true_now.Hasher.Balance.{rebalance_virtual_shards, total_load}
use true_now.Hasher.Panics.{rebalance_virtual_shards-none}
use true_now.Hasher.Jump.{jump_hash, jump_hash_ends}

-- The nodes of the shards are at 100 and 200, and every key is at 150.
abbrev hash : String → ℕ
hash s = if s == "one" then 100 else (if s == "two" then 200 else 150)

abbrev name : ℕ → ℕ → String
name shard i = if eqb shard 1 then "one" else "two"

hash_bits : (s : String) → hash s < 2 ^ 32
hash_bits s = ground arith

abbrev ring : ConsistentHashRing
ring = record { nodes = (100, 1) ∷ (200, 2) ∷ []; sorted_keys = 100 ∷ 200 ∷ []; virtual_nodes = 1 }

ring-IsRing : IsRing ring
unfolding contains
ring-IsRing = record {
  sorted = ((omega arith, tt), (tt, tt));
  bounded = (omega arith, (omega arith, tt));
  same = λ k. ground arith;
  unique = (refl, (refl, tt));
}

has_nodes :
    0 < length (add_node hash name 2 (add_node hash name 1 (new_consistent_hash_ring 1))).nodes
unfolding add_node add_virtual_nodes new_consistent_hash_ring insert
has_nodes = omega arith

get_node-change_all_example :
    let r =
      change_all hash name hash_bits ((true, 1) ∷ (true, 2) ∷ []) (new_consistent_hash_ring 1) in
    (h : ℕ) × (lookup h r.nodes ≡ some (get_node hash name "key" r))
    × All (λ node. distance 150 h ≤ distance 150 node.0) r.nodes
get_node-change_all_example =
    get_node-change_all hash name hash_bits 1 ((true, 1) ∷ (true, 2) ∷ []) "key" has_nodes

of_two : get_node hash name "key" ring ≢ 1
unfolding get_node find_key search search_loop shard_at lookup
of_two = ne_of_beq (get_node hash name "key" ring) 1 refl

get_node-remove_node_example :
    get_node hash name "key" (remove_node 1 ring) ≡ get_node hash name "key" ring
get_node-remove_node_example =
    get_node-remove_node hash name hash_bits 1 "key" ring ring-IsRing (omega arith) of_two

abbrev hasher : ShardHasher
hasher = record {
  config = record {
    algorithm = "xxhash";
    virtual_shard_count = 8;
    consistent_hash = false;
    salt_prefix = "salt_";
    power_of_two_choices = false;
  };
  virtual_shard_count = 8;
  physical_shard_count = 2;
  virtual_to_physical = 0 ∷ 1 ∷ 0 ∷ 1 ∷ 0 ∷ 1 ∷ 0 ∷ 1 ∷ [];
  salted_keys = [];
  key_salts = [];
  hash_ring = none;
  hash_count = 0;
  salt_count = 0;
}

loaded : eqb (total_load whole_float 0 ((0, 30) ∷ (1, 10) ∷ [])) 0 ≡ false
unfolding total_load
loaded = refl

rebalance_virtual_shards-none_example :
    rebalance_virtual_shards whole_float ((0, 30) ∷ (1, 10) ∷ []) hasher ≡ none
rebalance_virtual_shards-none_example =
    rebalance_virtual_shards-none whole_float ((0, 30) ∷ (1, 10) ∷ []) hasher loaded (omega arith)

whole_law :
    (n k : ℕ) → n ≤ 2 ^ 31 → 1 ≤ k → k ≤ 2 ^ 31 → (n ≤ n * 2 ^ 31 / k) × (n * 2 ^ 31 / k < 2 ^ 63)
whole_law n k small pos bound = (
  (le-div_iff_mul-le (omega (arith, pos))).1 (mul-le-mul_left n bound),
  omega (arith, div-le_self (n * 2 ^ 31) k, small),
)

jump_hash_ends_example : (r : ℕ) × (jump_hash whole_float 12345 10 ≡ some r) × (r < 10)
jump_hash_ends_example = jump_hash_ends whole_float whole_law 12345 10 (omega arith) (omega arith)
