-- ===== src/Hasher/Owner.antt =====
-- Which shard owns a key on the ring, after any changes of the ring.
use true_now.Base.{
  ℕ, zero, suc, ◌^◌, ◌≤◌, ◌<◌, ◌≡◌, ◌≢◌, ◌∙◌, sym, refl, ap, String, Bool, true, false, not, ◌||◌,
  some, List, [], ◌∷◌, ◌++◌, arith, eqb, nat_eq, length, All, All-append,
}
use true_now.Base.Map.{Map, lookup, insert, contains, contains-IsSome}
use true_now.Base.Keys.{
  HasUniqueKeys, insert-HasUniqueKeys, contains-insert, contains-lookup, keep-HasUniqueKeys,
  lookup-keep, All-keep, keep, keep-contains,
}
use true_now.Hasher.Ring.{
  ConsistentHashRing, new_consistent_hash_ring, other_nodes, hashes_of, remove_node, shard_at,
  find_key, add_virtual_nodes, add_node, get_node,
}
use true_now.Hasher.Keys.{has, IsSorted, All-sort, has-sort, sort-IsSorted, distance, find_key-lem}

-- The sorted keys are the hashes of the nodes, all of 32 bits.
pub record IsRing (r : ConsistentHashRing) : Type 0 where
  pub sorted : IsSorted r.sorted_keys
  pub bounded : All (λ k. k < 2 ^ 32) r.sorted_keys
  pub same : (k : ℕ) → has k r.sorted_keys ≡ contains k r.nodes
  pub unique : HasUniqueKeys r.nodes

has-append : (k x : ℕ) (xs : List ℕ) → has k (xs ++ (x ∷ [])) ≡ (eqb x k || has k xs)
has-append k x [] = refl
has-append k x (y ∷ ys) = ground (arith, has-append k x ys)

has-hashes_of : (k : ℕ) (m : Map ℕ ℕ) → has k (hashes_of m) ≡ contains k m
unfolding hashes_of contains
has-hashes_of k [] = refl
has-hashes_of k ((h, s) ∷ m) = ground (arith, has-hashes_of k m)

All-hashes_of : (m : Map ℕ ℕ) → All (λ e. e.0 < 2 ^ 32) m → All (λ k. k < 2 ^ 32) (hashes_of m)
unfolding hashes_of
All-hashes_of [] h = tt
All-hashes_of ((k, t) ∷ m) h = (h.0, All-hashes_of m h.1)

has_bounded : (keys : List ℕ) (k : ℕ) → All (λ x. x < 2 ^ 32) keys → has k keys ≡ true → k < 2 ^ 32
has_bounded [] k b e = absurd (ground arith)
has_bounded (x ∷ xs) k b e = ground (arith, has_bounded xs k b.1)

-- A node of the ring is bounded, since it is among the keys.
nodes_bounded :
    (m : Map ℕ ℕ) (keys : List ℕ)
    → All (λ k. k < 2 ^ 32) keys
    → ((k : ℕ) → contains k m ≡ true → has k keys ≡ true)
    → All (λ e. e.0 < 2 ^ 32) m
unfolding contains
nodes_bounded [] keys b h = tt
nodes_bounded ((k, t) ∷ m) keys b h =
    (has_bounded keys k b (h k (ground arith)), nodes_bounded m keys b (λ j c. h j (ground arith)))

contains_some : (k : ℕ) (m : Map ℕ ℕ) → contains k m ≡ true → 0 < length m
unfolding contains
contains_some k [] h = absurd (ground arith)
contains_some k (e ∷ m) h = omega arith

keys_by_nodes :
    (m : Map ℕ ℕ) (keys : List ℕ)
    → 0 < length m
    → ((k : ℕ) → has k keys ≡ contains k m)
    → 0 < length keys
unfolding contains
keys_by_nodes [] keys pos same = absurd (omega arith)
keys_by_nodes ((k, s) ∷ m) [] pos same = absurd (ground (arith, same k))
keys_by_nodes ((k, s) ∷ m) (x ∷ keys) pos same = omega arith

All-nodes :
    (d hash : ℕ) (m : Map ℕ ℕ)
    → ((k : ℕ) → contains k m ≡ true → d ≤ distance hash k)
    → All (λ node. d ≤ distance hash node.0) m
unfolding contains
All-nodes d hash [] near = tt
All-nodes d hash ((k, s) ∷ m) near =
    (near k (ground arith), All-nodes d hash m (λ j c. near j (ground arith)))

remove_node-IsRing : (s : ℕ) (r : ConsistentHashRing) → IsRing r → IsRing (remove_node s r)
unfolding remove_node other_nodes
remove_node-IsRing s r v =
    let p = λ (shard : ℕ). not (eqb shard s) in
    let nodes = other_nodes s r.nodes in
    let small = nodes_bounded r.nodes r.sorted_keys v.bounded (λ k c. v.same k ∙ c) in
    record {
      sorted = sort-IsSorted (hashes_of nodes);
      bounded =
          All-sort (λ k. k < 2 ^ 32) (hashes_of nodes)
            (All-hashes_of nodes (All-keep p (λ e. e.0 < 2 ^ 32) r.nodes small));
      same = λ k. has-sort k (hashes_of nodes) ∙ has-hashes_of k nodes;
      unique = keep-HasUniqueKeys p r.nodes v.unique;
    }

module _ (hash_string : String → ℕ) (virtual_key : ℕ → ℕ → String)
    (bits : (s : String) → hash_string s < 2 ^ 32) where
  -- The loop of `AddNode` keeps all but the order of the keys.
  add_virtual_nodes-IsRing :
      (shard i left : ℕ) (nodes : Map ℕ ℕ) (keys : List ℕ)
      → All (λ k. k < 2 ^ 32) keys
      → ((k : ℕ) → has k keys ≡ contains k nodes)
      → HasUniqueKeys nodes
      → let (nodes', keys') = add_virtual_nodes hash_string virtual_key shard i left nodes keys in
        All (λ k. k < 2 ^ 32) keys'
        × ((k : ℕ) → has k keys' ≡ contains k nodes')
        × HasUniqueKeys nodes'
  unfolding add_virtual_nodes
  add_virtual_nodes-IsRing shard i zero nodes keys b same u = (b, same, u)
  add_virtual_nodes-IsRing shard i (suc left) nodes keys b same u =
      let hash = hash_string (virtual_key shard i) in
      add_virtual_nodes-IsRing shard (suc i) left (insert hash shard nodes) (keys ++ (hash ∷ []))
        (All-append (λ k. k < 2 ^ 32) keys (hash ∷ []) b (bits (virtual_key shard i), tt))
        (λ k. ground (arith, has-append k hash keys, contains-insert hash k shard nodes, same k))
        (insert-HasUniqueKeys hash shard nodes u)

  add_node-IsRing :
      (s : ℕ) (r : ConsistentHashRing) → IsRing r → IsRing (add_node hash_string virtual_key s r)
  unfolding add_node
  add_node-IsRing s r v =
      let added =
        add_virtual_nodes hash_string virtual_key s 0 r.virtual_nodes r.nodes r.sorted_keys in
      let (b, same, u) =
        add_virtual_nodes-IsRing s 0 r.virtual_nodes r.nodes r.sorted_keys v.bounded v.same
          v.unique in
      record {
        sorted = sort-IsSorted added.1;
        bounded = All-sort (λ k. k < 2 ^ 32) added.1 b;
        same = λ k. has-sort k added.1 ∙ same k;
        unique = u;
      }

  -- The shards added (`true`) and removed (`false`), one after another.
  abbrev pub change_all : List (Bool × ℕ) → ConsistentHashRing → ConsistentHashRing
  change_all [] r = r
  change_all ((true, s) ∷ changes) r = change_all changes (add_node hash_string virtual_key s r)
  change_all ((false, s) ∷ changes) r = change_all changes (remove_node s r)

  change_all-IsRing :
      (changes : List (Bool × ℕ)) (r : ConsistentHashRing)
      → IsRing r
      → IsRing (change_all changes r)
  change_all-IsRing [] r v = v
  change_all-IsRing ((true, s) ∷ changes) r v = change_all-IsRing changes _ (add_node-IsRing s r v)
  change_all-IsRing ((false, s) ∷ changes) r v =
      change_all-IsRing changes _ (remove_node-IsRing s r v)

  new_consistent_hash_ring-IsRing : (n : ℕ) → IsRing (new_consistent_hash_ring n)
  unfolding new_consistent_hash_ring contains
  new_consistent_hash_ring-IsRing n = record {
    sorted = tt;
    bounded = tt;
    same = λ k. refl;
    unique = tt;
  }

  -- A node of the ring that no other one is before, clockwise from a hash.
  abbrev pub Nearest : ConsistentHashRing → ℕ → ℕ → Type 0
  Nearest r hash h =
      (contains h r.nodes ≡ true)
      × ((k : ℕ) → contains k r.nodes ≡ true → distance hash h ≤ distance hash k)

  pub get_node-Nearest :
      (key : String) (r : ConsistentHashRing)
      → IsRing r
      → 0 < length r.nodes
      → let h = find_key (hash_string key) r.sorted_keys in
        Nearest r (hash_string key) h
        × (get_node hash_string virtual_key key r ≡ shard_at h r.nodes)
  unfolding get_node
  get_node-Nearest key r v pos =
      let some_ = keys_by_nodes r.nodes r.sorted_keys pos v.same in
      let (found, near) =
        find_key-lem (hash_string key) r.sorted_keys (bits key) some_ v.bounded v.sorted in
      let full : eqb (length r.sorted_keys) 0 ≡ false = ground arith in
      ((sym (v.same _) ∙ found, λ k c. near k (v.same k ∙ c)), rw full refl)

  -- On a ring that shards were added to and removed from in any order, and that has nodes left, a key
  -- goes to the shard of the node at the least distance, clockwise on the ring from the key's hash.
  pub get_node-change_all :
      (n : ℕ) (changes : List (Bool × ℕ)) (key : String)
      → 0 < length (change_all changes (new_consistent_hash_ring n)).nodes
      → let r = change_all changes (new_consistent_hash_ring n) in
        (h : ℕ) × (lookup h r.nodes ≡ some (get_node hash_string virtual_key key r))
        × All (λ node. distance (hash_string key) h ≤ distance (hash_string key) node.0) r.nodes
  unfolding shard_at
  get_node-change_all n changes key pos =
      let r = change_all changes (new_consistent_hash_ring n) in
      let v =
        change_all-IsRing changes (new_consistent_hash_ring n)
          (new_consistent_hash_ring-IsRing n) in
      let h = find_key (hash_string key) r.sorted_keys in
      let ((here, near), is_) = get_node-Nearest key r v pos in
      let (s, found) = contains-IsSome h r.nodes here in
      (
        h,
        found ∙ ap (λ x. some x) (sym (is_ ∙ rw (found, shard_at) refl)),
        All-nodes (distance (hash_string key) h) (hash_string key) r.nodes near,
      )

  -- The shard of the nearest node, by any way of finding one: distances of different nodes differ.
  pub Nearest-unique :
      (r : ConsistentHashRing) (hash h k : ℕ)
      → hash < 2 ^ 32
      → h < 2 ^ 32
      → k < 2 ^ 32
      → Nearest r hash h
      → Nearest r hash k
      → h ≡ k
  Nearest-unique r hash h k a b c x y = omega (arith, x.1 k y.0, y.1 h x.0)

  -- The removal of a shard from a ring with nodes, whose keys are sorted and are the hashes of the
  -- nodes, moves no key of another shard.
  pub get_node-remove_node :
      (s : ℕ) (key : String) (r : ConsistentHashRing)
      → IsRing r
      → 0 < length r.nodes
      → get_node hash_string virtual_key key r ≢ s
      → get_node hash_string virtual_key key (remove_node s r)
        ≡ get_node hash_string virtual_key key r
  unfolding remove_node other_nodes shard_at
  get_node-remove_node s key r v pos other =
      let hash = hash_string key in
      let h = find_key hash r.sorted_keys in
      let ((here, near), is_) = get_node-Nearest key r v pos in
      let (t, found) = contains-IsSome h r.nodes here in
      let is_t : get_node hash_string virtual_key key r ≡ t = is_ ∙ rw (found, shard_at) refl in
      let p = λ (shard : ℕ). not (eqb shard s) in
      let left = λ (k : ℕ). lookup-keep p k r.nodes v.unique in
      let stays : p t ≡ true = ground (arith, is_t, other) in
      let found' : lookup h (keep p r.nodes) ≡ some t = left h ∙ rw found (rw stays refl) in
      let here' : contains h (keep p r.nodes) ≡ true =
        contains-lookup h (keep p r.nodes) ∙ rw found' refl in
      let r' = remove_node s r in
      let v' = remove_node-IsRing s r v in
      let pos' = contains_some h (keep p r.nodes) here' in
      let h' = find_key hash r'.sorted_keys in
      let (nearest', is') = get_node-Nearest key r' v' pos' in
      let bound = λ (k : ℕ) (c : contains k r.nodes ≡ true).
        has_bounded r.sorted_keys k v.bounded (v.same k ∙ c) in
      let older = λ (k : ℕ) (c : contains k (keep p r.nodes) ≡ true). keep-contains p k r.nodes c in
      let same =
        Nearest-unique r' hash h' h (bits key) (bound h' (older h' nearest'.0)) (bound h here)
          nearest' (here', λ k c. near k (older k c)) in
      is' ∙ ap (λ x. shard_at x (keep p r.nodes)) same ∙ rw (found', shard_at) (sym is_t)
