-- ===== src/Coordinator/Salt.antt =====
-- Salts for hot keys.
use true_now.Base.{
  ℕ, suc, ◌+◌, ◌-◌, String, Option, none, some, List, [], ◌∷◌, ◌++◌, if◌then◌else◌, leb, nat_eq,
  string_eq, ◌==◌, length,
}
use true_now.Base.Word.{Word, add64}
use true_now.Base.Map.{Map, lookup, insert}
use true_now.Coordinator.{
  ShardAssignment, ShardCoordinator, Err, shard_not_found, salt_limit_reached, add_salt,
}
use true_now.Coordinator.Split.{in_progress_action, complete_action}

-- A write through the pointer of an assignment, which the map of the coordinator and that of the
-- current epoch share.
unfoldable pub modify :
    ℕ → (ShardAssignment → ShardAssignment) → Map ℕ ShardAssignment → Map ℕ ShardAssignment
modify id f [] = []
modify id f ((j, a) ∷ m) = if j == id then (j, f a) ∷ m else (j, a) ∷ modify id f m

-- The loop over the hot keys, from index `i`: at most `room` of them get a salt. `salt` is the text
-- of the clock's reading and the index.
unfoldable pub salt_keys :
    (ℕ → String) → ℕ → ℕ → List String → Map String String → Map String String
salt_keys salt room i [] m = m
salt_keys salt room i (key ∷ keys) m =
    let rest = salt_keys salt room (suc i) keys (insert key (salt i) m) in
    if leb room i then m else rest

-- The loop that writes the changes into the assignment's map.
unfoldable pub apply_salts : Map String String → Map String String → Map String String
apply_salts [] m = m
apply_salts ((key, salt) ∷ changes) m = apply_salts changes (insert key salt m)

unfoldable pub salted : (ℕ → Word) → ℕ → Map String String → ShardCoordinator → ShardCoordinator
salted now id changes c =
    let add_to =
      λ (a : ShardAssignment). record a { salted_keys = apply_salts changes a.salted_keys } in
    let action = record (in_progress_action now add_salt id 0 8 "Hot keys detected") {
      salt_changes = changes;
    } in
    record c {
      assignments = modify id add_to c.assignments;
      current_epoch = record (c.current_epoch) {
        assignments = modify id add_to c.current_epoch.assignments;
      };
      salt_count = add64 c.salt_count (length changes);
      action_history = c.action_history ++ (complete_action (now 5) action ∷ []);
    }

unfoldable pub add_salt_to_hot_keys :
    (ℕ → Word) → (ℕ → String) → ℕ → List String → ShardCoordinator → ShardCoordinator × Option Err
unfolding salted
add_salt_to_hot_keys now salt id [] c = (c, none)
add_salt_to_hot_keys now salt id (key ∷ keys) c = elim (lookup id c.assignments) [
  | none ↦ (c, some (shard_not_found id))
  | some a ↦
      let limit = c.max_salted_keys_per_shard in
      let changes = salt_keys salt (limit - length a.salted_keys) 0 (key ∷ keys) [] in
      if leb limit (length a.salted_keys)
      then (c, some (salt_limit_reached id))
      else (salted now id changes c, none)
]

-- `RemoveExpiredSalts`: every salt goes.
unfoldable pub clear_salts : Map ℕ ShardAssignment → Map ℕ ShardAssignment
clear_salts [] = []
clear_salts ((id, a) ∷ m) = (id, record a { salted_keys = [] }) ∷ clear_salts m

unfoldable pub count_salts : Map ℕ ShardAssignment → ℕ
count_salts [] = 0
count_salts ((id, a) ∷ m) = length a.salted_keys + count_salts m

-- The assignments' objects are those of the current epoch where it has them.
clear_shared : Map ℕ ShardAssignment → Map ℕ ShardAssignment → Map ℕ ShardAssignment
clear_shared [] m = m
clear_shared ((id, a) ∷ objects) m =
    clear_shared objects (modify id (λ b. record b { salted_keys = [] }) m)

unfoldable pub remove_expired_salts : ShardCoordinator → ShardCoordinator × ℕ
unfolding clear_salts count_salts clear_shared
remove_expired_salts c = (
  record c {
    assignments = clear_salts c.assignments;
    current_epoch = record (c.current_epoch) {
      assignments = clear_shared c.assignments c.current_epoch.assignments;
    };
  },
  count_salts c.assignments,
)
