-- ===== src/Hasher/Balance.antt =====
-- `RebalanceVirtualShards`, and the shuffle at its end.
use true_now.Base.{
  ℕ, zero, suc, ◌+◌, ◌-◌, ◌%◌, ◌^◌, Option, none, some, List, [], ◌∷◌, ◌++◌, if◌then◌else◌, ltb,
  eqb, nat_eq, length, get_or, set, replicate,
}
use true_now.Base.Word.{Word, slt}
use true_now.Base.Map.{Map, lookup, insert}
use true_now.Base.Float.{Float64}
use true_now.Base.Sort.{sort}
use true_now.Base.Fnv.{fnv1a, decimal}
use true_now.Hasher.{ShardHasher}

-- Go's `int(w) % n` of a word taken as signed, for a positive `n`: none if it is negative.
unfoldable pub index_of : Word → ℕ → Option ℕ
index_of w n =
    if ltb w (2 ^ 63) then some (w % n) else (if eqb ((2 ^ 64 - w) % n) 0 then some 0 else none)

unfoldable pub swap : ℕ → ℕ → List ℕ → List ℕ
swap i j mapping = set (set mapping i (get_or mapping j 0)) j (get_or mapping i 0)

-- The loop of `shuffleMapping` from `i` down to 1; a negative index panics.
unfoldable pub shuffle_from : ℕ → List ℕ → Option (List ℕ)
unfolding index_of swap
shuffle_from zero mapping = some mapping
shuffle_from (suc i) mapping = elim (index_of (fnv1a (decimal (suc i))) (suc i + 1)) [
  | none ↦ none
  | some j ↦ shuffle_from i (swap (suc i) j mapping)
]

unfoldable pub shuffle_mapping : List ℕ → Option (List ℕ)
unfolding shuffle_from
shuffle_mapping mapping = shuffle_from (length mapping - 1) mapping

-- The new mapping, of the targets in the order of a range over them: at most `room` entries.
unfoldable pub fill : ℕ → Map ℕ ℕ → List ℕ
fill room [] = replicate room 0
fill room ((shard, count) ∷ targets) =
    let n = if ltb count room then count else room in replicate n shard ++ fill (room - n) targets

-- One round of what is left: one more for each shard, as long as there is something left.
unfoldable pub hand_round : List ℕ → ℕ → Map ℕ ℕ → Map ℕ ℕ × ℕ
hand_round [] remaining targets = (targets, remaining)
hand_round (shard ∷ shards) zero targets = (targets, zero)
hand_round (shard ∷ shards) (suc remaining) targets =
    hand_round shards remaining
      (insert shard (elim (lookup shard targets) [ none ↦ 1 | some n ↦ n + 1 ]) targets)

-- The rounds, each of which hands out one at least if there is a shard.
unfoldable pub hand_out : ℕ → List ℕ → ℕ → Map ℕ ℕ → Map ℕ ℕ × ℕ
unfolding hand_round
hand_out zero shards remaining targets = (targets, remaining)
hand_out (suc fuel) shards remaining targets =
    let (next, left) = hand_round shards remaining targets in
    let rest = hand_out fuel shards left next in
    if eqb remaining 0 then (targets, remaining) else rest

module _ (fl : Float64) where
  open fl use {F, of_int64, to_int64, lit, add, sub, mul, div, lt, eq}

  unfoldable pub total_load : F → Map ℕ F → F
  total_load total [] = total
  total_load total ((shard, load) ∷ loads) = total_load (add total load) loads

  -- The share of a shard: at least one, at most what is left.
  unfoldable pub virtual_count : ℕ → ℕ → F → F → ℕ → ℕ
  virtual_count virtual shards total load remaining =
      let inverse = div (sub total load) total in
      let factor = if lt inverse (lit 1 10) then lit 1 10 else inverse in
      let count = to_int64 (div (mul (of_int64 virtual) factor) (of_int64 shards)) % 2 ^ 64 in
      let at_least = if slt count 1 then 1 else count in
      if ltb remaining at_least then remaining else at_least

  unfoldable pub assign : ℕ → ℕ → F → Map ℕ F → ℕ → Map ℕ ℕ → Map ℕ ℕ × ℕ
  unfolding virtual_count
  assign virtual shards total [] remaining targets = (targets, remaining)
  assign virtual shards total ((shard, load) ∷ loads) remaining targets =
      let n = virtual_count virtual shards total load remaining in
      assign virtual shards total loads (remaining - n) (insert shard n targets)

  shard_ids : Map ℕ F → List ℕ
  shard_ids [] = []
  shard_ids ((shard, load) ∷ loads) = shard ∷ shard_ids loads

  -- The mapping before it is shuffled.
  unfoldable pub new_mapping : ℕ → Map ℕ F → List ℕ
  unfolding assign hand_out fill shard_ids total_load
  new_mapping virtual loads =
      let total = total_load (lit 0 1) loads in
      let sorted = sort (λ (a : ℕ × F) (b : ℕ × F). lt (a.1) (b.1)) loads in
      let (targets, remaining) = assign virtual (length loads) total sorted virtual [] in
      let (targets', left) = hand_out remaining (shard_ids sorted) remaining targets in
      fill virtual targets'

  unfoldable pub rebalance_virtual_shards : Map ℕ F → ShardHasher → Option (List ℕ)
  unfolding total_load new_mapping
  rebalance_virtual_shards loads h =
      if eq (total_load (lit 0 1) loads) (lit 0 1)
      then some h.virtual_to_physical
      else shuffle_mapping (new_mapping h.virtual_shard_count loads)
