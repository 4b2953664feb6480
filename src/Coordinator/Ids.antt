-- ===== src/Coordinator/Ids.antt =====
-- The IDs of new shards: fresh, and all different.
use true_now.Base.{
  ℕ, zero, suc, ◌+◌, ◌^◌, ◌≤◌, ◌<◌, ◌≡◌, refl, false, List, [], ◌∷◌, arith, if◌then◌else◌, nat_eq,
  All, length,
}
use true_now.Base.Word.{add32, slt32}
use true_now.Base.Map.{Map, contains}
use true_now.Base.Float.{Float64}
use true_now.Coordinator.{ShardAssignment, ShardCoordinator, get_next_shard_id, max_shard_id}
use true_now.Coordinator.Epoch.{mem}
use true_now.Coordinator.Split.{assign_ids, calculate_optimal_split_count}

-- A split makes two to four shards.
pub calculate_optimal_split_count_bounds :
    (fl : Float64) (rps : fl.F)
    → (2 ≤ calculate_optimal_split_count fl rps) × (calculate_optimal_split_count fl rps ≤ 4)
unfolding calculate_optimal_split_count
calculate_optimal_split_count_bounds fl rps = ground arith

abbrev pub AreDistinct : List ℕ → Type 0
AreDistinct [] = Unit
AreDistinct (x ∷ xs) = (mem x xs ≡ false) × AreDistinct xs

-- The IDs that no int32 wraps: not negative.
abbrev pub HaveSmallIds : Map ℕ ShardAssignment → Type 0
HaveSmallIds m = All (λ entry. entry.0 < 2 ^ 31) m

pub length-assign_ids : (n next : ℕ) → length (assign_ids n next) ≡ n
unfolding assign_ids
length-assign_ids zero next = refl
length-assign_ids (suc n) next = omega (arith, length-assign_ids n (add32 next 1))

pub assign_ids_bounds :
    (n next lo : ℕ)
    → lo ≤ next
    → next + n < 2 ^ 31
    → All (λ id. (lo ≤ id) × (id < 2 ^ 31)) (assign_ids n next)
unfolding assign_ids
assign_ids_bounds zero next lo le small = tt
assign_ids_bounds (suc n) next lo le small =
    (omega arith, assign_ids_bounds n (add32 next 1) lo (omega arith) (omega arith))

not-mem-above :
    (x : ℕ) (xs : List ℕ) → All (λ id. (suc x ≤ id) × (id < 2 ^ 31)) xs → mem x xs ≡ false
unfolding mem
not-mem-above x [] above = refl
not-mem-above x (y ∷ xs) above = ground (arith, not-mem-above x xs above.1)

pub assign_ids-AreDistinct : (n next : ℕ) → next + n < 2 ^ 31 → AreDistinct (assign_ids n next)
unfolding assign_ids
assign_ids-AreDistinct zero next small = tt
assign_ids-AreDistinct (suc n) next small = (
  not-mem-above next (assign_ids n (add32 next 1))
      (assign_ids_bounds n (add32 next 1) (suc next) (omega arith) (omega arith)),
  assign_ids-AreDistinct n (add32 next 1) (omega arith),
)

max_shard_id_from :
    (z : ℕ) (m : Map ℕ ShardAssignment)
    → z < 2 ^ 31
    → HaveSmallIds m
    → (z ≤ max_shard_id z m) × (max_shard_id z m < 2 ^ 31)
unfolding max_shard_id
max_shard_id_from z [] small ids = (omega arith, small)
max_shard_id_from z ((k, a) ∷ m) small ids =
    ground (arith, max_shard_id_from (if slt32 z k then k else z) m)

absent-above :
    (id z : ℕ) (m : Map ℕ ShardAssignment)
    → z < 2 ^ 31
    → HaveSmallIds m
    → max_shard_id z m < id
    → contains id m ≡ false
unfolding max_shard_id contains
absent-above id z [] small ids above = refl
absent-above id z ((k, a) ∷ m) small ids above =
    let z' = if slt32 z k then k else z in
    ground (arith, absent-above id z' m, max_shard_id_from z' m)

-- Every ID from the next one on is new, if the IDs in use are not negative.
pub next-absent :
    (id : ℕ) (c : ShardCoordinator)
    → HaveSmallIds c.assignments
    → get_next_shard_id c ≤ id
    → get_next_shard_id c < 2 ^ 31
    → contains id c.assignments ≡ false
unfolding get_next_shard_id
next-absent id c ids above small =
    let bound = max_shard_id_from 0 c.assignments (omega arith) ids in
    absent-above id 0 c.assignments (omega arith) ids (omega (arith, bound))
