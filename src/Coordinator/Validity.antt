-- ===== src/Coordinator/Validity.antt =====
-- What holds of a coordinator that has entered an epoch of its own.
use true_now.Base.{ℕ, ◌≤◌, ◌<◌, ◌^◌, ◌≡◌, Bool, true, [], ◌∷◌, arith, ltb, nat_eq, All}
use true_now.Base.Map.{Map, lookup, contains}
use true_now.Coordinator.{ShardAssignment, ShardCoordinator}
use true_now.Coordinator.Ids.{HaveSmallIds}
use true_now.Coordinator.Ownership.{held, held_by, HasUniqueKeys}

-- `p` holds `v`.
abbrev pub holds : Map ℕ ShardAssignment → ℕ → ℕ → Bool
holds m v p = ltb 0 (held_by v (lookup p m))

-- The maps are Go maps, with one entry for a key; no virtual shard is held twice; a virtual shard is
-- mapped to the shard that holds it; no ID of a shard is negative.
pub record IsValid (c : ShardCoordinator) : Type 0 where
  pub sync : c.assignments ≡ c.current_epoch.assignments
  pub counted : c.epoch_counter ≡ c.current_epoch.epoch
  pub unique : HasUniqueKeys c.assignments
  pub unique_map : HasUniqueKeys c.current_epoch.virtual_to_physical
  pub once : (v : ℕ) → held v c.assignments ≤ 1
  pub mapped :
      All (λ entry. holds c.assignments entry.0 entry.1 ≡ true) c.current_epoch.virtual_to_physical
  pub small : (k : ℕ) → contains k c.assignments ≡ true → k < 2 ^ 31

pub small-All :
    (m : Map ℕ ShardAssignment) → ((k : ℕ) → contains k m ≡ true → k < 2 ^ 31) → HaveSmallIds m
unfolding contains
small-All [] h = tt
small-All ((k, a) ∷ m) h = (h k (ground arith), small-All m (λ j has. h j (ground arith)))

pub holds-contains :
    (m : Map ℕ ShardAssignment) (v p : ℕ) → holds m v p ≡ true → contains p m ≡ true
unfolding contains lookup
holds-contains [] v p h = ground arith
holds-contains ((k, a) ∷ m) v p h = ground (arith, holds-contains m v p)
