-- ===== src/Hasher/Panics.antt =====
-- What the shuffle of `RebalanceVirtualShards` does with four virtual shards or more.
use true_now.Base.{
  ℕ, zero, suc, ◌+◌, ◌-◌, ◌≤◌, false, Option, none, some, List, [], ◌∷◌, ◌≡◌, refl, ap,
  if◌then◌else◌, ltb, nat_eq, length, length-append, subst, replicate, arith,
}
use true_now.Base.Fnv.{fnv1a_from, fnv1a, decimal_from, decimal}
use true_now.Base.Map.{Map}
use true_now.Base.Float.{Float64}
use true_now.Hasher.{ShardHasher}
use true_now.Hasher.Balance.{
  index_of, swap, shuffle_from, shuffle_mapping, fill, new_mapping, total_load,
  rebalance_virtual_shards,
}

-- At 3 the hash is negative as an `int`, and no multiple of 4.
shuffle_at_three : (mapping : List ℕ) → shuffle_from 3 mapping ≡ none
unfolding shuffle_from index_of fnv1a fnv1a_from decimal decimal_from
shuffle_at_three mapping = refl

on_index :
    (o : Option ℕ) (f : ℕ → Option (List ℕ))
    → ((j : ℕ) → f j ≡ none)
    → elim o as (λ x. Option (List ℕ)) [ none ↦ none | some j ↦ f j ] ≡ none
on_index none f empty = refl
on_index (some j) f empty = empty j

-- Every index above 3 either panics or goes on down to 3.
shuffle_from-none :
    (left : ℕ) → (mapping : List ℕ) → shuffle_from (suc (suc (suc left))) mapping ≡ none
unfolding shuffle_from
shuffle_from-none zero mapping = shuffle_at_three mapping
shuffle_from-none (suc left) mapping =
    let i = suc (suc (suc left)) in
    on_index (index_of (fnv1a (decimal (suc i))) (suc i + 1))
      (λ j. shuffle_from i (swap (suc i) j mapping))
      (λ j. shuffle_from-none left (swap (suc i) j mapping))

length-replicate : (n a : ℕ) → length (replicate n a) ≡ n
length-replicate zero a = refl
length-replicate (suc n) a = ap suc (length-replicate n a)

n_le : (count room : ℕ) → (if ltb count room then count else room) ≤ room
n_le count room = ground arith

length-fill : (room : ℕ) → (targets : Map ℕ ℕ) → length (fill room targets) ≡ room
unfolding fill
length-fill room [] = length-replicate room 0
length-fill room ((shard, count) ∷ targets) =
    let n = if ltb count room then count else room in
    omega (
      arith,
      length-append (replicate n shard) (fill (room - n) targets),
      length-replicate n shard,
      length-fill (room - n) targets,
      n_le count room,
    )

-- A shuffle of four entries or more panics, whatever they are.
pub shuffle_mapping-none : (mapping : List ℕ) → 4 ≤ length mapping → shuffle_mapping mapping ≡ none
unfolding shuffle_mapping
shuffle_mapping-none mapping enough =
    let last : suc (suc (suc (length mapping - 4))) ≡ length mapping - 1 = omega (arith, enough) in
    subst (λ n. shuffle_from n mapping ≡ none) last (shuffle_from-none (length mapping - 4) mapping)

module _ (fl : Float64) where
  open fl use {F, lit, eq}

  length-new_mapping :
      (virtual : ℕ) (loads : Map ℕ F) → length (new_mapping fl virtual loads) ≡ virtual
  unfolding new_mapping
  length-new_mapping virtual loads = length-fill virtual _

  -- For loads that do not sum to zero `RebalanceVirtualShards` panics when there are four virtual
  -- shards or more, whatever the loads are.
  pub rebalance_virtual_shards-none :
      (loads : Map ℕ F) (h : ShardHasher)
      → eq (total_load fl (lit 0 1) loads) (lit 0 1) ≡ false
      → 4 ≤ h.virtual_shard_count
      → rebalance_virtual_shards fl loads h ≡ none
  unfolding rebalance_virtual_shards
  rebalance_virtual_shards-none loads h loaded enough =
      let full = length-new_mapping h.virtual_shard_count loads in
      rw loaded (
        shuffle_mapping-none (new_mapping fl h.virtual_shard_count loads)
          (omega (arith, full, enough)))
