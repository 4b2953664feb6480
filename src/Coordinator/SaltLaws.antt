-- ===== src/Coordinator/SaltLaws.antt =====
-- Salts: how many a shard gets, and what their removal does.
use true_now.Base.{
  ℕ, suc, ◌+◌, ◌-◌, ◌≤◌, ◌≡◌, refl, String, Option, none, some, List, [], ◌∷◌, arith, if◌then◌else◌,
  eqb, leb, nat_eq, string_eq, ◌==◌, length, Bool-cases, inl, inr,
}
use true_now.Base.Word.{Word}
use true_now.Base.Map.{Map, lookup, insert}
use true_now.Coordinator.{ShardAssignment, ShardCoordinator}
use true_now.Coordinator.Salt.{
  modify, salt_keys, apply_salts, salted, add_salt_to_hot_keys, clear_salts, remove_expired_salts,
}

length-insert : (k s : String) (m : Map String String) → length (insert k s m) ≤ length m + 1
unfolding insert
length-insert k s [] = ground arith
length-insert k s ((j, t) ∷ m) = ground (arith, length-insert k s m)

length-salt_keys :
    (salt : ℕ → String) (room i : ℕ) (keys : List String) (m : Map String String)
    → length (salt_keys salt room i keys m) ≤ length m + (room - i)
unfolding salt_keys
length-salt_keys salt room i [] m = omega arith
length-salt_keys salt room i (key ∷ keys) m = ground (
  arith,
  length-salt_keys salt room (suc i) keys (insert key (salt i) m),
  length-insert key (salt i) m,
)

length-apply_salts :
    (changes m : Map String String) → length (apply_salts changes m) ≤ length changes + length m
unfolding apply_salts
length-apply_salts [] m = omega arith
length-apply_salts ((key, salt) ∷ changes) m =
    omega (arith, length-apply_salts changes (insert key salt m), length-insert key salt m)

lookup-modify :
    (id : ℕ) (f : ShardAssignment → ShardAssignment) (m : Map ℕ ShardAssignment)
    (a : ShardAssignment) (j : ℕ)
    → lookup id m ≡ some a
    → lookup j (modify id f m) ≡ (if eqb j id then some (f a) else lookup j m)
unfolding lookup modify
lookup-modify id f [] a j found = absurd (cc found)
lookup-modify id f ((k, b) ∷ m) a j found = ground (arith, lookup-modify id f m a j)

module _ (now : ℕ → Word) (salt : ℕ → String) (id : ℕ) (key : String) (keys : List String)
    (c : ShardCoordinator) where
  -- A shard that has at most the configured number of salted keys has at most that many after any hot
  -- keys are salted, and no other shard is changed.
  add_salt_to_hot_keys_bound :
      (a : ShardAssignment)
      → lookup id c.assignments ≡ some a
      → length a.salted_keys ≤ c.max_salted_keys_per_shard
      → let c' = (add_salt_to_hot_keys now salt id (key ∷ keys) c).0 in
        (b : ShardAssignment) × (length b.salted_keys ≤ c.max_salted_keys_per_shard)
        × ((j : ℕ)
            → lookup j c'.assignments ≡ (if eqb j id then some b else lookup j c.assignments))
  unfolding add_salt_to_hot_keys salted
  add_salt_to_hot_keys_bound a found few =
      let limit = c.max_salted_keys_per_shard in
      let changes = salt_keys salt (limit - length a.salted_keys) 0 (key ∷ keys) [] in
      elim (Bool-cases (leb limit (length a.salted_keys))) [
        | inl full ↦ rw (found, full, add_salt_to_hot_keys) (a, few, λ j. ground (arith, found))
        | inr space ↦
            rw (found, space, add_salt_to_hot_keys)
              (
                record a { salted_keys = apply_salts changes a.salted_keys },
                omega (
                  arith,
                  length-apply_salts changes a.salted_keys,
                  length-salt_keys salt (limit - length a.salted_keys) 0 (key ∷ keys) [],
                ),
                λ j.
                    lookup-modify id
                      (λ b. record b { salted_keys = apply_salts changes b.salted_keys })
                      c.assignments a j found,
              )
      ]

lookup-clear_salts :
    (id : ℕ) (m : Map ℕ ShardAssignment)
    → lookup id (clear_salts m) ≡ elim (lookup id m) as (λ _. Option ShardAssignment) [
      | none ↦ none
      | some a ↦ some (record a { salted_keys = [] })
    ]
unfolding lookup clear_salts
lookup-clear_salts id [] = refl
lookup-clear_salts id ((k, a) ∷ m) = elim (Bool-cases (k == id)) [
  | inl t ↦ rw t refl
  | inr f ↦ rw f (lookup-clear_salts id m)
]

-- The removal of expired salts keeps every shard and takes all its salts, whatever their age.
remove_expired_salts_all :
    (c : ShardCoordinator) (id : ℕ)
    → let (c', n) = remove_expired_salts c in
      lookup id c'.assignments ≡ elim (lookup id c.assignments) as (λ _. Option ShardAssignment) [
        | none ↦ none
        | some a ↦ some (record a { salted_keys = [] })
      ]
unfolding remove_expired_salts
remove_expired_salts_all c id = lookup-clear_salts id c.assignments
