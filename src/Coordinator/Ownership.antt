-- ===== src/Coordinator/Ownership.antt =====
-- Which virtual shards an epoch's assignments hold, and how often: the view that forgets the order of
-- the map and of the slices.
use true_now.Base.{
  ℕ, zero, suc, ◌+◌, ◌≡◌, refl, ◌∙◌, Option, none, some, List, [], ◌∷◌, ◌++◌, arith, if◌then◌else◌,
  ◌==◌, nat_eq, take, drop,
}
use true_now.Base.Word.{Word}
pub use true_now.Base.Keys.{
  HasUniqueKeys, contains-insert, contains-delete, insert-HasUniqueKeys, delete-HasUniqueKeys,
  delete-absent,
}
use true_now.Base.Map.{Map, lookup, insert, delete, contains}
use true_now.Coordinator.{ShardAssignment}
use true_now.Coordinator.Epoch.{stamp_all}

abbrev pub count : ℕ → List ℕ → ℕ
count v [] = 0
count v (x ∷ xs) = let rest = count v xs in if x == v then suc rest else rest

pub count-append : (v : ℕ) (xs ys : List ℕ) → count v (xs ++ ys) ≡ count v xs + count v ys
count-append v [] ys = omega arith
count-append v (x ∷ xs) ys = ground (arith, count-append v xs ys)

pub count-take-drop :
    (v n : ℕ) (xs : List ℕ) → count v (take n xs) + count v (drop n xs) ≡ count v xs
count-take-drop v zero xs = omega arith
count-take-drop v (suc n) [] = omega arith
count-take-drop v (suc n) (x ∷ xs) = ground (arith, count-take-drop v n xs)

-- How often the assignments hold a virtual shard.
abbrev pub held : ℕ → Map ℕ ShardAssignment → ℕ
held v [] = 0
held v ((id, a) ∷ m) = count v a.virtual_shards + held v m

-- How often one of them does.
abbrev pub held_by : ℕ → Option ShardAssignment → ℕ
held_by v none = 0
held_by v (some a) = count v a.virtual_shards

pub held-insert :
    (v k : ℕ) (a : ShardAssignment) (m : Map ℕ ShardAssignment)
    → held v (insert k a m) + held_by v (lookup k m) ≡ held v m + count v a.virtual_shards
unfolding insert lookup
held-insert v k a [] = omega arith
held-insert v k a ((i, b) ∷ m) = ground (arith, held-insert v k a m)

pub held-delete :
    (v k : ℕ) (m : Map ℕ ShardAssignment)
    → HasUniqueKeys m
    → held v (delete k m) + held_by v (lookup k m) ≡ held v m
unfolding delete lookup
held-delete v k [] u = omega arith
held-delete v k ((i, b) ∷ m) u = ground (arith, held-delete v k m u.1, delete-absent k m)

pub held-stamp_all :
    (v : ℕ) (epoch : Word) (m : Map ℕ ShardAssignment) → held v (stamp_all epoch m) ≡ held v m
unfolding stamp_all
held-stamp_all v epoch [] = refl
held-stamp_all v epoch ((i, a) ∷ m) = omega (arith, held-stamp_all v epoch m)

pub contains-stamp_all :
    (k : ℕ) (epoch : Word) (m : Map ℕ ShardAssignment)
    → contains k (stamp_all epoch m) ≡ contains k m
unfolding stamp_all contains
contains-stamp_all k epoch [] = refl
contains-stamp_all k epoch ((i, a) ∷ m) = ground (arith, contains-stamp_all k epoch m)

pub stamp_all-HasUniqueKeys :
    (epoch : Word) (m : Map ℕ ShardAssignment) → HasUniqueKeys m → HasUniqueKeys (stamp_all epoch m)
unfolding stamp_all
stamp_all-HasUniqueKeys epoch [] u = tt
stamp_all-HasUniqueKeys epoch ((i, a) ∷ m) u =
    (contains-stamp_all i epoch m ∙ u.0, stamp_all-HasUniqueKeys epoch m u.1)

pub held_by-stamp_all :
    (v k : ℕ) (epoch : Word) (m : Map ℕ ShardAssignment)
    → held_by v (lookup k (stamp_all epoch m)) ≡ held_by v (lookup k m)
unfolding stamp_all lookup
held_by-stamp_all v k epoch [] = refl
held_by-stamp_all v k epoch ((i, a) ∷ m) = ground (arith, held_by-stamp_all v k epoch m)
