-- ===== src/Adaptive/Steps.antt =====
-- One move of a limit, on words.
use true_now.Base.{◌^◌, ◌≤◌, ◌<◌, ◌≡◌, refl, Bool, true, false, if◌then◌else◌, ◌⊎◌, inl, inr, arith}
use true_now.Base.Word.{Word, sle, sdiv, add64}
use true_now.Adaptive.{at_least, at_most}

pub at_least_lem :
    (least limit new : Word)
    → least ≤ limit
    → limit < 2 ^ 62
    → new < 2 ^ 64
    → sle new limit ≡ true
    → (least ≤ at_least least new) × (at_least least new ≤ limit)
unfolding at_least
at_least_lem least limit new low small word down = ground arith

pub at_most_lem :
    (most limit new : Word)
    → limit ≤ most
    → most < 2 ^ 62
    → new < 2 ^ 64
    → sle limit new ≡ true
    → (limit ≤ at_most most new) × (at_most most new ≤ most)
unfolding at_most
at_most_lem most limit new high small word up = ground arith

pub middle_lem :
    (least most : Word)
    → least ≤ most
    → most < 2 ^ 62
    → (least ≤ sdiv (add64 least most) 2) × (sdiv (add64 least most) 2 ≤ most)
middle_lem least most order small = ground arith

pub three_ways :
    {A : Type 0} (b c d : Bool) (x y z : A)
    → let r = if b then x else if c then y else if d then z else x in (r ≡ x) ⊎ ((r ≡ y) ⊎ (r ≡ z))
three_ways true c d x y z = inl refl
three_ways false true d x y z = inr (inl refl)
three_ways false false true x y z = inr (inr refl)
three_ways false false false x y z = inl refl
