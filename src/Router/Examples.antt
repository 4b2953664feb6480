-- ===== src/Router/Examples.antt =====
-- The theorems on a router of which one instance has failed.
use true_now.Base.{◌≡◌, refl, true, none, some, [], ◌∷◌, string_eq}
use true_now.Base.Map.{lookup}
use true_now.Router.{Router, Attempt, is_circuit_open}
use true_now.Router.Circuits.{route_all, served, is_circuit_open-route_all}

abbrev broken : Router
broken = record {
  failures = ("a", 5) ∷ ("b", 4) ∷ [];
  failure_limit = 5;
  request_count = 9;
  error_count = 9;
}

abbrev to_a : Attempt
to_a = record { instance_id = some "a"; client_error = none }

abbrev to_b : Attempt
to_b = record { instance_id = some "b"; client_error = none }

-- Both instances would answer again.
is_circuit_open-route_all_example :
    let (r', errs) = route_all (to_a ∷ to_b ∷ to_a ∷ []) broken in
    (is_circuit_open "a" r' ≡ true) × (served "a" (to_a ∷ to_b ∷ to_a ∷ []) errs ≡ 0)
unfolding is_circuit_open lookup
is_circuit_open-route_all_example =
    is_circuit_open-route_all "a" (to_a ∷ to_b ∷ to_a ∷ []) broken refl
