-- ===== src/Threshold/Examples.antt =====
-- A service whose processor load is over its threshold of 80.
use true_now.Base.{ℕ, String, true, false, ◌&&◌, none, List, [], ◌∷◌, ◌≡◌, string_eq}
use true_now.Base.Float.{whole_float}
use true_now.Base.Map.{Map, lookup}
use true_now.Threshold.{MetricConfig, evaluate_service}
use true_now.Threshold.Decision.{evaluate_service_lem}

abbrev limits : List (MetricConfig ℕ)
limits = record { metric_type = "cpu"; threshold = 80; window = 60; aggregation = "avg" } ∷ []

abbrev load : Map String ℕ
load = ("cpu", 90) ∷ []

evaluate_service_lem_example :
    let e = evaluate_service whole_float 5 "gateway" 2 load limits none in
    (e.should_scale_out ≡ true)
    × (e.should_scale_in ≡ false)
    × ((e.should_scale_out && e.should_scale_in) ≡ false)
unfolding lookup
evaluate_service_lem_example = evaluate_service_lem whole_float 5 "gateway" 2 load limits none
