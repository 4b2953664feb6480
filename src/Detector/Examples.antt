-- ===== src/Detector/Examples.antt =====
-- The detector on a few updates of two shards.
use true_now.Base.{ℕ, ◌≡◌, refl, String, none, List, [], ◌∷◌, string_eq, nat_eq}
use true_now.Base.Word.{Word}
use true_now.Base.Float.{whole_float}
use true_now.Base.Map.{Map, lookup, contains}
use true_now.Base.{latest}
use true_now.Detector.Types.{ShardMetrics, RebalancerConfig, HotspotDetector}
use true_now.Detector.{new_hotspot_detector, history_of}
use true_now.Detector.Window.{submitted, update_all, history_of-update_all}
use true_now.Detector.HotKeys.{detect_hot_keys, sum_values, is_listed, is_over, detect_hot_keys_lem}
use true_now.Detector.Shards.{is_member, is_hot, is_cold, analyze_distribution_lem}
use true_now.Detector.Latest.{newest_in, average_rate}
use true_now.Detector.Analysis.{analyze_distribution}

abbrev thresholds : RebalancerConfig ℕ
thresholds = record {
  hot_shard_threshold = 0;
  cold_shard_threshold = 1;
  hot_key_threshold = 0;
  imbalance_threshold = 5;
  min_shard_size = 10;
  max_shard_size = 100;
}

abbrev measured : ℕ → ℕ → ShardMetrics ℕ
measured shard rps = record {
  shard_id = shard;
  requests_per_second = rps;
  bytes_per_second = 0;
  key_count = 50;
  hot_keys = [];
}

abbrev updates : List (Word × ℕ × ShardMetrics ℕ)
updates = (1, 1, measured 1 100) ∷ (2, 2, measured 2 5) ∷ (3, 1, measured 1 120) ∷ []

history_of-update_all_example :
    history_of 1 (update_all whole_float (λ a. a) updates (new_hotspot_detector thresholds))
    ≡ latest 60 (submitted 1 updates)
history_of-update_all_example = history_of-update_all whole_float (λ a. a) 1 updates thresholds

abbrev key_rates : Map String ℕ
key_rates = ("a", 90) ∷ ("b", 10) ∷ []

detect_hot_keys_lem_example :
    is_listed whole_float "a" (detect_hot_keys whole_float 0 key_rates)
    ≡ is_over whole_float 0 (sum_values whole_float key_rates 0) (lookup "a" key_rates)
unfolding contains
detect_hot_keys_lem_example = detect_hot_keys_lem whole_float "a" 0 key_rates (refl, (refl, tt))

abbrev detector : HotspotDetector ℕ
detector = record {
  config = thresholds;
  metrics_history = (1, measured 1 100 ∷ measured 1 120 ∷ []) ∷ (2, measured 2 5 ∷ []) ∷ [];
  history_size = 60;
  last_analysis = 0;
  last_distribution = none;
  moving_average = [];
  standard_dev = [];
  patterns = [];
}

analyze_distribution_lem_example :
    let dist = (analyze_distribution whole_float (λ a. a) (λ a. a) 4 4 detector).1 in
    let metrics = newest_in whole_float 1 detector.metrics_history in
    (is_member 1 dist.hot_shards
      ≡ is_hot whole_float detector (average_rate whole_float detector) metrics)
    × (is_member 1 dist.cold_shards
        ≡ is_cold whole_float detector (average_rate whole_float detector) metrics)
unfolding contains
analyze_distribution_lem_example =
    analyze_distribution_lem whole_float (λ a. a) (λ a. a) 4 4 detector 1 (refl, (refl, tt))
