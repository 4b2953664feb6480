-- ===== src/Pressure/Examples.antt =====
-- A coordinator whose window holds two ticks, and whose gateway is at its maximum.
use true_now.Base.{ℕ, ◌*◌, ◌≤◌, ◌<◌, ◌≡◌, refl, true, false, some, [], ◌∷◌, length, arith}
use true_now.Base.Word.{second}
use true_now.Base.Float.{whole_float}
use true_now.Pressure.Config.{BackpressureConfig, default_backpressure_config}
use true_now.Pressure.{BackpressureCoordinator, get_smoothed_level, calculate_level}
use true_now.Pressure.Smoothing.{occurrences, get_smoothed_level-occurrences}
use true_now.Pressure.Ticks.{ticks, ticks-calculate_level}

abbrev config : BackpressureConfig ℕ
config = record (default_backpressure_config whole_float) {
  critical_threshold = 1;
  smoothing_window = 10 * second;
}

abbrev coordinator : BackpressureCoordinator ℕ
coordinator = record {
  config = config;
  current_level = 0;
  service_states =
      (
        "gateway",
        record {
          service_name = "gateway";
          current_instances = 4;
          max_instances = 4;
          scale_percentage = 1;
          is_at_max_scale = true;
          last_updated = 0;
        },
      )
      ∷ [];
  level_changes = 0;
  requests_dropped = 0;
  level_history = 0 ∷ [];
  stop_closed = false;
}

ticks-calculate_level_example :
    (bc' : BackpressureCoordinator ℕ) × (ticks whole_float 2 coordinator ≡ some bc')
    × (bc'.current_level ≡ calculate_level whole_float coordinator)
    × (length bc'.level_history ≤ 2)
ticks-calculate_level_example =
    ticks-calculate_level whole_float 1 coordinator refl (omega arith) (omega arith)

get_smoothed_level-occurrences_example :
    let smoothed = get_smoothed_level (0 ∷ 3 ∷ 3 ∷ []) in
    (0 < occurrences smoothed (0 ∷ 3 ∷ 3 ∷ []))
    × (occurrences 0 (0 ∷ 3 ∷ 3 ∷ []) ≤ occurrences smoothed (0 ∷ 3 ∷ 3 ∷ []))
get_smoothed_level-occurrences_example =
    get_smoothed_level-occurrences 0 (0 ∷ 3 ∷ 3 ∷ []) (omega arith)
