-- ===== src/Detector.antt =====
-- The rebalancer's detector of hot shards (services/rebalancer/internal/detector/detector.go). The
-- square root and the absolute value of float64 are parameters, as are the readings of the clock.
pub mod Types
pub mod Analysis
pub mod Latest
pub mod HotKeys
pub mod Window
pub mod Shards
mod Examples
use true_now.Base.{
  ℕ, zero, suc, ◌+◌, ◌-◌, ◌*◌, ◌^◌, Bool, true, false, Option, none, some, List, [], ◌∷◌, ◌++◌,
  if◌then◌else◌, ltb, leb, eqb, nat_eq, length, drop, take,
}
use true_now.Base.Word.{Word, add64, slt, second}
use true_now.Base.Float.{Float64}
use true_now.Base.Map.{Map, lookup, insert}
use true_now.Detector.Types.{
  ShardMetrics, RebalancerConfig, LoadPattern, ExponentialMovingAverage, HotspotDetector,
  LoadPrediction,
}

module _ {F : Type 0} where
  unfoldable pub new_hotspot_detector : RebalancerConfig F → HotspotDetector F
  new_hotspot_detector config = record {
    config = config;
    metrics_history = [];
    history_size = 60;
    last_analysis = 0;
    last_distribution = none;
    moving_average = [];
    standard_dev = [];
    patterns = [];
  }

  unfoldable pub history_of : ℕ → HotspotDetector F → List (ShardMetrics F)
  history_of shard d = elim (lookup shard d.metrics_history) [ none ↦ [] | some h ↦ h ]

  unfoldable pub last_of : List (ShardMetrics F) → Option (ShardMetrics F)
  last_of [] = none
  last_of (m ∷ ms) = elim (last_of ms) [ none ↦ some m | some l ↦ some l ]

  unfoldable pub get_shard_metrics : ℕ → HotspotDetector F → Option (ShardMetrics F)
  unfolding history_of last_of
  get_shard_metrics shard d = last_of (history_of shard d)

  -- The rolling window.
  unfoldable pub add_to_history : ℕ → ShardMetrics F → List (ShardMetrics F) → List (ShardMetrics F)
  add_to_history size metrics history =
      let longer = history ++ (metrics ∷ []) in
      if ltb size (length longer) then drop (length longer - size) longer else longer

module _ (fl : Float64) where
  open fl use {F, lit, add, sub, mul, div, lt, of_int64}

  unfoldable pub update_average : F → ExponentialMovingAverage F → ExponentialMovingAverage F
  update_average new ema = record ema {
    value =
        if eqb ema.count 0
        then new
        else add (mul ema.alpha new) (mul (sub (lit 1 1) ema.alpha) ema.value);
    count = add64 ema.count 1;
  }

  unfoldable pub next_average : F → Option (ExponentialMovingAverage F) → ExponentialMovingAverage F
  unfolding update_average
  next_average rps none = record { value = rps; alpha = lit 2 10; count = 1 }
  next_average rps (some ema) = update_average rps ema

  unfoldable pub sum_rps : List (ShardMetrics F) → F → F
  sum_rps [] sum = sum
  sum_rps (m ∷ ms) sum = sum_rps ms (add sum m.requests_per_second)

  sum_squares : F → List (ShardMetrics F) → F → F
  sum_squares mean [] sum = sum
  sum_squares mean (m ∷ ms) sum =
      let diff = sub m.requests_per_second mean in sum_squares mean ms (add sum (mul diff diff))

  unfoldable pub calculate_average : List (ShardMetrics F) → F
  unfolding sum_rps
  calculate_average metrics =
      if eqb (length metrics) 0
      then lit 0 1
      else div (sum_rps metrics (lit 0 1)) (of_int64 (length metrics))

  unfoldable pub update_standard_deviation : (F → F) → ℕ → List (ShardMetrics F) → Map ℕ F → Map ℕ F
  unfolding sum_rps sum_squares
  update_standard_deviation sqrt shard history devs =
      if ltb (length history) 2
      then devs
      else let count = of_int64 (length history) in
        let mean = div (sum_rps history (lit 0 1)) count in
        insert shard (sqrt (div (sum_squares mean history (lit 0 1)) count)) devs

  trend : List (ShardMetrics F) → Word
  unfolding calculate_average
  trend history =
      let recent = calculate_average (drop (length history - 5) history) in
      let older = calculate_average (take 5 (drop (length history - 10) history)) in
      if lt (mul older (lit 11 10)) recent
      then 1
      else if lt recent (mul older (lit 9 10))
      then 2 ^ 64 - 1
      else 0

  count_hot : F → List (ShardMetrics F) → ℕ
  count_hot threshold [] = 0
  count_hot threshold (m ∷ ms) =
      let rest = count_hot threshold ms in
      if lt threshold m.requests_per_second then suc rest else rest

  abbrev no_pattern : LoadPattern F
  no_pattern = record {
    trend_direction = 0;
    volatility = lit 0 1;
    periodicity = 0;
    burst_count = 0;
    last_burst = 0;
    sustained_hot = false;
    hot_duration = 0;
  }

  -- The pattern after a history whose latest metrics have the rate `latest`.
  next_pattern : Word → F → F → F → F → List (ShardMetrics F) → LoadPattern F → LoadPattern F
  unfolding trend count_hot
  next_pattern now hot_threshold deviation average latest history pattern =
      let burst = lt (mul average (lit 2 1)) latest in
      let hot = count_hot (mul average hot_threshold) (drop (length history - 12) history) in
      record pattern {
        trend_direction = trend history;
        volatility = deviation;
        burst_count = if burst then add64 pattern.burst_count 1 else pattern.burst_count;
        last_burst = if burst then now else pattern.last_burst;
        sustained_hot = leb 10 hot;
        hot_duration = if leb 10 hot then hot * 5 * second else 0;
      }

  unfoldable pub value_or : F → Option F → F
  value_or d none = d
  value_or d (some v) = v

  unfoldable pub pattern_or : Option (LoadPattern F) → LoadPattern F
  pattern_or none = no_pattern
  pattern_or (some p) = p

  unfoldable pub detect_patterns :
      Word
      → F
      → ℕ
      → F
      → F
      → Map ℕ F
      → List (ShardMetrics F)
      → Map ℕ (LoadPattern F)
      → Map ℕ (LoadPattern F)
  unfolding next_pattern value_or pattern_or
  detect_patterns now hot_threshold shard average latest devs history patterns =
      if ltb (length history) 10
      then patterns
      else insert shard
          (next_pattern now hot_threshold (value_or (lit 0 1) (lookup shard devs)) average latest
            history (pattern_or (lookup shard patterns)))
          patterns

  -- The pointer to the metrics is not nil, and the object is not written to afterwards.
  unfoldable pub update_metrics :
      (F → F) → Word → ℕ → ShardMetrics F → HotspotDetector F → HotspotDetector F
  unfolding history_of add_to_history next_average update_standard_deviation detect_patterns
  update_metrics sqrt now shard metrics d =
      let history = add_to_history d.history_size metrics (history_of shard d) in
      let ema = next_average metrics.requests_per_second (lookup shard d.moving_average) in
      let devs = update_standard_deviation sqrt shard history d.standard_dev in
      record d {
        metrics_history = insert shard history d.metrics_history;
        moving_average = insert shard ema d.moving_average;
        standard_dev = devs;
        patterns =
            detect_patterns now d.config.hot_shard_threshold shard ema.value
              metrics.requests_per_second devs history d.patterns;
      }

  sum_averages : Map ℕ (ExponentialMovingAverage F) → F → F
  sum_averages [] total = total
  sum_averages ((shard, ema) ∷ averages) total = sum_averages averages (add total ema.value)

  unfoldable pub calculate_system_average : HotspotDetector F → F
  unfolding sum_averages
  calculate_system_average d =
      if eqb (length d.moving_average) 0
      then lit 0 1
      else div (sum_averages d.moving_average (lit 0 1)) (of_int64 (length d.moving_average))

  confidence : F → F
  confidence volatility =
      if lt volatility (lit 1 10)
      then lit 8 10
      else if lt (lit 5 10) volatility
      then lit 3 10
      else lit 5 10

  predict : Word → ℕ → F → LoadPattern F → HotspotDetector F → LoadPrediction F
  unfolding calculate_system_average confidence
  predict now shard average pattern d =
      let system = calculate_system_average d in
      let up = slt 0 pattern.trend_direction in
      let down = slt pattern.trend_direction 0 in
      let rps =
        if up then mul average (lit 11 10) else if down then mul average (lit 9 10) else average in
      record {
        shard_id = shard;
        predicted_rps = rps;
        confidence_level = confidence pattern.volatility;
        time_horizon = 300 * second;
        likely_hotspot = if up then lt (mul system d.config.hot_shard_threshold) rps else false;
        likely_cold =
            if up
            then false
            else if down
            then lt rps (mul system d.config.cold_shard_threshold)
            else false;
        next_peak =
            if slt 0 pattern.periodicity then add64 now (pattern.periodicity * 5 * second) else 0;
      }

  -- The outer `none` stands for the panic of a shard that has a pattern but no average.
  unfoldable pub predictive_analysis :
      Word → ℕ → HotspotDetector F → Option (Option (LoadPrediction F))
  unfolding history_of predict
  predictive_analysis now shard d =
      if ltb (length (history_of shard d)) 20 then some none else elim (lookup shard d.patterns) [
        | none ↦ some none
        | some pattern ↦ elim (lookup shard d.moving_average) [
          | none ↦ none
          | some ema ↦ some (some (predict now shard ema.value pattern d))
        ]
      ]
