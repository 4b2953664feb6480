-- ===== src/Detector/Analysis.antt =====
-- The analysis of the load distribution (AnalyzeDistribution, recommendActionForHotShard and
-- calculateGiniCoefficient).
use true_now.Base.{
  ℕ, ◌+◌, Bool, false, Option, none, some, List, [], ◌∷◌, ◌++◌, if◌then◌else◌, eqb, leb, nat_eq,
  length, ◌||◌, ◌&&◌,
}
use true_now.Base.Word.{Word, slt}
use true_now.Base.Float.{Float64}
use true_now.Base.Map.{Map, lookup, insert}
use true_now.Base.Sort.{sort}
use true_now.Coordinator.{merge_shard, redistribute, add_salt, split_shard, migrate_keys}
use true_now.Detector.Types.{
  HotKey, ShardMetrics, risk_level_low, risk_level_medium, risk_level_high, underutilized,
  severe_imbalance, hot_keys_detected, overloaded, key_migration, RebalanceRecommendation,
  LoadDistribution, RebalancerConfig, LoadPattern, HotspotDetector,
}
use true_now.Detector.{last_of}

-- What the first loop over the histories collects.
pub record Latest (F : Type 0) : Type 0 where
  pub shard_metrics : Map ℕ (ShardMetrics F)
  pub total_rps : F
  pub total_bps : F
  pub rps_values : List F

-- The shards that the second loop has listed, and what it recommends.
pub record Listed (F : Type 0) : Type 0 where
  pub hot_shards : List ℕ
  pub cold_shards : List ℕ
  pub recommendations : List (RebalanceRecommendation F)

module _ (fl : Float64) where
  open fl use {F, lit, add, sub, mul, div, lt, eq, of_int64}

  unfoldable pub collect_latest : Map ℕ (List (ShardMetrics F)) → Latest F → Latest F
  unfolding last_of
  collect_latest [] l = l
  collect_latest ((shard, history) ∷ histories) l = elim (last_of history) [
    | none ↦ collect_latest histories l
    | some latest ↦ collect_latest histories (record {
      shard_metrics = insert shard latest l.shard_metrics;
      total_rps = add l.total_rps latest.requests_per_second;
      total_bps = add l.total_bps latest.bytes_per_second;
      rps_values = l.rps_values ++ (latest.requests_per_second ∷ []);
    })
  ]

  variance_sum : F → List F → F → F
  variance_sum average [] sum = sum
  variance_sum average (rps ∷ values) sum =
      let diff = sub rps average in variance_sum average values (add sum (mul diff diff))

  max_of : List F → F → F
  max_of [] most = most
  max_of (rps ∷ values) most = max_of values (if lt most rps then rps else most)

  -- The running sum and the sum of the running sums.
  cumulate : List F → F → F → F × F
  cumulate [] cum sum = (cum, sum)
  cumulate (v ∷ values) cum sum = let cum' = add cum v in cumulate values cum' (add sum cum')

  unfoldable pub calculate_gini_coefficient : (F → F) → List F → F
  unfolding cumulate sort
  calculate_gini_coefficient abs values =
      if eqb (length values) 0
      then lit 0 1
      else let n = length values in
        let (cum, sum) = cumulate (sort lt values) (lit 0 1) (lit 0 1) in
        if eq cum (lit 0 1)
        then lit 0 1
        else abs (
            sub (div (mul (lit 2 1) sum) (mul (of_int64 n) cum))
              (div (of_int64 (n + 1)) (of_int64 n)))

  sum_hot_keys : List (HotKey F) → F → F
  sum_hot_keys [] total = total
  sum_hot_keys (hk ∷ hks) total = sum_hot_keys hks (add total hk.requests_per_second)

  unfoldable pub recommend_action_for_hot_shard :
      RebalancerConfig F → ℕ → ShardMetrics F → F → Bool → RebalanceRecommendation F
  unfolding sum_hot_keys
  recommend_action_for_hot_shard config shard metrics ratio sustained =
      let total = sum_hot_keys metrics.hot_keys (lit 0 1) in
      if leb 1 (length metrics.hot_keys) && lt (lit 5 10) (div total metrics.requests_per_second)
      then record {
        action = add_salt;
        shard_id = shard;
        estimated_impact = div total metrics.requests_per_second;
        risk = risk_level_low;
        reason = hot_keys_detected;
      }
      else if slt config.max_shard_size metrics.key_count || sustained
      then record {
        action = split_shard;
        shard_id = shard;
        estimated_impact = div (sub ratio (lit 1 1)) ratio;
        risk = if sustained && lt (lit 2 1) ratio then risk_level_high else risk_level_medium;
        reason = overloaded;
      }
      else record {
        action = migrate_keys;
        shard_id = shard;
        estimated_impact = lit 3 10;
        risk = risk_level_medium;
        reason = key_migration;
      }

  unfoldable pub is_sustained : Option (LoadPattern F) → Bool
  is_sustained none = false
  is_sustained (some pattern) = pattern.sustained_hot

  abbrev pub merge_recommendation : ℕ → RebalanceRecommendation F
  merge_recommendation shard = record {
    action = merge_shard;
    shard_id = shard;
    estimated_impact = lit 1 10;
    risk = risk_level_low;
    reason = underutilized;
  }

  -- The entries of one shard in what is listed.
  unfoldable pub list_shard : HotspotDetector F → F → ℕ → ShardMetrics F → Listed F → Listed F
  unfolding recommend_action_for_hot_shard is_sustained
  list_shard d average shard metrics l =
      let ratio = div metrics.requests_per_second average in
      if lt d.config.hot_shard_threshold ratio
      then record l {
        hot_shards = l.hot_shards ++ (shard ∷ []);
        recommendations =
            l.recommendations
            ++ (recommend_action_for_hot_shard d.config shard metrics ratio
                  (is_sustained (lookup shard d.patterns))
                ∷ []);
      }
      else if lt ratio d.config.cold_shard_threshold
      then record l {
        cold_shards = l.cold_shards ++ (shard ∷ []);
        recommendations =
            if slt metrics.key_count d.config.min_shard_size
            then l.recommendations ++ (merge_recommendation shard ∷ [])
            else l.recommendations;
      }
      else l

  unfoldable pub list_shards : HotspotDetector F → F → Map ℕ (ShardMetrics F) → Listed F → Listed F
  unfolding list_shard
  list_shards d average [] l = l
  list_shards d average ((shard, metrics) ∷ m) l =
      list_shards d average m (list_shard d average shard metrics l)

  abbrev pub nothing_collected : Latest F
  nothing_collected = record {
    shard_metrics = [];
    total_rps = lit 0 1;
    total_bps = lit 0 1;
    rps_values = [];
  }

  abbrev pub nothing_listed : Listed F
  nothing_listed = record { hot_shards = []; cold_shards = []; recommendations = [] }

  abbrev pub imbalance_recommendation : F → RebalanceRecommendation F
  imbalance_recommendation impact = record {
    action = redistribute;
    shard_id = 0;
    estimated_impact = impact;
    risk = risk_level_medium;
    reason = severe_imbalance;
  }

  abbrev pub empty_distribution : Word → Latest F → LoadDistribution F
  empty_distribution now latest = record {
    total_rps = latest.total_rps;
    total_bps = latest.total_bps;
    shard_metrics = latest.shard_metrics;
    imbalance_ratio = lit 0 1;
    gini_coefficient = lit 0 1;
    hot_shards = [];
    cold_shards = [];
    recommendations = [];
    last_analysis = now;
    average_load = lit 0 1;
    std_deviation = lit 0 1;
  }

  unfoldable pub distribution_of :
      (F → F) → (F → F) → Word → Latest F → HotspotDetector F → LoadDistribution F
  unfolding variance_sum max_of calculate_gini_coefficient list_shards
  distribution_of sqrt abs now latest d =
      let count = of_int64 (length latest.rps_values) in
      let average = div latest.total_rps count in
      let gini = calculate_gini_coefficient abs latest.rps_values in
      let listed = list_shards d average latest.shard_metrics nothing_listed in
      record (empty_distribution now latest) {
        average_load = average;
        std_deviation = sqrt (div (variance_sum average latest.rps_values (lit 0 1)) count);
        imbalance_ratio =
            if lt (lit 0 1) average
            then div (max_of latest.rps_values (lit 0 1)) average
            else lit 0 1;
        gini_coefficient = gini;
        hot_shards = listed.hot_shards;
        cold_shards = listed.cold_shards;
        recommendations =
            if lt d.config.imbalance_threshold gini
            then listed.recommendations
              ++ (imbalance_recommendation (sub gini d.config.imbalance_threshold) ∷ [])
            else listed.recommendations;
      }

  -- The clock is read twice: for the distribution, and for the detector at the end.
  unfoldable pub analyze_distribution :
      (F → F) → (F → F) → Word → Word → HotspotDetector F → HotspotDetector F × LoadDistribution F
  unfolding collect_latest distribution_of
  analyze_distribution sqrt abs now later d =
      let latest = collect_latest d.metrics_history nothing_collected in
      if eqb (length latest.rps_values) 0
      then (d, empty_distribution now latest)
      else let dist = distribution_of sqrt abs now latest d in
        (record d { last_distribution = some dist; last_analysis = later }, dist)
