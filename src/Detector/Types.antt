-- ===== src/Detector/Types.antt =====
-- The data of the rebalancer's detector (services/rebalancer/internal/detector/detector.go and
-- services/rebalancer/pkg/types/types.go). `F` stands for float64; the measured fields of a shard
-- that the detector does not read are left out.
use true_now.Base.{ℕ, String, Bool, List, Option}
use true_now.Base.Word.{Word}
use true_now.Base.Map.{Map}
use true_now.Coordinator.{ActionType}

pub record HotKey (F : Type 0) : Type 0 where
  pub key : String
  pub requests_per_second : F
  pub percent_of_shard : F

pub record ShardMetrics (F : Type 0) : Type 0 where
  pub shard_id : ℕ
  pub requests_per_second : F
  pub bytes_per_second : F
  pub key_count : Word
  pub hot_keys : List (HotKey F)

pub data RiskLevel : Type 0 where
  risk_level_low risk_level_medium risk_level_high : RiskLevel

-- The texts of the reasons.
pub data RecommendationReason : Type 0 where
  underutilized severe_imbalance hot_keys_detected overloaded key_migration : RecommendationReason

pub record RebalanceRecommendation (F : Type 0) : Type 0 where
  pub action : ActionType
  pub shard_id : ℕ
  pub estimated_impact : F
  pub risk : RiskLevel
  pub reason : RecommendationReason

pub record LoadDistribution (F : Type 0) : Type 0 where
  pub total_rps : F
  pub total_bps : F
  pub shard_metrics : Map ℕ (ShardMetrics F)
  pub imbalance_ratio : F
  pub gini_coefficient : F
  pub hot_shards : List ℕ
  pub cold_shards : List ℕ
  pub recommendations : List (RebalanceRecommendation F)
  pub last_analysis : Word
  pub average_load : F
  pub std_deviation : F

-- The part of the rebalancer's configuration that the detector reads.
pub record RebalancerConfig (F : Type 0) : Type 0 where
  pub hot_shard_threshold : F
  pub cold_shard_threshold : F
  pub hot_key_threshold : F
  pub imbalance_threshold : F
  pub min_shard_size : Word
  pub max_shard_size : Word

-- The direction of a trend is -1, 0 or 1.
pub record LoadPattern (F : Type 0) : Type 0 where
  pub trend_direction : Word
  pub volatility : F
  pub periodicity : Word
  pub burst_count : Word
  pub last_burst : Word
  pub sustained_hot : Bool
  pub hot_duration : Word

pub record ExponentialMovingAverage (F : Type 0) : Type 0 where
  pub value : F
  pub alpha : F
  pub count : Word

pub record LoadPrediction (F : Type 0) : Type 0 where
  pub shard_id : ℕ
  pub predicted_rps : F
  pub confidence_level : F
  pub time_horizon : Word
  pub likely_hotspot : Bool
  pub likely_cold : Bool
  pub next_peak : Word

pub record HotspotDetector (F : Type 0) : Type 0 where
  pub config : RebalancerConfig F
  pub metrics_history : Map ℕ (List (ShardMetrics F))
  pub history_size : ℕ
  pub last_analysis : Word
  pub last_distribution : Option (LoadDistribution F)
  pub moving_average : Map ℕ (ExponentialMovingAverage F)
  pub standard_dev : Map ℕ F
  pub patterns : Map ℕ (LoadPattern F)
