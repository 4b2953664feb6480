-- ===== src/WatermarkStore/Types.antt =====
-- The data of the watermark service (services/watermark-service/pkg/types/watermark.go). Times are
-- nanoseconds, watermarks and freshness milliseconds; `F` stands for float64.
use true_now.Base.{ℕ, String, Bool, List}
use true_now.Base.Word.{Word}
use true_now.Base.Map.{Map}

pub record GlobalStats : Type 0 where
  pub total_services : ℕ
  pub total_tables : ℕ
  pub total_events : Word
  pub total_pending : Word
  pub total_violations : ℕ
  pub last_update : Word
  pub update_count : Word

pub record ServiceWatermark : Type 0 where
  pub service_id : String
  pub service_type : String
  pub namespace : String
  pub table : String
  pub shard_id : ℕ
  pub low_watermark : Word
  pub high_watermark : Word
  pub event_count : Word
  pub pending_count : Word
  pub last_update : Word
  pub processing_time : Word
  pub is_healthy : Bool

pub record TableWatermark (F : Type 0) : Type 0 where
  pub namespace : String
  pub table : String
  pub min_watermark : Word
  pub max_watermark : Word
  pub median_watermark : Word
  pub processing_time : Word
  pub freshness_p50 : Word
  pub freshness_p95 : Word
  pub freshness_p99 : Word
  pub events_per_second : F
  pub total_event_count : Word
  pub total_pending_count : Word
  pub active_shards : ℕ
  pub healthy_shards : ℕ
  pub last_update : Word
  pub shard_watermarks : List ServiceWatermark

pub record SloViolation : Type 0 where
  pub namespace : String
  pub table : String
  pub slo_target : Word
  pub actual_freshness : Word
  pub violation_start : Word
  pub duration : Word
  pub severity : String

pub record SystemWatermark (F : Type 0) : Type 0 where
  pub min_watermark : Word
  pub max_watermark : Word
  pub processing_time : Word
  pub global_freshness_p50 : Word
  pub global_freshness_p95 : Word
  pub global_freshness_p99 : Word
  pub total_events_per_sec : F
  pub total_tables : ℕ
  pub healthy_tables : ℕ
  pub violated_slos : List SloViolation
  pub table_watermarks : Map String (TableWatermark F)
  pub last_update : Word

pub record WatermarkUpdate : Type 0 where
  pub service_id : String
  pub service_type : String
  pub namespace : String
  pub table : String
  pub shard_id : ℕ
  pub event_time : Word
  pub processing_time : Word
  pub event_count : Word
  pub pending_count : Word
  pub timestamp : Word

pub record FreshnessConfig : Type 0 where
  pub namespace : String
  pub table : String
  pub target_freshness_p50 : Word
  pub target_freshness_p95 : Word
  pub target_freshness_p99 : Word
  pub alert_threshold : Word
  pub critical_threshold : Word

pub record HealthStatus : Type 0 where
  pub is_healthy : Bool
  pub last_update_time : Word
  pub stale_services : List String
  pub unhealthy_tables : List String
  pub system_freshness_p99 : Word
  pub message : String

pub record WatermarkStore (F : Type 0) : Type 0 where
  pub service_watermarks : Map String ServiceWatermark
  pub table_watermarks : Map String (TableWatermark F)
  pub freshness_configs : Map String FreshnessConfig
  pub violations : List SloViolation
  pub update_count : Word
  pub last_update : Word
