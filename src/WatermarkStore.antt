-- ===== src/WatermarkStore.antt =====
-- The store of the watermark service (services/watermark-service/internal/store/store.go). An
-- operation runs alone; `now` is the clock's reading, and `since` what `time.Since` finds that a
-- table's update just made has taken.
pub mod Types
pub mod TableKey
pub mod Violations
pub mod Table
pub mod System
mod Examples
use true_now.Base.{
  ℕ, zero, suc, ◌+◌, ◌-◌, ◌*◌, ◌/◌, ◌%◌, ◌^◌, String, Bool, true, false, not, ◌&&◌, ◌||◌, Option,
  none, some, List, [], ◌∷◌, ◌++◌, if◌then◌else◌, ◌==◌, string_eq, eqb, ltb, length,
}
use true_now.Base.Word.{Word, slt, sdiv, add64, sub64, time_sub, second, max_int64}
use true_now.Base.Float.{Float64}
use true_now.Base.Map.{Map, lookup, insert, delete}
use true_now.Base.Sort.{sort}
use true_now.WatermarkStore.Types.{
  GlobalStats, ServiceWatermark, TableWatermark, SloViolation, SystemWatermark, WatermarkUpdate,
  FreshnessConfig, HealthStatus, WatermarkStore,
}
use true_now.WatermarkStore.TableKey.{table_key, split_table_key}
use true_now.WatermarkStore.Violations.{milliseconds, check_slo_violation}
use true_now.WatermarkStore.Table.{percentile, shards_of, new_table, gather}

unfoldable pub new_watermark_store : {F : Type 0} → WatermarkStore F
new_watermark_store = record {
  service_watermarks = [];
  table_watermarks = [];
  freshness_configs = [];
  violations = [];
  update_count = 0;
  last_update = 0;
}

unfoldable pub is_service_healthy : Word → ServiceWatermark → Bool
is_service_healthy now sw =
    if slt (30 * second) (time_sub now sw.last_update)
    then false
    else not (slt (sdiv sw.event_count 2) sw.pending_count && slt 1000 sw.event_count)

unfoldable pub new_service : WatermarkUpdate → ServiceWatermark
new_service update = record {
  service_id = update.service_id;
  service_type = update.service_type;
  namespace = update.namespace;
  table = update.table;
  shard_id = update.shard_id;
  low_watermark = 0;
  high_watermark = 0;
  event_count = 0;
  pending_count = 0;
  last_update = 0;
  processing_time = 0;
  is_healthy = false;
}

-- What an update changes in its service.
unfoldable pub apply_update : Word → WatermarkUpdate → ServiceWatermark → ServiceWatermark
unfolding is_service_healthy
apply_update now update sw =
    let sw' : ServiceWatermark = record sw {
      high_watermark =
          if slt sw.high_watermark update.event_time then update.event_time else sw.high_watermark;
      low_watermark =
          if eqb sw.low_watermark 0 || slt update.event_time sw.low_watermark
          then update.event_time
          else sw.low_watermark;
      event_count = add64 sw.event_count update.event_count;
      pending_count = update.pending_count;
      processing_time = update.processing_time;
      last_update = update.timestamp;
    } in
    record sw' { is_healthy = is_service_healthy now sw' }

unfoldable pub sum_events : Map String ServiceWatermark → GlobalStats → GlobalStats
sum_events [] stats = stats
sum_events ((id, sw) ∷ m) stats = sum_events m (record stats {
  total_events = add64 stats.total_events sw.event_count;
  total_pending = add64 stats.total_pending sw.pending_count;
})

unfoldable pub get_global_stats : {F : Type 0} → WatermarkStore F → GlobalStats
unfolding sum_events
get_global_stats s = sum_events s.service_watermarks (record {
  total_services = length s.service_watermarks;
  total_tables = length s.table_watermarks;
  total_events = 0;
  total_pending = 0;
  total_violations = length s.violations;
  last_update = s.last_update;
  update_count = s.update_count;
})

unfoldable pub get_table_watermark :
    {F : Type 0} → String → String → WatermarkStore F → Option (TableWatermark F)
get_table_watermark namespace table s = lookup (table_key namespace table) s.table_watermarks

unfoldable pub set_freshness_config :
    {F : Type 0} → FreshnessConfig → WatermarkStore F → WatermarkStore F
set_freshness_config config s = record s {
  freshness_configs = insert (table_key config.namespace config.table) config s.freshness_configs;
}

-- The services without the stale ones, and how many those are.
unfoldable pub drop_stale :
    Word → Word → Map String ServiceWatermark → Map String ServiceWatermark × ℕ
drop_stale now max_age [] = ([], 0)
drop_stale now max_age ((id, sw) ∷ m) =
    let (left, removed) = drop_stale now max_age m in
    if slt max_age (time_sub now sw.last_update)
    then (left, suc removed)
    else ((id, sw) ∷ left, removed)

module _ (fl : Float64) where
  open fl use {F, of_int64, lit, add, sub, mul, div, eq}

  -- The table that the parts of a key give, if there are two.
  from_parts : List String → Option (TableWatermark F)
  unfolding new_table
  from_parts [] = none
  from_parts (a ∷ []) = none
  from_parts (a ∷ b ∷ []) = some (new_table fl a b)
  from_parts (a ∷ b ∷ c ∷ parts) = none

  find_table : String → Option (TableWatermark F) → Option (TableWatermark F)
  unfolding from_parts
  find_table key (some tw) = some tw
  find_table key none = from_parts (split_table_key key)

  -- With the shards of the table: if there are none it stays as it is.
  unfoldable pub gather_table :
      Word
      → Word
      → String
      → List ServiceWatermark
      → TableWatermark F
      → WatermarkStore F
      → WatermarkStore F
  unfolding gather
  gather_table now since key shards tw s =
      if eqb (length shards) 0
      then record s { table_watermarks = insert key tw s.table_watermarks }
      else (let tw' = gather fl now since shards tw in
          record s {
            table_watermarks = insert key tw' s.table_watermarks;
            violations =
                check_slo_violation now tw'.namespace tw'.table tw'.freshness_p99
                  s.freshness_configs s.violations;
          })

  unfoldable pub update_table_watermark : Word → Word → String → WatermarkStore F → WatermarkStore F
  unfolding find_table gather_table
  update_table_watermark now since key s = elim (find_table key (lookup key s.table_watermarks)) [
    | none ↦ s
    | some tw ↦
        gather_table now since key (shards_of tw.namespace tw.table s.service_watermarks) tw s
  ]

  unfoldable pub service_of : WatermarkUpdate → Map String ServiceWatermark → ServiceWatermark
  unfolding new_service
  service_of update services = elim (lookup update.service_id services) [
    | none ↦ new_service update
    | some sw ↦ sw
  ]

  unfoldable pub update_service_watermark :
      Word → Word → WatermarkUpdate → WatermarkStore F → WatermarkStore F
  unfolding service_of apply_update update_table_watermark
  update_service_watermark now since update s =
      let sw = apply_update now update (service_of update s.service_watermarks) in
      let s' =
        update_table_watermark now since (table_key update.namespace update.table)
          (record s { service_watermarks = insert update.service_id sw s.service_watermarks }) in
      record s' { update_count = add64 s'.update_count 1; last_update = now }

  unfoldable pub update_watermark :
      Word → Word → String → String → String → Word → WatermarkStore F → WatermarkStore F
  unfolding update_service_watermark
  update_watermark now since service namespace table watermark =
      update_service_watermark now since (record {
        service_id = service;
        service_type = "ingester";
        namespace = namespace;
        table = table;
        shard_id = 0;
        event_time = watermark;
        processing_time = milliseconds now;
        event_count = 1;
        pending_count = 0;
        timestamp = now;
      })

  unfoldable pub update_tables :
      Word → Word → Map String (TableWatermark F) → WatermarkStore F → WatermarkStore F
  unfolding update_table_watermark
  update_tables now since [] s = s
  update_tables now since ((key, tw) ∷ m) s =
      update_tables now since m (update_table_watermark now since key s)

  unfoldable pub cleanup_stale : Word → Word → Word → WatermarkStore F → WatermarkStore F × ℕ
  unfolding drop_stale update_tables
  cleanup_stale now since max_age s =
      let (left, removed) = drop_stale now max_age s.service_watermarks in
      (update_tables now since s.table_watermarks (record s { service_watermarks = left }), removed)
