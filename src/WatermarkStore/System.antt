-- ===== src/WatermarkStore/System.antt =====
-- The watermark of the whole system and its health (GetSystemWatermark, GetHealthStatus).
use true_now.Base.{suc, ◌*◌, ◌/◌, String, not, ◌&&◌, List, [], ◌∷◌, if◌then◌else◌, eqb, ltb, length}
use true_now.Base.Word.{Word, slt, time_sub, second, max_int64}
use true_now.Base.Float.{Float64}
use true_now.Base.Map.{Map}
use true_now.Base.Sort.{sort}
use true_now.WatermarkStore.Types.{
  ServiceWatermark, TableWatermark, SystemWatermark, HealthStatus, WatermarkStore,
}
use true_now.WatermarkStore.Violations.{milliseconds}
use true_now.WatermarkStore.Table.{percentile}

unfoldable pub find_stale_services : Word → Map String ServiceWatermark → List String
find_stale_services now [] = []
find_stale_services now ((id, sw) ∷ m) =
    let rest = find_stale_services now m in
    if slt (30 * second) (time_sub now sw.last_update) then id ∷ rest else rest

unfoldable pub find_unhealthy_tables : {F : Type 0} → Map String (TableWatermark F) → List String
find_unhealthy_tables [] = []
find_unhealthy_tables ((key, tw) ∷ m) =
    let rest = find_unhealthy_tables m in
    if ltb tw.healthy_shards (tw.active_shards / 2) then key ∷ rest else rest

unfoldable pub all_freshnesses : {F : Type 0} → Map String (TableWatermark F) → List Word
all_freshnesses [] = []
all_freshnesses ((key, tw) ∷ m) =
    let rest = all_freshnesses m in if slt 0 tw.freshness_p99 then tw.freshness_p99 ∷ rest else rest

module _ (fl : Float64) where
  open fl use {F, lit, add}

  -- One table's part in the aggregates.
  unfoldable pub add_table : TableWatermark F → SystemWatermark F → SystemWatermark F
  add_table tw sw = record sw {
    min_watermark =
        if slt tw.min_watermark sw.min_watermark then tw.min_watermark else sw.min_watermark;
    max_watermark =
        if slt sw.max_watermark tw.max_watermark then tw.max_watermark else sw.max_watermark;
    total_events_per_sec = add sw.total_events_per_sec tw.events_per_second;
    healthy_tables =
        if eqb tw.healthy_shards tw.active_shards && ltb 0 tw.active_shards
        then suc sw.healthy_tables
        else sw.healthy_tables;
  }

  unfoldable pub add_tables : Map String (TableWatermark F) → SystemWatermark F → SystemWatermark F
  unfolding add_table
  add_tables [] sw = sw
  add_tables ((key, tw) ∷ m) sw = add_tables m (add_table tw sw)

  unfoldable pub set_global_freshness : List Word → SystemWatermark F → SystemWatermark F
  set_global_freshness sorted sw = if eqb (length sorted) 0 then sw else record sw {
    global_freshness_p50 = percentile sorted 50;
    global_freshness_p95 = percentile sorted 95;
    global_freshness_p99 = percentile sorted 99;
  }

  unfoldable pub get_system_watermark : Word → WatermarkStore F → SystemWatermark F
  unfolding all_freshnesses add_tables set_global_freshness
  get_system_watermark now s =
      set_global_freshness (sort slt (all_freshnesses s.table_watermarks)) (
        add_tables s.table_watermarks (record {
          min_watermark = max_int64;
          max_watermark = 0;
          processing_time = milliseconds now;
          global_freshness_p50 = 0;
          global_freshness_p95 = 0;
          global_freshness_p99 = 0;
          total_events_per_sec = lit 0 1;
          total_tables = length s.table_watermarks;
          healthy_tables = 0;
          violated_slos = s.violations;
          table_watermarks = s.table_watermarks;
          last_update = s.last_update;
        }))

  unfoldable pub get_health_status : Word → WatermarkStore F → HealthStatus
  unfolding find_stale_services find_unhealthy_tables get_system_watermark
  get_health_status now s =
      let stale = find_stale_services now s.service_watermarks in
      let tables = find_unhealthy_tables s.table_watermarks in
      let p99 = (get_system_watermark now s).global_freshness_p99 in
      record {
        is_healthy = eqb (length stale) 0 && eqb (length tables) 0 && not (slt 30_000 p99);
        last_update_time = s.last_update;
        stale_services = stale;
        unhealthy_tables = tables;
        system_freshness_p99 = p99;
        message =
            if slt 30_000 p99
            then "System freshness P99 exceeds 30 seconds"
            else if ltb 0 (length stale)
            then "Some services have stale watermarks"
            else if ltb 0 (length tables)
            then "Some tables have unhealthy shards"
            else "All systems healthy";
      }
