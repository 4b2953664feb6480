-- ===== src/WatermarkStore/Table.antt =====
-- What a table's watermark is made of: its shards, their totals, and percentiles (updateTableWatermark).
use true_now.Base.{
  ℕ, suc, ◌-◌, ◌*◌, ◌/◌, ◌%◌, String, ◌&&◌, List, [], ◌∷◌, if◌then◌else◌, ◌==◌, string_eq, eqb,
  length, get_or,
}
use true_now.Base.Word.{Word, slt, add64, sub64, second}
use true_now.Base.Float.{Float64}
use true_now.Base.Map.{Map}
use true_now.Base.Sort.{sort}
use true_now.WatermarkStore.Types.{ServiceWatermark, TableWatermark}
use true_now.WatermarkStore.Violations.{milliseconds}

-- The entry at the given percentage of a list that is not empty.
unfoldable pub percentile : List Word → ℕ → Word
percentile values p = get_or values ((length values - 1) * p / 100) 0

-- The services of a table, in the order of a range over the map.
unfoldable pub shards_of : String → String → Map String ServiceWatermark → List ServiceWatermark
shards_of namespace table [] = []
shards_of namespace table ((id, sw) ∷ m) =
    let rest = shards_of namespace table m in
    if sw.namespace == namespace && sw.table == table then sw ∷ rest else rest

unfoldable pub high_watermarks : List ServiceWatermark → List Word
high_watermarks [] = []
high_watermarks (sw ∷ shards) = sw.high_watermark ∷ high_watermarks shards

-- How far the watermarks are behind, where they are.
unfoldable pub freshnesses : List ServiceWatermark → List Word
freshnesses [] = []
freshnesses (sw ∷ shards) =
    let rest = freshnesses shards in
    let freshness = sub64 sw.processing_time sw.high_watermark in
    if slt 0 freshness then freshness ∷ rest else rest

unfoldable pub sum_event_counts : Word → List ServiceWatermark → Word
sum_event_counts total [] = total
sum_event_counts total (sw ∷ shards) = sum_event_counts (add64 total sw.event_count) shards

unfoldable pub sum_pending_counts : Word → List ServiceWatermark → Word
sum_pending_counts total [] = total
sum_pending_counts total (sw ∷ shards) = sum_pending_counts (add64 total sw.pending_count) shards

unfoldable pub count_healthy : List ServiceWatermark → ℕ
count_healthy [] = 0
count_healthy (sw ∷ shards) = let n = count_healthy shards in if sw.is_healthy then suc n else n

module _ (fl : Float64) where
  open fl use {F, of_int64, lit, add, sub, mul, div, eq}

  unfoldable pub new_table : String → String → TableWatermark F
  new_table namespace table = record {
    namespace = namespace;
    table = table;
    min_watermark = 0;
    max_watermark = 0;
    median_watermark = 0;
    processing_time = 0;
    freshness_p50 = 0;
    freshness_p95 = 0;
    freshness_p99 = 0;
    events_per_second = lit 0 1;
    total_event_count = 0;
    total_pending_count = 0;
    active_shards = 0;
    healthy_shards = 0;
    last_update = 0;
    shard_watermarks = [];
  }

  -- Of the watermarks, sorted.
  unfoldable pub set_watermarks : List Word → TableWatermark F → TableWatermark F
  set_watermarks sorted tw = record tw {
    min_watermark = get_or sorted 0 0;
    max_watermark = get_or sorted (length sorted - 1) 0;
    median_watermark = get_or sorted (length sorted / 2) 0;
  }

  unfoldable pub set_freshness : List Word → TableWatermark F → TableWatermark F
  unfolding percentile
  set_freshness sorted tw = if eqb (length sorted) 0 then tw else record tw {
    freshness_p50 = percentile sorted 50;
    freshness_p95 = percentile sorted 95;
    freshness_p99 = percentile sorted 99;
  }

  unfoldable pub set_totals : Word → List ServiceWatermark → TableWatermark F → TableWatermark F
  unfolding sum_event_counts sum_pending_counts count_healthy
  set_totals now shards tw = record tw {
    processing_time = milliseconds now;
    total_event_count = sum_event_counts 0 shards;
    total_pending_count = sum_pending_counts 0 shards;
    active_shards = length shards;
    healthy_shards = count_healthy shards;
    last_update = now;
    shard_watermarks = shards;
  }

  -- `d.Seconds()` of a duration that is not negative.
  unfoldable pub seconds : Word → F
  seconds d = add (of_int64 (d / second)) (div (of_int64 (d % second)) (lit second 1))

  -- The rate comes after the totals: `since` is the time since the table's last update, a moment ago.
  unfoldable pub set_rate : Word → Word → TableWatermark F → TableWatermark F
  unfolding seconds
  set_rate events since tw = record tw {
    events_per_second =
        if eq tw.events_per_second (lit 0 1)
        then div (of_int64 events) (lit 60 1)
        else (let new_rate = div (of_int64 (sub64 events tw.total_event_count)) (seconds since) in
            add (mul (lit 1 10) new_rate) (mul (sub (lit 1 1) (lit 1 10)) tw.events_per_second));
  }

  -- The table from its shards, of which there is one at least.
  unfoldable pub gather : Word → Word → List ServiceWatermark → TableWatermark F → TableWatermark F
  unfolding set_watermarks set_freshness set_totals set_rate high_watermarks freshnesses
      sum_event_counts
  gather now since shards tw = set_rate (sum_event_counts 0 shards) since (
      set_totals now shards (
        set_freshness (sort slt (freshnesses shards))
          (set_watermarks (sort slt (high_watermarks shards)) tw)))
