-- ===== src/Watermark.antt =====
-- The gateway's watermark tracker (services/gateway/internal/watermark/tracker.go, with the state
-- type of types.go). Times are milliseconds. An operation runs alone: its loops that compare and swap
-- succeed at the first try, and the k-th reading of the clock in it is `now k`.
pub mod Partitions
pub mod Invariant
pub mod Updates
mod Examples
use true_now.Base.{
  ℕ, suc, ◌*◌, ◌+◌, ◌-◌, ◌^◌, Bool, true, false, not, ◌&&◌, Option, none, some, List, [], ◌∷◌,
  if◌then◌else◌, eqb, nat_eq,
}
use true_now.Base.Word.{Word, add64, sub64, slt, sle, add32, max_int64}
use true_now.Base.Map.{Map, lookup, insert}

pub record PartitionWatermark : Type 0 where
  pub partition_id : ℕ
  pub low_watermark : Word
  pub high_watermark : Word
  pub committed_offset : Word
  pub pending_count : Word
  pub last_update : Word

pub record WatermarkTracker : Type 0 where
  pub partition_watermarks : Map ℕ PartitionWatermark
  pub min_watermark : Word
  pub max_watermark : Word
  pub processing_time : Word
  pub event_time : Word
  pub watermark_lag : Word
  pub partition_count : ℕ
  pub last_update : Word
  pub update_count : Word

unfoldable pub new_watermark_tracker : Word → WatermarkTracker
new_watermark_tracker now = record {
  partition_watermarks = [];
  min_watermark = now;
  max_watermark = now;
  processing_time = now;
  event_time = 0;
  watermark_lag = 0;
  partition_count = 0;
  last_update = now;
  update_count = 0;
}

-- The loop that raises an atomic value to a new one, unless it is as high already.
abbrev pub raise : Word → Word → Word
raise value current = if sle value current then current else value

abbrev pub new_partition : ℕ → PartitionWatermark
new_partition id = record {
  partition_id = id;
  low_watermark = 0;
  high_watermark = 0;
  committed_offset = 0;
  pending_count = 0;
  last_update = 0;
}

unfoldable pub get_or_create_partition :
    ℕ → WatermarkTracker → WatermarkTracker × PartitionWatermark
get_or_create_partition id wt = elim (lookup id wt.partition_watermarks) [
  | some pw ↦ (wt, pw)
  | none ↦ (
    record wt {
      partition_watermarks = insert id (new_partition id) wt.partition_watermarks;
      partition_count = add32 wt.partition_count 1;
    },
    new_partition id,
  )
]

-- The walk over the partitions: the least positive low watermark, from `least` on.
unfoldable pub least_low : Word → Map ℕ PartitionWatermark → Word
least_low least [] = least
least_low least ((id, pw) ∷ m) =
    least_low
      (if slt 0 pw.low_watermark && slt pw.low_watermark least then pw.low_watermark else least) m

unfoldable pub update_global_watermarks : Word → WatermarkTracker → WatermarkTracker
update_global_watermarks event_time wt =
    let least = least_low max_int64 wt.partition_watermarks in
    record wt {
      max_watermark = raise event_time wt.max_watermark;
      min_watermark = if eqb least max_int64 then wt.min_watermark else least;
    }

-- What an event does to its partition.
unfoldable pub see_event : Word → Word → PartitionWatermark → PartitionWatermark
see_event now event_time pw = record pw {
  high_watermark = raise event_time pw.high_watermark;
  low_watermark = if eqb pw.low_watermark 0 then event_time else pw.low_watermark;
  pending_count = add64 pw.pending_count 1;
  last_update = now;
}

-- The offset of the event is not used.
unfoldable pub update_partition_watermark :
    (ℕ → Word) → ℕ → Word → Word → WatermarkTracker → WatermarkTracker
update_partition_watermark now id event_time offset wt =
    let (wt₁, pw) = get_or_create_partition id wt in
    let wt₂ = update_global_watermarks event_time (record wt₁ {
      partition_watermarks = insert id (see_event (now 0) event_time pw) wt₁.partition_watermarks;
    }) in
    record wt₂ {
      event_time = raise event_time wt₂.event_time;
      update_count = add64 wt₂.update_count 1;
      last_update = now 1;
    }

-- What a commit does to its partition.
unfoldable pub commit : Word → Word → PartitionWatermark → PartitionWatermark
commit offset count pw =
    let left = sub64 pw.pending_count count in
    let pending = if slt left 0 then 0 else left in
    record pw {
      committed_offset = raise offset pw.committed_offset;
      pending_count = pending;
      low_watermark = if eqb pending 0 then pw.high_watermark else pw.low_watermark;
    }

unfoldable pub commit_partition_offset : ℕ → Word → Word → WatermarkTracker → WatermarkTracker
commit_partition_offset id offset count wt =
    let (wt₁, pw) = get_or_create_partition id wt in
    record wt₁ {
      partition_watermarks = insert id (commit offset count pw) wt₁.partition_watermarks;
    }

unfoldable pub is_stale : Word → PartitionWatermark → Bool
is_stale now pw = slt pw.last_update (sub64 now (5 * 60 * 1000)) && eqb pw.pending_count 0

-- The walk that deletes stale partitions: those that stay, and the count.
unfoldable pub remove_stale : Word → Map ℕ PartitionWatermark → ℕ → Map ℕ PartitionWatermark × ℕ
remove_stale now [] count = ([], count)
remove_stale now ((id, pw) ∷ m) count =
    let removed = remove_stale now m (add32 count (2 ^ 32 - 1)) in
    let kept = remove_stale now m count in
    if is_stale now pw then removed else ((id, pw) ∷ kept.0, kept.1)

-- One tick of `backgroundUpdater`.
unfoldable pub background_update : Word → WatermarkTracker → WatermarkTracker
background_update now wt =
    let (partitions, count) = remove_stale now wt.partition_watermarks wt.partition_count in
    record wt {
      processing_time = now;
      watermark_lag = if slt 0 wt.event_time then sub64 now wt.event_time else wt.watermark_lag;
      partition_watermarks = partitions;
      partition_count = count;
    }

pub record PartitionState : Type 0 where
  pub low_watermark : Word
  pub high_watermark : Word
  pub committed_offset : Word
  pub pending_count : Word
  pub last_update : Word

pub record WatermarkState : Type 0 where
  pub min_watermark : Word
  pub max_watermark : Word
  pub processing_time : Word
  pub event_time : Word
  pub watermark_lag : Word
  pub partition_count : ℕ
  pub last_update : Word
  pub update_count : Word
  pub partition_states : Map ℕ PartitionState

unfoldable pub add_states : Map ℕ PartitionWatermark → Map ℕ PartitionState → Map ℕ PartitionState
add_states [] states = states
add_states ((id, pw) ∷ m) states = add_states m (
    insert id
      (record {
        low_watermark = pw.low_watermark;
        high_watermark = pw.high_watermark;
        committed_offset = pw.committed_offset;
        pending_count = pw.pending_count;
        last_update = pw.last_update;
      })
      states)

unfoldable pub get_watermarks : WatermarkTracker → WatermarkState
get_watermarks wt = record {
  min_watermark = wt.min_watermark;
  max_watermark = wt.max_watermark;
  processing_time = wt.processing_time;
  event_time = wt.event_time;
  watermark_lag = wt.watermark_lag;
  partition_count = wt.partition_count;
  last_update = wt.last_update;
  update_count = wt.update_count;
  partition_states = add_states wt.partition_watermarks [];
}

unfoldable pub get_freshness : WatermarkTracker → Word
get_freshness wt = wt.watermark_lag

unfoldable pub is_healthy : Word → Word → WatermarkTracker → Bool
is_healthy now max_lag wt =
    if slt max_lag wt.watermark_lag then false else not (slt 30_000 (sub64 now wt.last_update))

unfoldable pub reset : Word → WatermarkTracker → WatermarkTracker
reset now wt = record wt {
  partition_watermarks = [];
  min_watermark = now;
  max_watermark = now;
  processing_time = now;
  event_time = 0;
  watermark_lag = 0;
  partition_count = 0;
  last_update = now;
  update_count = 0;
}
