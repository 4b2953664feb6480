-- ===== src/Watermark/Invariant.antt =====
-- The order of the watermarks, whatever happens to the tracker.
use true_now.Base.{
  ℕ, ◌%◌, ◌^◌, ◌≡◌, refl, true, some, List, [], ◌∷◌, arith, if◌then◌else◌, nat_eq, All, length,
  Option-cases, inl, inr,
}
use true_now.Base.Word.{Word, sle}
use true_now.Base.Map.{Map, lookup, lookup-insert}
use true_now.Watermark.{
  PartitionWatermark, WatermarkTracker, new_watermark_tracker, new_partition, raise, see_event,
  commit, get_or_create_partition, update_global_watermarks, update_partition_watermark,
  commit_partition_offset, background_update, reset,
}
use true_now.Watermark.Partitions.{
  All-lookup, All-insert, All-remove_stale, length-insert-new, length-insert-old,
  length-remove_stale,
}

-- One thing that happens to the tracker, with the clock's readings.
pub data Op : Type 0 where
  event : (ℕ → Word) → ℕ → Word → Word → Op
  commits : ℕ → Word → Word → Op
  tick : Word → Op
  resets : Word → Op

abbrev pub step : Op → WatermarkTracker → WatermarkTracker
step (event now id event_time offset) wt = update_partition_watermark now id event_time offset wt
step (commits id offset count) wt = commit_partition_offset id offset count wt
step (tick now) wt = background_update now wt
step (resets now) wt = reset now wt

abbrev pub run : WatermarkTracker → List Op → WatermarkTracker
run wt [] = wt
run wt (op ∷ ops) = run (step op wt) ops

-- The clock does not stand before 1970.
abbrev pub IsFine : Op → Type 0
IsFine (resets now) = sle 0 now ≡ true
IsFine _ = Unit

-- A partition's low watermark is at most its high one, which is at most `event_time`; pending events
-- are as the partition's commits left them.
abbrev pub IsOrdered : Word → PartitionWatermark → Type 0
IsOrdered event_time pw =
    (sle pw.low_watermark pw.high_watermark ≡ true) × (sle pw.high_watermark event_time ≡ true)

pub record Inv (wt : WatermarkTracker) : Type 0 where
  pub ordered : All (λ entry. IsOrdered wt.event_time entry.1) wt.partition_watermarks
  pub known : sle 0 wt.event_time ≡ true
  pub top : sle wt.event_time wt.max_watermark ≡ true
  pub counted : length wt.partition_watermarks % 2 ^ 32 ≡ wt.partition_count

IsOrdered-raise :
    (e cur : Word) (m : Map ℕ PartitionWatermark)
    → All (λ entry. IsOrdered cur entry.1) m
    → All (λ entry. IsOrdered (if sle e cur then cur else e) entry.1) m
IsOrdered-raise e cur [] h = tt
IsOrdered-raise e cur ((id, pw) ∷ m) h = (ground arith, IsOrdered-raise e cur m h.1)

get_or_create_partition-Inv :
    (id : ℕ) (wt : WatermarkTracker)
    → Inv wt
    → let (wt', pw) = get_or_create_partition id wt in
      Inv wt'
      × IsOrdered wt.event_time pw
      × (wt'.event_time ≡ wt.event_time)
      × (lookup id wt'.partition_watermarks ≡ some pw)
unfolding get_or_create_partition
get_or_create_partition-Inv id wt v = elim (Option-cases (lookup id wt.partition_watermarks)) [
  | inl e ↦
      rw (e, get_or_create_partition)
        (
          record {
            ordered =
                All-insert (IsOrdered wt.event_time) id (new_partition id) wt.partition_watermarks
                  (refl, v.known) v.ordered;
            known = v.known;
            top = v.top;
            counted = omega (
              arith,
              v.counted,
              length-insert-new id (new_partition id) wt.partition_watermarks e,
            );
          },
          (refl, v.known),
          refl,
          ground (arith, lookup-insert id id (new_partition id) wt.partition_watermarks),
        )
  | inr (pw, e) ↦
      rw (e, get_or_create_partition)
        (v, All-lookup (IsOrdered wt.event_time) id pw wt.partition_watermarks v.ordered e, refl, e)
]

see_event-IsOrdered :
    (now e latest : Word) (pw : PartitionWatermark)
    → sle 0 latest ≡ true
    → IsOrdered latest pw
    → IsOrdered (if sle e latest then latest else e) (see_event now e pw)
unfolding see_event
see_event-IsOrdered now e latest pw known h = ground arith

commit-IsOrdered :
    (offset count latest : Word) (pw : PartitionWatermark)
    → IsOrdered latest pw
    → IsOrdered latest (commit offset count pw)
unfolding commit
commit-IsOrdered offset count latest pw h = ground arith

step-Inv : (op : Op) (wt : WatermarkTracker) → IsFine op → Inv wt → Inv (step op wt)
unfolding update_partition_watermark update_global_watermarks commit_partition_offset
    background_update reset
step-Inv (event now id event_time offset) wt fine v =
    let got = get_or_create_partition id wt in
    let (w, ord, same, found) = get_or_create_partition-Inv id wt v in
    let new = see_event (now 0) event_time got.1 in
    record {
      ordered =
          All-insert (IsOrdered (raise event_time got.0.event_time)) id new
            got.0.partition_watermarks
            (rw same (see_event-IsOrdered (now 0) event_time wt.event_time got.1 v.known ord))
            (IsOrdered-raise event_time got.0.event_time got.0.partition_watermarks w.ordered);
      known = ground (arith, w.known);
      top = ground (arith, w.top);
      counted =
          omega (arith, w.counted, length-insert-old id new got.1 got.0.partition_watermarks found);
    }
step-Inv (commits id offset count) wt fine v =
    let got = get_or_create_partition id wt in
    let (w, ord, same, found) = get_or_create_partition-Inv id wt v in
    let new = commit offset count got.1 in
    record {
      ordered =
          All-insert (IsOrdered got.0.event_time) id new got.0.partition_watermarks
            (rw same (commit-IsOrdered offset count wt.event_time got.1 ord)) w.ordered;
      known = w.known;
      top = w.top;
      counted =
          omega (arith, w.counted, length-insert-old id new got.1 got.0.partition_watermarks found);
    }
step-Inv (tick now) wt fine v = record {
  ordered =
      All-remove_stale (IsOrdered wt.event_time) now wt.partition_watermarks wt.partition_count
        v.ordered;
  known = v.known;
  top = v.top;
  counted = omega (
    arith,
    length-remove_stale now wt.partition_watermarks wt.partition_count 0 (omega (arith, v.counted)),
  );
}
step-Inv (resets now) wt fine v = record { ordered = tt; known = refl; top = fine; counted = refl }

run-Inv : (ops : List Op) (wt : WatermarkTracker) → All IsFine ops → Inv wt → Inv (run wt ops)
run-Inv [] wt fine v = v
run-Inv (op ∷ ops) wt fine v = run-Inv ops (step op wt) fine.1 (step-Inv op wt fine.0 v)

-- Whatever events, commits, ticks of the updater and resets happen to a new tracker, if no reset or
-- start reads a clock before 1970: each partition's low watermark is at most its high one, that is at
-- most the latest event time, and that is at most the maximum watermark; and the count of the
-- partitions is their number as an int32.
pub run-new_watermark_tracker-Inv :
    (now : Word) (ops : List Op)
    → sle 0 now ≡ true
    → All IsFine ops
    → Inv (run (new_watermark_tracker now) ops)
unfolding new_watermark_tracker
run-new_watermark_tracker-Inv now ops start fine =
    run-Inv ops (new_watermark_tracker now) fine
      (record { ordered = tt; known = refl; top = start; counted = refl })
