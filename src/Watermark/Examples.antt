-- ===== src/Watermark/Examples.antt =====
-- The theorems on a tracker with two partitions.
use true_now.Base.{
  ℕ, ◌+◌, ◌≡◌, refl, true, not, ◌||◌, some, List, [], ◌∷◌, if◌then◌else◌, eqb, nat_eq, All,
}
use true_now.Base.Word.{Word, slt, sle}
use true_now.Base.Map.{lookup}
use true_now.Watermark.{
  PartitionWatermark, WatermarkTracker, new_watermark_tracker, update_partition_watermark,
}
use true_now.Watermark.Invariant.{
  Op, event, commits, tick, resets, Inv, run, run-new_watermark_tracker-Inv,
}
use true_now.Watermark.Updates.{update_partition_watermark_lem}

abbrev idle : PartitionWatermark
idle = record {
  partition_id = 1;
  low_watermark = 900;
  high_watermark = 900;
  committed_offset = 7;
  pending_count = 0;
  last_update = 1_000;
}

abbrev busy : PartitionWatermark
busy = record {
  partition_id = 2;
  low_watermark = 800;
  high_watermark = 950;
  committed_offset = 3;
  pending_count = 4;
  last_update = 1_000;
}

abbrev tracker : WatermarkTracker
tracker = record {
  partition_watermarks = (1, idle) ∷ (2, busy) ∷ [];
  min_watermark = 800;
  max_watermark = 1_000;
  processing_time = 1_000;
  event_time = 950;
  watermark_lag = 50;
  partition_count = 2;
  last_update = 1_000;
  update_count = 9;
}

abbrev clock : ℕ → Word
clock k = 1_100 + k

-- An event that is older than the low watermark.
update_partition_watermark_lem_example :
    let wt' = update_partition_watermark clock 2 700 5 tracker in
    ((j : ℕ)
      → lookup j wt'.partition_watermarks ≡ (
          if eqb 2 j
          then some (record busy { pending_count = 5; last_update = 1_100 })
          else lookup j tracker.partition_watermarks))
    × (wt'.max_watermark ≡ 1_000)
    × (wt'.event_time ≡ 950)
    × All
        (λ entry.
          (not (slt 0 entry.1.low_watermark) || sle wt'.min_watermark entry.1.low_watermark) ≡ true)
        wt'.partition_watermarks
unfolding lookup
update_partition_watermark_lem_example = update_partition_watermark_lem clock 2 700 5 tracker

abbrev ops : List Op
ops = event clock 1 900 0 ∷ event clock 2 800 0 ∷ commits 1 7 1 ∷ tick 2_000 ∷ resets 3_000 ∷ []

run-new_watermark_tracker-Inv_example : Inv (run (new_watermark_tracker 500) ops)
run-new_watermark_tracker-Inv_example =
    run-new_watermark_tracker-Inv 500 ops refl (tt, (tt, (tt, (tt, (refl, tt)))))
