-- ===== src/Watermark/Updates.antt =====
-- What an event, a commit and a tick of the updater do.
use true_now.Base.{
  ℕ, ◌-◌, ◌^◌, ◌≡◌, refl, true, false, not, ◌||◌, ◌&&◌, Option, none, some, [], ◌∷◌, arith,
  if◌then◌else◌, eqb, nat_eq, ◌==◌, ◌*◌, eqb_iff, subst, ap, All, Bool-cases, Option-cases, inl,
  inr,
}
use true_now.Base.Word.{Word, slt, sle, add64, sub64, add32, max_int64}
use true_now.Base.Keys.{HasUniqueKeys}
use true_now.Base.Map.{Map, lookup, insert, contains, lookup-insert, not-contains}
use true_now.Watermark.{
  PartitionWatermark, WatermarkTracker, new_partition, raise, see_event, commit, least_low,
  is_stale, remove_stale, get_or_create_partition, update_global_watermarks,
  update_partition_watermark, commit_partition_offset, background_update,
}
use true_now.Watermark.Partitions.{least_low_bound}

-- The partition as the tracker has it, or a new one.
abbrev pub partition : ℕ → WatermarkTracker → PartitionWatermark
partition id wt = elim (lookup id wt.partition_watermarks) [
  | none ↦ new_partition id
  | some pw ↦ pw
]

get_or_create_partition_lem :
    (id : ℕ) (wt : WatermarkTracker)
    → let (wt', pw) = get_or_create_partition id wt in
      (pw ≡ partition id wt)
      × (wt'.max_watermark ≡ wt.max_watermark)
      × (wt'.event_time ≡ wt.event_time)
      × ((j : ℕ) (w : PartitionWatermark)
          → lookup j (insert id w wt'.partition_watermarks)
            ≡ (if eqb id j then some w else lookup j wt.partition_watermarks))
unfolding get_or_create_partition
get_or_create_partition_lem id wt = elim (Option-cases (lookup id wt.partition_watermarks)) [
  | inl e ↦
      rw (e, get_or_create_partition, partition)
        (
          refl,
          refl,
          refl,
          λ j w. ground (
            arith,
            lookup-insert id j w (insert id (new_partition id) wt.partition_watermarks),
            lookup-insert id j (new_partition id) wt.partition_watermarks,
          ),
        )
  | inr (pw, e) ↦
      rw (e, get_or_create_partition, partition)
        (refl, refl, refl, λ j w. lookup-insert id j w wt.partition_watermarks)
]

-- The minimum that the tracker stores is a bound if the walk's result is.
All-min :
    (least old : Word) (m : Map ℕ PartitionWatermark)
    → All (λ entry. (not (slt 0 entry.1.low_watermark) || sle least entry.1.low_watermark) ≡ true) m
    → All
        (λ entry.
          (not (slt 0 entry.1.low_watermark)
            || sle (if eqb least max_int64 then old else least) entry.1.low_watermark)
          ≡ true)
        m
All-min least old [] h = tt
All-min least old ((id, pw) ∷ m) h = (ground (arith, h.0), All-min least old m h.1)

-- An event raises the high watermark of its partition, which is made if it is missing, to the
-- event's time, unless it is there already; sets a low watermark that is 0 to that time, and leaves
-- any other low watermark, also one above the event's time; and adds one to the pending events. No
-- other partition changes. The tracker's maximum and its latest event time are raised alike, and its
-- minimum is then at most each low watermark that is positive.
pub update_partition_watermark_lem :
    (now : ℕ → Word) (id : ℕ) (event_time offset : Word) (wt : WatermarkTracker)
    → let wt' = update_partition_watermark now id event_time offset wt in
      let pw = partition id wt in
      ((j : ℕ)
        → lookup j wt'.partition_watermarks ≡ (
            if eqb id j
            then some (record {
              partition_id = pw.partition_id;
              low_watermark = if eqb pw.low_watermark 0 then event_time else pw.low_watermark;
              high_watermark =
                  if sle event_time pw.high_watermark then pw.high_watermark else event_time;
              committed_offset = pw.committed_offset;
              pending_count = add64 pw.pending_count 1;
              last_update = now 0;
            })
            else lookup j wt.partition_watermarks))
      × (wt'.max_watermark
          ≡ (if sle event_time wt.max_watermark then wt.max_watermark else event_time))
      × (wt'.event_time ≡ (if sle event_time wt.event_time then wt.event_time else event_time))
      × All
          (λ entry.
            (not (slt 0 entry.1.low_watermark) || sle wt'.min_watermark entry.1.low_watermark)
            ≡ true)
          wt'.partition_watermarks
unfolding update_partition_watermark update_global_watermarks see_event
update_partition_watermark_lem now id event_time offset wt =
    let got = get_or_create_partition id wt in
    let (same, top, latest, found) = get_or_create_partition_lem id wt in
    let new = see_event (now 0) event_time got.1 in
    let partitions = insert id new got.0.partition_watermarks in
    (
      λ j.
          subst
            (λ p. lookup j partitions ≡ (
              if eqb id j
              then some (see_event (now 0) event_time p)
              else lookup j wt.partition_watermarks))
            same (found j new),
      ap (λ t. raise event_time t) top,
      ap (λ t. raise event_time t) latest,
      All-min (least_low max_int64 partitions) got.0.min_watermark partitions
          (least_low_bound max_int64 partitions).1,
    )

-- A commit raises the committed offset of its partition to the given one, unless it is there already,
-- and leaves a number of pending events that is not negative; if none is pending, the low watermark
-- is the high one. No other partition changes.
commit_partition_offset_lem :
    (id : ℕ) (offset count : Word) (wt : WatermarkTracker)
    → let wt' = commit_partition_offset id offset count wt in
      let pw = partition id wt in
      (pw' : PartitionWatermark) × ((j : ℕ)
        → lookup j wt'.partition_watermarks
          ≡ (if eqb id j then some pw' else lookup j wt.partition_watermarks))
      × (pw'.committed_offset
          ≡ (if sle offset pw.committed_offset then pw.committed_offset else offset))
      × (sle 0 pw'.pending_count ≡ true)
      × (pw'.low_watermark
          ≡ (if eqb pw'.pending_count 0 then pw.high_watermark else pw.low_watermark))
unfolding commit_partition_offset commit
commit_partition_offset_lem id offset count wt =
    let got = get_or_create_partition id wt in
    let (same, top, latest, found) = get_or_create_partition_lem id wt in
    (
      commit offset count (partition id wt),
      λ j.
          subst
            (λ p. lookup j (insert id (commit offset count got.1) got.0.partition_watermarks) ≡ (
              if eqb id j then some (commit offset count p) else lookup j wt.partition_watermarks))
            same (found j (commit offset count got.1)),
      refl,
      ground arith,
      refl,
    )

lookup-remove_stale :
    (now : Word) (m : Map ℕ PartitionWatermark) (count id : ℕ)
    → HasUniqueKeys m
    → lookup id (remove_stale now m count).0
      ≡ elim (lookup id m) as (λ _. Option PartitionWatermark) [
        | none ↦ none
        | some pw ↦ if is_stale now pw then none else some pw
      ]
unfolding remove_stale lookup
lookup-remove_stale now [] count id h = refl
lookup-remove_stale now ((k, pw) ∷ m) count id h =
    let removed = lookup-remove_stale now m (add32 count (2 ^ 32 - 1)) id h.1 in
    let kept = lookup-remove_stale now m count id h.1 in
    elim (Bool-cases (is_stale now pw)) [
      | inl t ↦ elim (Bool-cases (k == id)) [
        | inl e ↦
            rw (e, t, removed)
              (rw (not-contains id m (subst (λ x. contains x m ≡ false) ((eqb_iff k id).0 e) h.0))
                refl)
        | inr e ↦ rw (e, t) removed
      ]
      | inr f ↦ elim (Bool-cases (k == id)) [
        | inl e ↦ rw (e, f, e) refl
        | inr e ↦ rw (e, f, e) kept
      ]
    ]

-- A tick of the updater, on a map with one entry for a key, removes the partitions that are stale,
-- which had no event for five minutes and have none pending, and keeps every other one as it is.
background_update_lem :
    (now : Word) (wt : WatermarkTracker) (id : ℕ)
    → HasUniqueKeys wt.partition_watermarks
    → lookup id (background_update now wt).partition_watermarks
      ≡ elim (lookup id wt.partition_watermarks) as (λ _. Option PartitionWatermark) [
        | none ↦ none
        | some pw ↦
            if slt pw.last_update (sub64 now (5 * 60 * 1000)) && eqb pw.pending_count 0
            then none
            else some pw
      ]
unfolding background_update is_stale
background_update_lem now wt id h =
    lookup-remove_stale now wt.partition_watermarks wt.partition_count id h
