-- ===== src/Planner/Tests.antt =====
-- An hour of data in two shards.
use true_now.Base.{ℕ, ◌≡◌, refl, true, []}
use true_now.Base.Sort.{sort, insert_sorted}
use true_now.Planner.{QueryRequest, plan_query, cost}

abbrev hour : QueryRequest ℕ
hour = record {
  namespace = "shop";
  table = "events";
  start_time = 0;
  end_time = 3_600_000_000;
  group_by = [];
  metrics = [];
  filters = [];
}

hour_is_fine : (plan_query hour).use_bloom_filter ≡ true
unfolding plan_query
hour_is_fine = refl

-- The times are microseconds, and the cost counts milliseconds in their place.
hour_in_two_shards : cost (plan_query hour) ≡ 7_200_000
unfolding cost plan_query sort insert_sorted
hour_in_two_shards = refl
