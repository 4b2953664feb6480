-- ===== src/Shedder/Examples.antt =====
-- The theorems on a shedder that sheds three requests of ten by their priority.
use true_now.Base.{ℕ, ◌+◌, ◌%◌, ◌^◌, ◌≡◌, List, [], ◌∷◌, length}
use true_now.Base.Float.{whole_float}
use true_now.Backpressure.{Priority, low, high, critical}
use true_now.Shedder.{LoadShedder, priority}
use true_now.Shedder.Laws.{shed_all, trues, critical_shed, shed_all_counts}

abbrev shedder : LoadShedder ℕ
shedder = record {
  strategy = priority;
  target_utilization = 1;
  cpu_usage = 90;
  memory_usage = 80;
  queue_depth = 10;
  shed_probability = 3_000;
  total_requests = 4;
  shedded_requests = 1;
}

abbrev requests : List (ℕ × ℕ × Priority)
requests = (5_000, 0, low) ∷ (10, 0, critical) ∷ (1_000, 0, high) ∷ []

shed_all_counts_example :
    let (ls', sheds) = shed_all whole_float requests shedder in
    (critical_shed whole_float requests sheds ≡ 0)
    × (ls'.total_requests % 2 ^ 64 ≡ (4 + length requests) % 2 ^ 64)
    × (ls'.shedded_requests % 2 ^ 64 ≡ (1 + trues whole_float sheds) % 2 ^ 64)
shed_all_counts_example = shed_all_counts whole_float requests shedder
