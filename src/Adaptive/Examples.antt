-- ===== src/Adaptive/Examples.antt =====
-- A controller with two slots, whose rates are a half and three halves.
use true_now.Base.{ℕ, ◌+◌, ◌*◌, ◌/◌, ◌%◌, ◌^◌, ◌≡◌, true, some, [], ◌∷◌, arith}
use true_now.Base.Float.{Float64, whole_float}
use true_now.Adaptive.{AdaptiveConfig, AdaptiveController, new_adaptive_controller, scaled}
use true_now.Adaptive.Limits.{
  record_latency_op, record_success_op, adjust_op, IsOrdered, AreRates, IsBounded, run,
  run-new-IsBounded,
}

-- Halves, counted by whole numbers: `n` stands for n / 2. A conversion cuts to a word.
abbrev halves : Float64
halves = record whole_float {
  of_int64 = λ n. n + n;
  to_int64 = λ n. n / 2 % 2 ^ 64;
  lit = λ n d. 2 * n / d;
  mul = λ a b. a * b / 2;
  div = λ a b. 2 * a / b;
}

abbrev settings : AdaptiveConfig ℕ
settings = record {
  target_latency_ms = 100;
  target_success_rate = 190;
  min_queue_size = 10;
  max_queue_size = 100;
  min_rate_limit = 20;
  max_rate_limit = 200;
  increase_rate = 3;
  decrease_rate = 1;
  window_size = 2;
}

settings-IsOrdered : IsOrdered settings
settings-IsOrdered = record {
  window = omega arith;
  queue_order = omega arith;
  rate_order = omega arith;
  queue_small = omega arith;
  rate_small = omega arith;
}

settings-AreRates : AreRates halves settings
unfolding scaled
settings-AreRates = record {
  word = λ x. omega arith;
  shrinks = λ limit small. ground (arith, small);
  grows = λ limit small. ground (arith, small);
}

run-new-IsBounded_example :
    (ac : AdaptiveController ℕ) × (run halves
        (record_latency_op 500
          ∷ adjust_op
          ∷ record_latency_op 10
          ∷ record_success_op true
          ∷ adjust_op
          ∷ [])
        (new_adaptive_controller halves settings)
      ≡ some ac)
    × (ac.config ≡ settings)
    × IsBounded ac
run-new-IsBounded_example =
    run-new-IsBounded halves settings
      (record_latency_op 500
        ∷ adjust_op
        ∷ record_latency_op 10
        ∷ record_success_op true
        ∷ adjust_op
        ∷ [])
      settings-IsOrdered settings-AreRates
