-- ===== src/Pressure.antt =====
-- The backpressure coordinator of the autoscaler
-- (services/autoscaler/pkg/backpressure/coordinator.go). The evaluation loop's own variable, the
-- history of levels, is part of the state; a callback is the pair of levels that it is called with.
pub mod Config
pub mod Smoothing
pub mod Ticks
mod Examples
use true_now.Base.{
  ℕ, zero, suc, ◌+◌, ◌-◌, ◌/◌, ◌%◌, String, Bool, true, false, Option, none, some, List, [], ◌∷◌,
  ◌++◌, if◌then◌else◌, ltb, eqb, ◌==◌, nat_eq, string_eq, length, drop, not,
}
use true_now.Base.Word.{Word, add64, slt, sle, sdiv}
use true_now.Base.Float.{Float64}
use true_now.Base.Map.{Map, lookup, insert}
use true_now.Pressure.Config.{
  BackpressureLevel, level_none, level_low, level_medium, level_high, level_critical,
  ResponseStrategy, BackpressureConfig, no_strategy, with_defaults,
}

pub record ServiceBackpressureState (F : Type 0) : Type 0 where
  pub service_name : String
  pub current_instances : Word
  pub max_instances : Word
  pub scale_percentage : F
  pub is_at_max_scale : Bool
  pub last_updated : Word

-- `stop_closed` says that the channel `stopChan` is closed.
pub record BackpressureCoordinator (F : Type 0) : Type 0 where
  pub config : BackpressureConfig F
  pub current_level : BackpressureLevel
  pub service_states : Map String (ServiceBackpressureState F)
  pub level_changes : Word
  pub requests_dropped : Word
  pub level_history : List BackpressureLevel
  pub stop_closed : Bool

pub record BackpressureMetrics : Type 0 where
  pub current_level : BackpressureLevel
  pub level_changes : Word
  pub requests_dropped : Word
  pub service_count : ℕ

unfoldable pub count_levels :
    List BackpressureLevel → Map BackpressureLevel ℕ → Map BackpressureLevel ℕ
count_levels [] counts = counts
count_levels (level ∷ history) counts =
    count_levels history
      (insert level (elim (lookup level counts) [ none ↦ 1 | some n ↦ suc n ]) counts)

-- The level with the most so far, and how many it has.
unfoldable pub find_most : Map BackpressureLevel ℕ → ℕ → BackpressureLevel → BackpressureLevel × ℕ
find_most [] max_count most_common = (most_common, max_count)
find_most ((level, count) ∷ counts) max_count most_common =
    let better = ltb max_count count in
    find_most counts (if better then count else max_count) (if better then level else most_common)

unfoldable pub get_smoothed_level : List BackpressureLevel → BackpressureLevel
unfolding count_levels find_most
get_smoothed_level history =
    if eqb (length history) 0
    then level_none
    else (find_most (count_levels history []) 0 level_none).0

-- The last entries of the history; a negative size panics.
unfoldable pub keep_recent : Word → List BackpressureLevel → Option (List BackpressureLevel)
keep_recent size history =
    if slt size 0
    then none
    else some (if ltb size (length history) then drop (length history - size) history else history)

module _ (fl : Float64) where
  open fl use {F, lit, add, sub, mul, div, lt, le, eq, of_int64, to_int64}

  unfoldable pub new_backpressure_coordinator : BackpressureConfig F → BackpressureCoordinator F
  unfolding with_defaults
  new_backpressure_coordinator config = record {
    config = with_defaults fl config;
    current_level = level_none;
    service_states = [];
    level_changes = 0;
    requests_dropped = 0;
    level_history = [];
    stop_closed = false;
  }

  unfoldable pub update_service_state :
      Word → ServiceBackpressureState F → BackpressureCoordinator F → BackpressureCoordinator F
  update_service_state now state bc = record bc {
    service_states =
        insert state.service_name
          (record state {
            last_updated = now;
            scale_percentage =
                div (of_int64 state.current_instances) (of_int64 state.max_instances);
            is_at_max_scale = sle state.max_instances state.current_instances;
          })
          bc.service_states;
  }

  strategy_of : BackpressureLevel → BackpressureConfig F → ResponseStrategy F
  strategy_of level config =
      if eqb level level_low
      then config.low_response
      else if eqb level level_medium
      then config.medium_response
      else if eqb level level_high
      then config.high_response
      else if eqb level level_critical
      then config.critical_response
      else no_strategy fl

  unfoldable pub get_response_strategy : BackpressureCoordinator F → ResponseStrategy F
  unfolding strategy_of
  get_response_strategy bc = strategy_of bc.current_level bc.config

  -- The sum of the weights, and the weighted sum.
  sum_weighted : Map String (ServiceBackpressureState F) → F → F → F × F
  sum_weighted [] total sum = (total, sum)
  sum_weighted ((name, state) ∷ states) total sum =
      let weight = if state.service_name == "gateway" then lit 2 1 else lit 1 1 in
      sum_weighted states (add total weight) (add sum (mul state.scale_percentage weight))

  level_at : BackpressureConfig F → F → BackpressureLevel
  level_at config average =
      if le config.critical_threshold average
      then level_critical
      else if le config.high_threshold average
      then level_high
      else if le config.medium_threshold average
      then level_medium
      else if le config.low_threshold average
      then level_low
      else level_none

  unfoldable pub calculate_level : BackpressureCoordinator F → BackpressureLevel
  unfolding sum_weighted level_at
  calculate_level bc =
      if eqb (length bc.service_states) 0
      then level_none
      else let (total, sum) = sum_weighted bc.service_states (lit 0 1) (lit 0 1) in
        if eq total (lit 0 1) then level_none else level_at bc.config (div sum total)

  abbrev pub window_size : BackpressureCoordinator F → Word
  window_size bc = sdiv bc.config.smoothing_window bc.config.evaluation_interval

  unfoldable pub set_level :
      BackpressureLevel
      → BackpressureCoordinator F
      → BackpressureCoordinator F × Option (BackpressureLevel × BackpressureLevel)
  set_level level bc = if eqb level bc.current_level then (bc, none) else (
    record bc { current_level = level; level_changes = add64 bc.level_changes 1 },
    some (bc.current_level, level),
  )

  -- One tick of the loop, with what the callback is told; the interval is positive, as a ticker wants.
  unfoldable pub tick :
      BackpressureCoordinator F
      → Option (BackpressureCoordinator F × Option (BackpressureLevel × BackpressureLevel))
  unfolding keep_recent get_smoothed_level calculate_level set_level
  tick bc = elim (keep_recent (window_size bc) (bc.level_history ++ (calculate_level bc ∷ []))) [
    | none ↦ none
    | some history ↦
        some (set_level (get_smoothed_level history) (record bc { level_history = history }))
  ]

  unfoldable pub get_metrics : BackpressureCoordinator F → BackpressureMetrics
  get_metrics bc = record {
    current_level = bc.current_level;
    level_changes = bc.level_changes;
    requests_dropped = bc.requests_dropped;
    service_count = length bc.service_states;
  }

  -- The clock is read in nanoseconds since 1970, as a number that is not negative.
  unfoldable pub should_drop_request :
      ℕ → BackpressureCoordinator F → BackpressureCoordinator F × Bool
  unfolding get_response_strategy
  should_drop_request now bc =
      let strategy = get_response_strategy bc in
      if eq strategy.reject_percentage (lit 0 1)
      then (bc, false)
      else if lt (of_int64 ((now / 1000) % 100)) strategy.reject_percentage
      then (record bc { requests_dropped = add64 bc.requests_dropped 1 }, true)
      else (bc, false)

  unfoldable pub get_rate_limit : Word → BackpressureCoordinator F → Word
  unfolding get_response_strategy
  get_rate_limit base bc =
      let strategy = get_response_strategy bc in
      if eq strategy.rate_limit_reduction (lit 0 1)
      then base
      else to_int64
          (mul (of_int64 base) (sub (lit 1 1) (div strategy.rate_limit_reduction (lit 100 1))))

  -- `none` stands for the panic of a channel that is closed twice.
  unfoldable pub stop : BackpressureCoordinator F → Option (BackpressureCoordinator F)
  stop bc = if bc.stop_closed then none else some (record bc { stop_closed = true })
