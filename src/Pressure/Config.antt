-- ===== src/Pressure/Config.antt =====
-- The levels and the configuration of the backpressure coordinator
-- (services/autoscaler/pkg/backpressure/coordinator.go).
use true_now.Base.{ℕ, ◌*◌, String, Bool, true, false, if◌then◌else◌, eqb}
use true_now.Base.Word.{Word, second}
use true_now.Base.Float.{Float64}

-- The levels are integers; these are the named ones.
abbrev pub BackpressureLevel : Type 0
BackpressureLevel = ℕ

abbrev pub level_none : BackpressureLevel
level_none = 0

abbrev pub level_low : BackpressureLevel
level_low = 1

abbrev pub level_medium : BackpressureLevel
level_medium = 2

abbrev pub level_high : BackpressureLevel
level_high = 3

abbrev pub level_critical : BackpressureLevel
level_critical = 4

unfoldable pub level_name : BackpressureLevel → String
level_name level =
    if eqb level level_none
    then "none"
    else if eqb level level_low
    then "low"
    else if eqb level level_medium
    then "medium"
    else if eqb level level_high
    then "high"
    else if eqb level level_critical
    then "critical"
    else "unknown"

pub record ResponseStrategy (F : Type 0) : Type 0 where
  pub rate_limit_reduction : F
  pub reject_percentage : F
  pub queue_size_limit : Word
  pub timeout : Word
  pub circuit_breaker : Bool

pub record BackpressureConfig (F : Type 0) : Type 0 where
  pub low_threshold : F
  pub medium_threshold : F
  pub high_threshold : F
  pub critical_threshold : F
  pub low_response : ResponseStrategy F
  pub medium_response : ResponseStrategy F
  pub high_response : ResponseStrategy F
  pub critical_response : ResponseStrategy F
  pub evaluation_interval : Word
  pub smoothing_window : Word

module _ (fl : Float64) where
  open fl use {F, lit, eq}

  abbrev pub no_strategy : ResponseStrategy F
  no_strategy = record {
    rate_limit_reduction = lit 0 1;
    reject_percentage = lit 0 1;
    queue_size_limit = 0;
    timeout = 0;
    circuit_breaker = false;
  }

  abbrev or_default : F → F → F
  or_default value d = if eq value (lit 0 1) then d else value

  unfoldable pub with_defaults : BackpressureConfig F → BackpressureConfig F
  with_defaults config = record config {
    evaluation_interval =
        if eqb config.evaluation_interval 0 then 5 * second else config.evaluation_interval;
    smoothing_window =
        if eqb config.smoothing_window 0 then 30 * second else config.smoothing_window;
    low_threshold = or_default config.low_threshold (lit 6 10);
    medium_threshold = or_default config.medium_threshold (lit 75 100);
    high_threshold = or_default config.high_threshold (lit 85 100);
    critical_threshold = or_default config.critical_threshold (lit 95 100);
  }

  abbrev strategy : ℕ → ℕ → Word → Word → Bool → ResponseStrategy F
  strategy reduction rejected limit seconds breaker = record {
    rate_limit_reduction = lit reduction 1;
    reject_percentage = lit rejected 1;
    queue_size_limit = limit;
    timeout = seconds * second;
    circuit_breaker = breaker;
  }

  abbrev pub default_backpressure_config : BackpressureConfig F
  default_backpressure_config = record {
    low_threshold = lit 6 10;
    medium_threshold = lit 75 100;
    high_threshold = lit 85 100;
    critical_threshold = lit 95 100;
    low_response = strategy 10 0 1000 10 false;
    medium_response = strategy 25 5 500 5 false;
    high_response = strategy 50 20 200 3 true;
    critical_response = strategy 75 50 50 1 true;
    evaluation_interval = 5 * second;
    smoothing_window = 30 * second;
  }
