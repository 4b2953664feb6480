-- ===== src/Scaler/Examples.antt =====
-- The engine on a registry with three running instances of a service that is over its threshold.
use true_now.Base.{
  ℕ, ◌*◌, String, true, false, Option, none, some, List, [], ◌∷◌, ◌≡◌, refl, arith, if◌then◌else◌,
  eqb, inr, string_eq, ne_of_beq,
}
use true_now.Base.Word.{second}
use true_now.Base.Float.{whole_float}
use true_now.Base.Map.{Map, lookup, insert, contains}
use true_now.Threshold.{MetricConfig, evaluate_service as threshold_evaluation}
use true_now.Registry.Types.{Instance, default_registry_config}
use true_now.Registry.State.{InMemoryRegistry}
use true_now.Registry.{get_healthy}
use true_now.Registry.Queries.{get_service_state}
use true_now.Scaler.Config.{ServiceConfig, AutoScalerConfig, ScalingPolicy, validate_service}
use true_now.Scaler.{
  ScalingEngine, apply_decision, evaluate_service, can_scale_out, can_scale_in, waiting,
  evaluate_configured, get_cooldown_status,
}
use true_now.Scaler.Decide.{
  scale_out_action, scale_in_action, ScalingDecision, scan, no_reason, exceeds_threshold, decide_on,
  choose,
}
use true_now.Scaler.Bounds.{IsSound, IsInRange, evaluate_service-IsInRange}
use true_now.Scaler.Cooldown.{evaluate_service-apply_decision}
use true_now.Scaler.Agreement.{scan-evaluate_service, evaluate_service-can_scale}

abbrev object : String → Instance ℕ
object id = record {
  id = id;
  service_name = "gateway";
  host = "localhost";
  port = 8080;
  status = "running";
  start_time = 0;
  last_health_check = 0;
  metrics = [];
  pid = 1;
  labels = [];
}

abbrev objects : ℕ → Instance ℕ
objects p = if eqb p 1 then object "a" else (if eqb p 2 then object "b" else object "c")

abbrev three_running : InMemoryRegistry ℕ
three_running = record {
  store = objects;
  instances = ("a", 1) ∷ ("b", 2) ∷ ("c", 3) ∷ [];
  services = ("gateway", ("a", 1) ∷ ("b", 2) ∷ ("c", 3) ∷ []) ∷ [];
  watchers = [];
  channels = λ w. record { ch = []; closed = false };
  made = 0;
  config = default_registry_config;
  closed = false;
}

abbrev cpu : MetricConfig ℕ
cpu = record { metric_type = "cpu"; threshold = 80; window = 0; aggregation = "avg" }

abbrev policy : ScalingPolicy
policy = record { increment = 2; cooldown = 60 * second; strategy = "incremental" }

abbrev gateway : ServiceConfig ℕ
gateway = record {
  name = "gateway";
  min_instances = 1;
  max_instances = 4;
  metrics = cpu ∷ [];
  scale_out = policy;
  scale_in = policy;
  start_command = "gateway";
  stop_timeout = 0;
}

abbrev scaling_config : AutoScalerConfig ℕ
scaling_config = record {
  services = ("gateway", gateway) ∷ [];
  metrics_endpoint = "";
  evaluation_interval = 10 * second;
  use_mock_processes = true;
  metrics_window = 0;
  prometheus_url = "";
  prometheus_timeout = 0;
}

abbrev engine : ScalingEngine ℕ
engine = record {
  config = scaling_config;
  registry = three_running;
  cooldowns = [];
  running = false;
  stop_closed = false;
}

abbrev busy : Map String ℕ
busy = ("cpu", 95) ∷ []

abbrev measure : String → List (Instance ℕ) → Option (Map String ℕ)
measure service instances = some busy

gateway-IsSound : IsSound gateway
unfolding validate_service
gateway-IsSound = record {
  valid = refl;
  min_word = omega arith;
  max_word = omega arith;
  out_word = omega arith;
  in_word = omega arith;
}

evaluate_service-IsInRange_example :
    (d : ScalingDecision ℕ) × (evaluate_service whole_float 9 9 measure "gateway" engine ≡ inr d)
    × (d.current_count ≡ (get_service_state whole_float "gateway" three_running).current_instances)
    × IsInRange gateway d.current_count d.action d.target_count
unfolding lookup get_service_state
evaluate_service-IsInRange_example =
    evaluate_service-IsInRange whole_float 9 9 measure "gateway" engine gateway busy refl refl
      gateway-IsSound (omega arith)

abbrev grow : ScalingDecision ℕ
grow = record {
  service_name = "gateway";
  action = scale_out_action;
  current_count = 3;
  target_count = 4;
  reason = no_reason;
  metrics = [];
  timestamp = 9;
}

evaluate_service-apply_decision_example :
    let e' = (apply_decision 9 grow engine).0 in
    (evaluate_service whole_float 10 10 measure "gateway" e'
      ≡ inr (
          waiting whole_float 10 "gateway"
            (get_service_state whole_float "gateway" three_running).current_instances
            60_000_000_009))
    × (evaluate_service whole_float 10 10 measure "query" e'
        ≡ evaluate_service whole_float 10 10 measure "query" engine)
unfolding lookup
evaluate_service-apply_decision_example =
    evaluate_service-apply_decision whole_float 9 10 10 measure "query" grow engine gateway refl
      (λ e. cc e) (ne_of_beq "gateway" "query" refl) (omega arith) (omega arith)

scan-evaluate_service_example :
    let s = scan whole_float busy (cpu ∷ []) true in
    let e = threshold_evaluation whole_float 9 "gateway" 3 busy (cpu ∷ []) none in
    (s.scale_out ≡ e.should_scale_out) × (s.scale_in ≡ e.should_scale_in)
unfolding contains
scan-evaluate_service_example =
    scan-evaluate_service whole_float 9 "gateway" 3 busy (cpu ∷ []) none (refl, tt)

abbrev grown : ScalingDecision ℕ
grown = record {
  service_name = "gateway";
  action = scale_out_action;
  current_count = 3;
  target_count = 4;
  reason = exceeds_threshold "cpu" 95;
  metrics = busy;
  timestamp = 9;
}

evaluate_service-can_scale_example :
    (scale_out_action ≡ scale_out_action → can_scale_out whole_float 9 "gateway" engine ≡ inr true)
    × (scale_out_action ≡ scale_in_action → can_scale_in whole_float 9 "gateway" engine ≡ inr true)
unfolding evaluate_service evaluate_configured get_cooldown_status get_service_state get_healthy
    decide_on scan choose lookup insert
evaluate_service-can_scale_example =
    evaluate_service-can_scale whole_float 9 9 measure "gateway" engine grown refl
