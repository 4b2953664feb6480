-- ===== src/Scaler/Decide.antt =====
-- What the scaling engine decides from the metrics that it was given (EvaluateService in
-- services/autoscaler/pkg/scaler/engine.go, after the metrics are collected).
use true_now.Base.{
  String, Bool, true, false, ◌&&◌, none, some, List, [], ◌∷◌, if◌then◌else◌, string_eq,
}
use true_now.Base.Word.{Word, add64, sub64, slt, sle}
use true_now.Base.Float.{Float64}
use true_now.Base.Map.{Map, lookup, insert}
use true_now.Threshold.{MetricConfig}
use true_now.Scaler.Config.{ServiceConfig}

pub data ScalingAction : Type 0 where
  scale_out_action : ScalingAction
  scale_in_action : ScalingAction
  no_action : ScalingAction

-- The texts of the reasons, by what they are made of.
pub data Reason (F : Type 0) : Type 0 where
  no_reason : Reason F
  in_cooldown_until : Word → Reason F
  exceeds_threshold : String → F → Reason F
  all_below : Reason F
  close_to_minimum : Reason F
  at_max : Word → Reason F
  at_min : Word → Reason F
  within_thresholds : Reason F

pub record ScalingDecision (F : Type 0) : Type 0 where
  pub service_name : String
  pub action : ScalingAction
  pub current_count : Word
  pub target_count : Word
  pub reason : Reason F
  pub metrics : Map String F
  pub timestamp : Word

-- What the loop over the metrics leaves in its variables.
pub record Scan (F : Type 0) : Type 0 where
  pub scale_out : Bool
  pub scale_in : Bool
  pub triggering_metric : String
  pub triggering_value : F

abbrev pub smin : Word → Word → Word
smin a b = if slt a b then a else b

abbrev pub smax : Word → Word → Word
smax a b = if slt b a then a else b

module _ {F : Type 0} where
  unfoldable pub copy_metrics : Map String F → Map String F → Map String F
  copy_metrics [] copied = copied
  copy_metrics ((name, value) ∷ metrics) copied = copy_metrics metrics (insert name value copied)

module _ (fl : Float64) where
  open fl use {F, lit, mul, lt, of_int64}

  abbrev pub found : String → F → Scan F
  found name value = record {
    scale_out = true;
    scale_in = false;
    triggering_metric = name;
    triggering_value = value;
  }

  unfoldable pub scan : Map String F → List (MetricConfig F) → Bool → Scan F
  scan metrics [] scale_in = record {
    scale_out = false;
    scale_in = scale_in;
    triggering_metric = "";
    triggering_value = lit 0 1;
  }
  scan metrics (config ∷ configs) scale_in = elim (lookup config.metric_type metrics) [
    | none ↦ scan metrics configs scale_in
    | some value ↦
        let low = lt (mul config.threshold (lit 8 10)) value in
        let rest = scan metrics configs (if low then false else scale_in) in
        if lt config.threshold value then found config.metric_type value else rest
  ]

  -- The action, the target and the reason.
  unfoldable pub choose : ServiceConfig F → Word → Word → Scan F → ScalingAction × Word × Reason F
  choose config current healthy s =
      if s.scale_out && slt current config.max_instances
      then (
        scale_out_action,
        smin (add64 current config.scale_out.increment) config.max_instances,
        exceeds_threshold s.triggering_metric s.triggering_value,
      )
      else if s.scale_in && slt config.min_instances current && slt config.min_instances healthy
      then (if lt (mul (of_int64 config.min_instances) (lit 12 10)) (of_int64 current)
          then (
            scale_in_action,
            smax (sub64 current config.scale_in.increment) config.min_instances,
            all_below,
          )
          else (no_action, current, close_to_minimum))
      else (
        no_action,
        current,
        if sle config.max_instances current && s.scale_out
            then at_max config.max_instances
            else if sle current config.min_instances && s.scale_in
            then at_min config.min_instances
            else within_thresholds,
      )

  unfoldable pub decide_on :
      Word → String → ServiceConfig F → Word → Word → Map String F → ScalingDecision F
  unfolding copy_metrics scan choose
  decide_on now service config current healthy metrics =
      let (action, target, reason) =
        choose config current healthy (scan metrics config.metrics true) in
      record {
        service_name = service;
        action = action;
        current_count = current;
        target_count = target;
        reason = reason;
        metrics = copy_metrics metrics [];
        timestamp = now;
      }
