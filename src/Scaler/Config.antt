-- ===== src/Scaler/Config.antt =====
-- The configuration of the autoscaler and its validation
-- (services/autoscaler/pkg/types/config.go). `F` stands for float64. The services are pointers to
-- structs in the source; each stands here by its value.
use true_now.Base.{
  ◌*◌, String, Bool, not, ◌&&◌, Option, none, some, List, [], ◌∷◌, if◌then◌else◌, ◌==◌, string_eq,
  eqb, length,
}
use true_now.Base.Word.{Word, second, slt, sle}
use true_now.Base.Map.{Map}
use true_now.Threshold.{MetricConfig}

pub record ScalingPolicy : Type 0 where
  pub increment : Word
  pub cooldown : Word
  pub strategy : String

pub record ServiceConfig (F : Type 0) : Type 0 where
  pub name : String
  pub min_instances : Word
  pub max_instances : Word
  pub metrics : List (MetricConfig F)
  pub scale_out : ScalingPolicy
  pub scale_in : ScalingPolicy
  pub start_command : String
  pub stop_timeout : Word

pub record AutoScalerConfig (F : Type 0) : Type 0 where
  pub services : Map String (ServiceConfig F)
  pub metrics_endpoint : String
  pub evaluation_interval : Word
  pub use_mock_processes : Bool
  pub metrics_window : Word
  pub prometheus_url : String
  pub prometheus_timeout : Word

pub data ConfigErr : Type 0 where
  name_required : ConfigErr
  min_negative : ConfigErr
  max_below_min : ConfigErr
  max_zero : ConfigErr
  metric_required : ConfigErr
  out_increment_not_positive : ConfigErr
  in_increment_not_positive : ConfigErr
  out_cooldown_short : ConfigErr
  in_cooldown_short : ConfigErr
  start_command_required : ConfigErr
  no_service : ConfigErr
  no_endpoint : ConfigErr
  interval_short : ConfigErr
  invalid_service : String → ConfigErr → ConfigErr

module _ {F : Type 0} where
  unfoldable pub validate_service : ServiceConfig F → Option ConfigErr
  validate_service c =
      if c.name == ""
      then some name_required
      else if slt c.min_instances 0
      then some min_negative
      else if slt c.max_instances c.min_instances
      then some max_below_min
      else if eqb c.max_instances 0
      then some max_zero
      else if eqb (length c.metrics) 0
      then some metric_required
      else if sle c.scale_out.increment 0
      then some out_increment_not_positive
      else if sle c.scale_in.increment 0
      then some in_increment_not_positive
      else if slt c.scale_out.cooldown second
      then some out_cooldown_short
      else if slt c.scale_in.cooldown second
      then some in_cooldown_short
      else if c.start_command == ""
      then some start_command_required
      else none

  unfoldable pub with_stop_timeout : ServiceConfig F → ServiceConfig F
  with_stop_timeout c = if eqb c.stop_timeout 0 then record c { stop_timeout = 10 * second } else c

  -- The services up to the first that is invalid are written to, that one gets its name.
  unfoldable pub validate_services :
      Map String (ServiceConfig F) → Map String (ServiceConfig F) × Option ConfigErr
  unfolding validate_service with_stop_timeout
  validate_services [] = ([], none)
  validate_services ((name, svc) ∷ services) =
      let named : ServiceConfig F = record svc { name = name } in
      let (rest, err) = validate_services services in
      elim (validate_service named) [
        | some e ↦ ((name, named) ∷ services, some (invalid_service name e))
        | none ↦ ((name, with_stop_timeout named) ∷ rest, err)
      ]

  unfoldable pub with_defaults : AutoScalerConfig F → AutoScalerConfig F
  with_defaults c = record c {
    metrics_window = if eqb c.metrics_window 0 then 300 * second else c.metrics_window;
    prometheus_timeout = if eqb c.prometheus_timeout 0 then 10 * second else c.prometheus_timeout;
  }

  unfoldable pub validate : AutoScalerConfig F → AutoScalerConfig F × Option ConfigErr
  unfolding validate_services with_defaults
  validate c =
      if eqb (length c.services) 0
      then (c, some no_service)
      else if not c.use_mock_processes && c.prometheus_url == "" && c.metrics_endpoint == ""
      then (c, some no_endpoint)
      else if slt c.evaluation_interval second
      then (c, some interval_short)
      else let (services, err) = validate_services c.services in
        (record (with_defaults c) { services = services }, err)
