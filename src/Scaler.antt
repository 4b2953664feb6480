-- ===== src/Scaler.antt =====
-- The scaling engine of the autoscaler (services/autoscaler/pkg/scaler/engine.go), on the registry
-- in memory. What the collector measures is an argument, as are the readings of the clock.
pub mod Config
pub mod Decide
mod Examples
pub mod Validation
pub mod Agreement
pub mod Cooldown
pub mod Bounds
use true_now.Base.{
  ℕ, zero, suc, String, Bool, true, false, not, ◌&&◌, Option, none, some, List, [], ◌∷◌,
  if◌then◌else◌, ◌==◌, string_eq, length, ◌⊎◌, inl, inr,
}
use true_now.Base.Word.{Word, add64, sub64, slt, sle}
use true_now.Base.Float.{Float64}
use true_now.Base.Map.{Map, lookup, insert}
use true_now.Threshold.{MetricConfig}
use true_now.Registry.Types.{Instance, ServiceState}
use true_now.Registry.State.{InMemoryRegistry}
use true_now.Registry.{get_healthy}
use true_now.Registry.Queries.{get_service_state}
use true_now.Scaler.Config.{ServiceConfig, AutoScalerConfig}
use true_now.Scaler.Decide.{
  ScalingAction, scale_out_action, scale_in_action, no_action, in_cooldown_until, ScalingDecision,
  decide_on,
}

pub record CooldownInfo : Type 0 where
  pub last_scale_time : Word
  pub last_action : ScalingAction
  pub cooldown_until : Word

-- `stop_closed` says that the channel `stopCh` is closed.
pub record ScalingEngine (F : Type 0) : Type 0 where
  pub config : AutoScalerConfig F
  pub registry : InMemoryRegistry F
  pub cooldowns : Map String CooldownInfo
  pub running : Bool
  pub stop_closed : Bool

pub data ScalingErr : Type 0 where
  service_not_found : String → ScalingErr
  collection_failed : ScalingErr
  already_running : ScalingErr

unfoldable pub until_at : Word → Option CooldownInfo → Option Word
until_at now none = none
until_at now (some info) = if slt now info.cooldown_until then some info.cooldown_until else none

module _ {F : Type 0} where
  unfoldable pub new_scaling_engine : AutoScalerConfig F → InMemoryRegistry F → ScalingEngine F
  new_scaling_engine config registry = record {
    config = config;
    registry = registry;
    cooldowns = [];
    running = false;
    stop_closed = false;
  }

  -- The end of the cooldown, if there is one.
  unfoldable pub get_cooldown_status : Word → String → ScalingEngine F → Option Word
  unfolding until_at
  get_cooldown_status now service e = until_at now (lookup service e.cooldowns)

  cooldown_of : ScalingAction → ServiceConfig F → Word
  cooldown_of scale_in_action config = config.scale_in.cooldown
  cooldown_of scale_out_action config = config.scale_out.cooldown
  cooldown_of no_action config = config.scale_out.cooldown

  unfoldable pub cool_down :
      Word
      → ScalingDecision F
      → Option (ServiceConfig F)
      → ScalingEngine F
      → ScalingEngine F × Option ScalingErr
  unfolding cooldown_of
  cool_down now d none e = (e, some (service_not_found d.service_name))
  cool_down now d (some config) e = (
    record e {
      cooldowns =
          insert d.service_name
            (record {
              last_scale_time = now;
              last_action = d.action;
              cooldown_until = add64 now (cooldown_of d.action config);
            })
            e.cooldowns;
    },
    none,
  )

  unfoldable pub apply_decision :
      Word → ScalingDecision F → ScalingEngine F → ScalingEngine F × Option ScalingErr
  unfolding cool_down
  apply_decision now d e = elim d.action [
    | no_action ↦ (e, none)
    | scale_out_action ↦ cool_down now d (lookup d.service_name e.config.services) e
    | scale_in_action ↦ cool_down now d (lookup d.service_name e.config.services) e
  ]

  unfoldable pub start : ScalingEngine F → ScalingEngine F × Option ScalingErr
  start e = if e.running then (e, some already_running) else (record e { running = true }, none)

  -- `none` stands for the panic of a channel that is closed twice.
  unfoldable pub stop : ScalingEngine F → Option (ScalingEngine F)
  stop e =
      if not e.running
      then some e
      else if e.stop_closed
      then none
      else some (record e { running = false; stop_closed = true })

module _ (fl : Float64) where
  open fl use {F, lit, mul, lt, of_int64}

  abbrev pub waiting : Word → String → Word → Word → ScalingDecision F
  waiting now service current until = record {
    service_name = service;
    action = no_action;
    current_count = current;
    target_count = current;
    reason = in_cooldown_until until;
    metrics = [];
    timestamp = now;
  }

  unfoldable pub collected :
      Word
      → String
      → ServiceConfig F
      → Word
      → Word
      → Option (Map String F)
      → ScalingErr ⊎ ScalingDecision F
  unfolding decide_on
  collected now service config current healthy none = inl collection_failed
  collected now service config current healthy (some metrics) =
      inr (decide_on fl now service config current healthy metrics)

  -- `collect` is the collector: what it measures on the instances, or none for its error. The clock
  -- is read twice, first for the cooldown.
  unfoldable pub evaluate_configured :
      Word
      → Word
      → (String → List (Instance F) → Option (Map String F))
      → String
      → ServiceConfig F
      → ScalingEngine F
      → ScalingErr ⊎ ScalingDecision F
  unfolding collected
  evaluate_configured checked now collect service config e =
      let current = (get_service_state fl service e.registry).current_instances in
      let healthy = get_healthy service e.registry in
      elim (get_cooldown_status checked service e) [
        | some until ↦ inr (waiting now service current until)
        | none ↦ collected now service config current (length healthy) (collect service healthy)
      ]

  unfoldable pub evaluate_service :
      Word
      → Word
      → (String → List (Instance F) → Option (Map String F))
      → String
      → ScalingEngine F
      → ScalingErr ⊎ ScalingDecision F
  unfolding evaluate_configured
  evaluate_service checked now collect service e = elim (lookup service e.config.services) [
    | none ↦ inl (service_not_found service)
    | some config ↦ evaluate_configured checked now collect service config e
  ]

  evaluate_each :
      (ℕ → Word × Word)
      → (String → List (Instance F) → Option (Map String F))
      → Map String (ServiceConfig F)
      → ScalingEngine F
      → List (ScalingDecision F)
  unfolding evaluate_service
  evaluate_each clock collect [] e = []
  evaluate_each clock collect ((service, config) ∷ services) e =
      let (checked, now) = clock (length services) in
      let rest = evaluate_each clock collect services e in
      elim (evaluate_service checked now collect service e) [
        | inl err ↦ rest
        | inr decision ↦ decision ∷ rest
      ]

  -- The readings of the clock for a service are given by how many services come after it.
  unfoldable pub evaluate_all :
      (ℕ → Word × Word)
      → (String → List (Instance F) → Option (Map String F))
      → ScalingEngine F
      → List (ScalingDecision F)
  unfolding evaluate_each
  evaluate_all clock collect e = evaluate_each clock collect e.config.services e

  unfoldable pub cools : Word → String → ScalingEngine F → Bool
  cools now service e = elim (get_cooldown_status now service e) [ none ↦ false | some u ↦ true ]

  unfoldable pub can_scale_out : Word → String → ScalingEngine F → ScalingErr ⊎ Bool
  unfolding cools
  can_scale_out now service e = elim (lookup service e.config.services) [
    | none ↦ inl (service_not_found service)
    | some config ↦
        let current = (get_service_state fl service e.registry).current_instances in
        if sle config.max_instances current
        then inr false
        else if cools now service e
        then inr false
        else inr true
  ]

  unfoldable pub can_scale_in : Word → String → ScalingEngine F → ScalingErr ⊎ Bool
  unfolding cools
  can_scale_in now service e = elim (lookup service e.config.services) [
    | none ↦ inl (service_not_found service)
    | some config ↦
        let current = (get_service_state fl service e.registry).current_instances in
        if sle current config.min_instances
        then inr false
        else if cools now service e
        then inr false
        else if sle (length (get_healthy service e.registry)) config.min_instances
        then inr false
        else inr true
  ]
