-- ===== src/Scaler/Cooldown.antt =====
-- What a decision that was applied does to the decisions after it, and how the engine's evaluation
-- agrees with its own checks and with the threshold evaluator's.
use true_now.Base.{
  ◌+◌, ◌^◌, ◌<◌, ◌≡◌, ◌≢◌, refl, ◌∙◌, String, Option, none, some, List, if◌then◌else◌, arith,
  Option-cases, inl, inr, ◌⊎◌, string_eq, beq_self, beq_ne,
}
use true_now.Base.Word.{Word, add64, slt}
use true_now.Base.Float.{Float64}
use true_now.Base.Map.{Map, lookup, lookup-insert}
use true_now.Registry.Types.{Instance}
use true_now.Registry.Queries.{get_service_state}
use true_now.Scaler.{
  ScalingEngine, get_cooldown_status, apply_decision, evaluate_service, waiting,
  evaluate_configured, cool_down,
}
use true_now.Scaler.Decide.{
  ScalingAction, scale_out_action, scale_in_action, no_action, ScalingDecision,
}
use true_now.Scaler.Config.{ServiceConfig}

-- The cooldown of an action.
abbrev pub cooldown_for : {F : Type 0} → ScalingAction → ServiceConfig F → Word
cooldown_for scale_in_action config = config.scale_in.cooldown
cooldown_for scale_out_action config = config.scale_out.cooldown
cooldown_for no_action config = 0

Action-cases :
    (a : ScalingAction) → (a ≡ no_action) ⊎ ((a ≡ scale_out_action) ⊎ (a ≡ scale_in_action))
Action-cases no_action = inl refl
Action-cases scale_out_action = inr (inl refl)
Action-cases scale_in_action = inr (inr refl)

cooling_lem :
    (now later cooldown : Word)
    → now + cooldown < 2 ^ 63
    → later < now + cooldown
    → (if slt later (add64 now cooldown) then some (add64 now cooldown) else none)
      ≡ some (now + cooldown)
cooling_lem now later cooldown small before = ground arith

module _ {F : Type 0} where
  -- Until when a service waits after a decision on it was applied.
  get_cooldown_status-apply_decision :
      (now later : Word) (d : ScalingDecision F) (e : ScalingEngine F) (config : ServiceConfig F)
      → lookup d.service_name e.config.services ≡ some config
      → d.action ≢ no_action
      → get_cooldown_status later d.service_name (apply_decision now d e).0 ≡ (
          if slt later (add64 now (cooldown_for d.action config))
          then some (add64 now (cooldown_for d.action config))
          else none)
  unfolding get_cooldown_status apply_decision
  get_cooldown_status-apply_decision now later d e config configured acts =
      let self = beq_self d.service_name in
      elim (Action-cases d.action) [
        | inl idle ↦ absurd (acts idle)
        | inr (inl out) ↦
            rw (out, apply_decision, configured, get_cooldown_status, lookup-insert, self, out) refl
        | inr (inr in_) ↦
            rw (in_, apply_decision, configured, get_cooldown_status, lookup-insert, self, in_) refl
      ]

  cooldown_elsewhere :
      (now later : Word) (d : ScalingDecision F) (e : ScalingEngine F) (other : String)
      → d.service_name ≢ other
      → get_cooldown_status later other (apply_decision now d e).0
        ≡ get_cooldown_status later other e
  unfolding get_cooldown_status apply_decision cool_down
  cooldown_elsewhere now later d e other differ =
      let apart = beq_ne d.service_name other differ in
      elim (Action-cases d.action) [
        | inl idle ↦ rw (idle, apply_decision) refl
        | inr (inl out) ↦ elim (Option-cases (lookup d.service_name e.config.services)) [
          | inl absent ↦ rw (out, apply_decision, absent) refl
          | inr (config, found) ↦
              rw (out, apply_decision, found, get_cooldown_status, lookup-insert, apart) refl
        ]
        | inr (inr in_) ↦ elim (Option-cases (lookup d.service_name e.config.services)) [
          | inl absent ↦ rw (in_, apply_decision, absent) refl
          | inr (config, found) ↦
              rw (in_, apply_decision, found, get_cooldown_status, lookup-insert, apart) refl
        ]
      ]

  apply_decision-config :
      (now : Word) (d : ScalingDecision F) (e : ScalingEngine F)
      → ((apply_decision now d e).0.config ≡ e.config)
        × ((apply_decision now d e).0.registry ≡ e.registry)
  unfolding apply_decision cool_down
  apply_decision-config now d e = elim (Action-cases d.action) [
    | inl idle ↦ rw (idle, apply_decision) (refl, refl)
    | inr (inl out) ↦ elim (Option-cases (lookup d.service_name e.config.services)) [
      | inl absent ↦ rw (out, apply_decision, absent) (refl, refl)
      | inr (config, found) ↦ rw (out, apply_decision, found) (refl, refl)
    ]
    | inr (inr in_) ↦ elim (Option-cases (lookup d.service_name e.config.services)) [
      | inl absent ↦ rw (in_, apply_decision, absent) (refl, refl)
      | inr (config, found) ↦ rw (in_, apply_decision, found) (refl, refl)
    ]
  ]

module _ (fl : Float64) where
  open fl use {F}

  -- What an evaluation answers depends on the configuration, the registry and the cooldown of the
  -- service alone.
  evaluate_service-same :
      (checked now : Word) (collect : String → List (Instance F) → Option (Map String F))
      (service : String) (e e' : ScalingEngine F)
      → e'.config ≡ e.config
      → e'.registry ≡ e.registry
      → get_cooldown_status checked service e' ≡ get_cooldown_status checked service e
      → evaluate_service fl checked now collect service e'
        ≡ evaluate_service fl checked now collect service e
  unfolding evaluate_service evaluate_configured
  evaluate_service-same checked now collect service e e' config registry cooldown =
      elim (Option-cases (lookup service e.config.services)) [
        | inl absent ↦ rw (evaluate_service, config, absent) refl
        | inr (c, configured) ↦ elim (Option-cases (get_cooldown_status checked service e)) [
          | inl ready ↦
              rw
                (
                  evaluate_service, config, configured, evaluate_configured, cooldown, ready,
                  registry,
                )
                refl
          | inr (until, cooling) ↦
              rw
                (
                  evaluate_service, config, configured, evaluate_configured, cooldown, cooling,
                  registry,
                )
                refl
        ]
      ]

  -- Once a decision to scale is applied, an evaluation of that service before the end of the
  -- direction's cooldown answers to do nothing, and says until when; what an evaluation of any other
  -- service answers stays the same (times below 2 ^ 63).
  pub evaluate_service-apply_decision :
      (applied checked now : Word) (collect : String → List (Instance F) → Option (Map String F))
      (other : String) (d : ScalingDecision F) (e : ScalingEngine F) (config : ServiceConfig F)
      → lookup d.service_name e.config.services ≡ some config
      → d.action ≢ no_action
      → d.service_name ≢ other
      → applied + cooldown_for d.action config < 2 ^ 63
      → checked < applied + cooldown_for d.action config
      → let e' = (apply_decision applied d e).0 in
        (evaluate_service fl checked now collect d.service_name e'
          ≡ inr (
              waiting fl now d.service_name
                (get_service_state fl d.service_name e.registry).current_instances
                (applied + cooldown_for d.action config)))
        × (evaluate_service fl checked now collect other e'
            ≡ evaluate_service fl checked now collect other e)
  unfolding evaluate_service evaluate_configured
  evaluate_service-apply_decision applied checked now collect other d e config configured acts
        differ small before =
      let (same, registry) = apply_decision-config applied d e in
      let status = get_cooldown_status-apply_decision applied checked d e config configured acts in
      let cooling =
        status ∙ cooling_lem applied checked (cooldown_for d.action config) small before in
      (
        rw (evaluate_service, same, configured, evaluate_configured, cooling, registry) refl,
        evaluate_service-same checked now collect other e (apply_decision applied d e).0 same
            registry (cooldown_elsewhere applied checked d e other differ),
      )
