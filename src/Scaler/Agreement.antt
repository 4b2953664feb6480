-- ===== src/Scaler/Agreement.antt =====
-- How the engine's evaluation agrees with its own checks and with the threshold evaluator
-- (services/autoscaler/pkg/scaler/threshold.go).
use true_now.Base.{
  ℕ, ◌≡◌, refl, sym, ap, ◌∙◌, String, Bool, true, false, ◌&&◌, Option, none, some, List, [], ◌∷◌,
  if◌then◌else◌, arith, Option-cases, inl, inr, ◌⊎◌, length, string_eq, All,
}
use true_now.Base.Word.{Word, sle}
use true_now.Base.Float.{Float64}
use true_now.Base.Map.{Map, lookup, contains, contains-IsSome}
use true_now.Registry.Types.{Instance}
use true_now.Registry.{get_healthy}
use true_now.Registry.Queries.{get_service_state}
use true_now.Threshold.{MetricConfig, MetricHistory, evaluate_service as threshold_evaluation}
use true_now.Threshold.Decision.{any_exceeds, none_high, evaluate_service_lem}
use true_now.Scaler.{
  ScalingEngine, ScalingErr, collected, cools, get_cooldown_status, evaluate_service, can_scale_out,
  can_scale_in, evaluate_configured,
}
use true_now.Scaler.Decide.{
  ScalingAction, scale_out_action, scale_in_action, no_action, ScalingDecision, Scan, scan, choose,
  decide_on,
}
use true_now.Scaler.Config.{ServiceConfig}

module _ (fl : Float64) where
  open fl use {F, lit, mul, lt}

  scan-evaluated :
      (metrics : Map String F) (configs : List (MetricConfig F)) (scale_in : Bool)
      → All (λ c. contains c.metric_type metrics ≡ true) configs
      → let s = scan fl metrics configs scale_in in
        (s.scale_out ≡ any_exceeds fl metrics configs)
        × (s.scale_in ≡ (scale_in && none_high fl metrics configs))
  unfolding scan
  scan-evaluated metrics [] scale_in all = (refl, ground arith)
  scan-evaluated metrics (c ∷ cs) scale_in (collected, all) =
      let (value, found) = contains-IsSome c.metric_type metrics collected in
      let high = lt (mul c.threshold (lit 8 10)) value in
      let (out, in_) = scan-evaluated metrics cs (if high then false else scale_in) all in
      (rw (found, scan, out) (ground arith), rw (found, scan, in_) (ground arith))

  -- The engine's loop over the metrics finds the same as the threshold evaluator does when every
  -- configured metric was measured: whether to scale out, and whether to scale in.
  pub scan-evaluate_service :
      (now : Word) (service : String) (instances : ℕ) (metrics : Map String F)
      (configs : List (MetricConfig F)) (history : Option (MetricHistory F))
      → All (λ c. contains c.metric_type metrics ≡ true) configs
      → let s = scan fl metrics configs true in
        let e = threshold_evaluation fl now service instances metrics configs history in
        (s.scale_out ≡ e.should_scale_out) × (s.scale_in ≡ e.should_scale_in)
  scan-evaluate_service now service instances metrics configs history all =
      let (out, in_) = scan-evaluated metrics configs true all in
      let (out', in', never) =
        evaluate_service_lem fl now service instances metrics configs history in
      (out ∙ sym out', in_ ∙ sym in')

  -- Without what was measured, the loop is left with the advice to scale in.
  scan-unmeasured : (configs : List (MetricConfig F)) → (scan fl [] configs true).scale_in ≡ true
  unfolding scan lookup
  scan-unmeasured [] = refl
  scan-unmeasured (c ∷ cs) = scan-unmeasured cs

  choose-allowed :
      (config : ServiceConfig F) (current healthy : Word) (s : Scan F)
      → let (action, target, reason) = choose fl config current healthy s in
        (action ≡ scale_out_action → sle config.max_instances current ≡ false)
        × (action ≡ scale_in_action
            → (sle current config.min_instances ≡ false)
              × (sle healthy config.min_instances ≡ false))
  unfolding choose
  choose-allowed config current healthy s =
      (λ out. ground arith, λ in_. (ground arith, ground arith))

  abbrev action_of : ScalingErr ⊎ ScalingDecision F → ScalingAction
  action_of (inl err) = no_action
  action_of (inr d) = d.action

  -- Where an action comes from.
  decided_by :
      (checked now : Word) (collect : String → List (Instance F) → Option (Map String F))
      (service : String) (e : ScalingEngine F)
      → let current = (get_service_state fl service e.registry).current_instances in
        let healthy = get_healthy service e.registry in
        let action = action_of (evaluate_service fl checked now collect service e) in
        (action ≡ no_action)
        ⊎ ((config : ServiceConfig F) × (lookup service e.config.services ≡ some config)
            × (get_cooldown_status checked service e ≡ none)
            × ((action ≡ scale_out_action → sle config.max_instances current ≡ false)
                × (action ≡ scale_in_action
                    → (sle current config.min_instances ≡ false)
                      × (sle (length healthy) config.min_instances ≡ false))))
  unfolding evaluate_service evaluate_configured collected decide_on
  decided_by checked now collect service e =
      let current = (get_service_state fl service e.registry).current_instances in
      let healthy = get_healthy service e.registry in
      elim (Option-cases (lookup service e.config.services)) [
        | inl absent ↦ inl (rw (evaluate_service, absent) refl)
        | inr (config, configured) ↦ elim (Option-cases (get_cooldown_status checked service e)) [
          | inr (until, cooling) ↦
              inl (rw (evaluate_service, configured, evaluate_configured, cooling) refl)
          | inl ready ↦ elim (Option-cases (collect service healthy)) [
            | inl failed ↦
                inl (rw (evaluate_service, configured, evaluate_configured, ready, failed) refl)
            | inr (metrics, measured) ↦ inr (
              config,
              configured,
              ready,
              rw (evaluate_service, configured, evaluate_configured, ready, measured)
                  (choose-allowed config current (length healthy)
                    (scan fl metrics config.metrics true)),
            )
          ]
        ]
      ]

  warm_lem :
      (now : Word) (service : String) (e : ScalingEngine F)
      → get_cooldown_status now service e ≡ none
      → cools fl now service e ≡ false
  unfolding cools
  warm_lem now service e ready = rw (cools, ready) refl

  -- A decision to scale out is made only where CanScaleOut answers yes, and one to scale in only where
  -- CanScaleIn does, at the same time and in the same state.
  pub evaluate_service-can_scale :
      (checked now : Word) (collect : String → List (Instance F) → Option (Map String F))
      (service : String) (e : ScalingEngine F) (d : ScalingDecision F)
      → evaluate_service fl checked now collect service e ≡ inr d
      → (d.action ≡ scale_out_action → can_scale_out fl checked service e ≡ inr true)
        × (d.action ≡ scale_in_action → can_scale_in fl checked service e ≡ inr true)
  unfolding can_scale_out can_scale_in
  evaluate_service-can_scale checked now collect service e d decided =
      let same = ap action_of decided in
      elim (decided_by checked now collect service e) [
        | inl idle ↦ (λ out. cc (idle, same, out), λ in_. cc (idle, same, in_))
        | inr (config, configured, ready, (outs, ins)) ↦ (
          λ out.
              rw (can_scale_out, configured, outs (same ∙ out), warm_lem checked service e ready)
                refl,
          λ in_.
              let (above, enough) = ins (same ∙ in_) in
              rw (can_scale_in, configured, above, warm_lem checked service e ready, enough) refl,
        )
      ]
