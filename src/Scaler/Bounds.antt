-- ===== src/Scaler/Bounds.antt =====
-- The number of instances that a decision asks for.
use true_now.Base.{
  ◌+◌, ◌^◌, ◌≤◌, ◌<◌, ◌≡◌, refl, String, true, Option, none, some, List, arith, Bool-cases,
  Option-cases, inl, inr, string_eq, ◌&&◌, length,
}
use true_now.Base.Word.{Word, add64, sub64, slt}
use true_now.Base.Float.{Float64}
use true_now.Base.Map.{Map, lookup}
use true_now.Registry.Types.{Instance}
use true_now.Registry.{get_healthy}
use true_now.Registry.Queries.{get_service_state}
use true_now.Scaler.{
  ScalingEngine, waiting, get_cooldown_status, evaluate_service, evaluate_configured,
}
use true_now.Scaler.Decide.{
  ScalingAction, scale_out_action, scale_in_action, no_action, ScalingDecision, Scan, choose, scan,
  decide_on, smin, smax,
}
use true_now.Scaler.Config.{ServiceConfig, validate_service}

-- Within the configured numbers, and moved by at most the increment of its direction.
pub IsInRange : {F : Type 0} → ServiceConfig F → Word → ScalingAction → Word → Type 0
IsInRange config current scale_out_action target =
    (current < target)
    × (target ≤ config.max_instances)
    × (target ≤ current + config.scale_out.increment)
IsInRange config current scale_in_action target =
    (target < current)
    × (config.min_instances ≤ target)
    × (current ≤ target + config.scale_in.increment)
IsInRange config current no_action target = target ≡ current

-- Words that are not negative.
abbrev pub IsSmall : Word → Type 0
IsSmall a = a < 2 ^ 63

module _ {F : Type 0} where
  pub validate_service-facts :
      (config : ServiceConfig F)
      → validate_service config ≡ none
      → config.min_instances < 2 ^ 64
      → config.max_instances < 2 ^ 64
      → config.scale_out.increment < 2 ^ 64
      → config.scale_in.increment < 2 ^ 64
      → (config.min_instances ≤ config.max_instances)
        × (config.max_instances < 2 ^ 63)
        × (0 < config.scale_out.increment)
        × (config.scale_out.increment < 2 ^ 63)
        × (0 < config.scale_in.increment)
        × (config.scale_in.increment < 2 ^ 63)
  unfolding validate_service
  validate_service-facts config valid w1 w2 w3 w4 = ground arith

out_in_range :
    (current increment most : Word)
    → current + increment < 2 ^ 63
    → most < 2 ^ 63
    → 0 < increment
    → slt current most ≡ true
    → let target = smin (add64 current increment) most in
      (current < target) × (target ≤ most) × (target ≤ current + increment)
out_in_range current increment most small fits positive below = ground arith

in_in_range :
    (current increment least : Word)
    → current < 2 ^ 63
    → increment < 2 ^ 63
    → least < 2 ^ 63
    → 0 < increment
    → slt least current ≡ true
    → let target = smax (sub64 current increment) least in
      (target < current) × (least ≤ target) × (current ≤ target + increment)
in_in_range current increment least c i l positive below = ground arith

-- What a configuration has that passed its validation, and whose words have their width.
pub record IsSound {F : Type 0} (config : ServiceConfig F) : Type 0 where
  pub valid : validate_service config ≡ none
  pub min_word : config.min_instances < 2 ^ 64
  pub max_word : config.max_instances < 2 ^ 64
  pub out_word : config.scale_out.increment < 2 ^ 64
  pub in_word : config.scale_in.increment < 2 ^ 64

module _ (fl : Float64) where
  open fl use {F, lit, mul, lt, of_int64}

  choose-IsInRange :
      (config : ServiceConfig F) (current healthy : Word) (s : Scan F)
      → IsSound config
      → current + config.scale_out.increment < 2 ^ 63
      → let (action, target, reason) = choose fl config current healthy s in
        IsInRange config current action target
  unfolding IsInRange choose
  choose-IsInRange config current healthy s sound fits =
      let (ordered, m, o, o', i, i') =
        validate_service-facts config sound.valid sound.min_word sound.max_word sound.out_word
          sound.in_word in
      let out = out_in_range current config.scale_out.increment config.max_instances fits m o in
      let in_ =
        in_in_range current config.scale_in.increment config.min_instances (omega (arith, fits)) i'
          (omega (arith, m, ordered)) i in
      elim (Bool-cases (s.scale_out && slt current config.max_instances)) [
        | inl t ↦ rw t (out (ground (arith, t)))
        | inr f ↦
            elim (Bool-cases (
              s.scale_in && slt config.min_instances current && slt config.min_instances healthy)) [
                | inr g ↦ rw (f, g) refl
                | inl g ↦
                    elim (Bool-cases
                      (lt (mul (of_int64 config.min_instances) (lit 12 10)) (of_int64 current))) [
                        | inl more ↦ rw (f, g, more) (in_ (ground (arith, g)))
                        | inr close ↦ rw (f, g, close) refl
                      ]
              ]
      ]

  -- A service that is configured, validated and measured gets a decision that is about its instances
  -- in the registry: to scale out adds instances, at most the increment, and stays within the maximum;
  -- to scale in removes some, at most the increment, and stays within the minimum; else the number
  -- stays as it is (the instances and the increment add to less than 2 ^ 63).
  pub evaluate_service-IsInRange :
      (checked now : Word) (collect : String → List (Instance F) → Option (Map String F))
      (service : String) (e : ScalingEngine F) (config : ServiceConfig F) (metrics : Map String F)
      → lookup service e.config.services ≡ some config
      → collect service (get_healthy service e.registry) ≡ some metrics
      → IsSound config
      → (get_service_state fl service e.registry).current_instances + config.scale_out.increment
        < 2 ^ 63
      → (d : ScalingDecision F) × (evaluate_service fl checked now collect service e ≡ inr d)
        × (d.current_count ≡ (get_service_state fl service e.registry).current_instances)
        × IsInRange config d.current_count d.action d.target_count
  unfolding evaluate_service IsInRange decide_on choose
  evaluate_service-IsInRange checked now collect service e config metrics configured measured sound
        fits =
      let current = (get_service_state fl service e.registry).current_instances in
      let healthy = length (get_healthy service e.registry) in
      elim (Option-cases (get_cooldown_status checked service e)) [
        | inl ready ↦ (
          decide_on fl now service config current healthy metrics,
          rw (evaluate_service, configured, evaluate_configured, ready, measured) refl,
          refl,
          choose-IsInRange config current healthy (scan fl metrics config.metrics true) sound fits,
        )
        | inr (until, cooling) ↦ (
          waiting fl now service current until,
          rw (evaluate_service, configured, evaluate_configured, cooling) refl,
          refl,
          refl,
        )
      ]
