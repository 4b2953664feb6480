-- ===== src/Scaler/Validation.antt =====
-- What the validation of the configuration leaves.
use true_now.Base.{
  ◌≡◌, ◌≢◌, refl, sym, ap, String, Bool, false, not, ◌&&◌, none, some, [], ◌∷◌, suc, arith,
  Bool-cases, Option-cases, inl, inr, All, string_eq, ◌==◌, eqb, length,
}
use true_now.Base.Word.{second, slt}
use true_now.Base.Map.{Map}
use true_now.Scaler.Config.{
  ConfigErr, invalid_service, ServiceConfig, AutoScalerConfig, validate_service, with_stop_timeout,
  validate_services, validate, with_defaults,
}

-- A service under its own name, valid and with a time to stop.
pub record IsReady {F : Type 0} (entry : String × ServiceConfig F) : Type 0 where
  pub named : entry.1.name ≡ entry.0
  pub valid : validate_service entry.1 ≡ none
  pub stops : eqb entry.1.stop_timeout 0 ≡ false

module _ {F : Type 0} where
  with_stop_timeout_lem :
      (name : String) (c : ServiceConfig F)
      → c.name ≡ name
      → validate_service c ≡ none
      → IsReady (name, with_stop_timeout c)
  unfolding with_stop_timeout validate_service
  with_stop_timeout_lem name c named valid = elim (Bool-cases (eqb c.stop_timeout 0)) [
    | inl t ↦ rw (with_stop_timeout, t) (record { named = named; valid = valid; stops = refl })
    | inr f ↦ rw (with_stop_timeout, f) (record { named = named; valid = valid; stops = f })
  ]

  bad_service_lem :
      (name : String) (svc : ServiceConfig F) (services : Map String (ServiceConfig F))
      (err : ConfigErr)
      → validate_service (record svc { name = name }) ≡ some err
      → (validate_services ((name, svc) ∷ services)).1 ≢ none
  unfolding validate_services
  bad_service_lem name svc services err bad ok =
      let said : some (invalid_service name err) ≡ none = rw (validate_services, bad) at ok in
      cc said

  validate_services-IsReady :
      (services : Map String (ServiceConfig F))
      → (validate_services services).1 ≡ none
      → All IsReady (validate_services services).0
  unfolding validate_services
  validate_services-IsReady [] ok = tt
  validate_services-IsReady ((name, svc) ∷ services) ok =
      let named : ServiceConfig F = record svc { name = name } in
      elim (Option-cases (validate_service named)) [
        | inl fine ↦
            rw (validate_services, fine)
              (
                with_stop_timeout_lem name named refl fine,
                validate_services-IsReady services (rw (validate_services, fine) at ok),
              )
        | inr (err, bad) ↦ absurd (bad_service_lem name svc services err bad ok)
      ]

  ready_stays :
      (name : String) (svc : ServiceConfig F)
      → IsReady (name, svc)
      → with_stop_timeout (record svc { name = name }) ≡ svc
  unfolding with_stop_timeout
  ready_stays name svc ready = rw (sym ready.named) (rw (with_stop_timeout, ready.stops) refl)

  ready_valid :
      (name : String) (svc : ServiceConfig F)
      → IsReady (name, svc)
      → validate_service (record svc { name = name }) ≡ none
  ready_valid name svc ready = rw (sym ready.named) ready.valid

  validate_services-ready :
      (services : Map String (ServiceConfig F))
      → All IsReady services
      → validate_services services ≡ (services, none)
  unfolding validate_services
  validate_services-ready [] all = refl
  validate_services-ready ((name, svc) ∷ services) (ready, all) =
      rw
        (
          validate_services,
          ready_valid name svc ready,
          ready_stays name svc ready,
          validate_services-ready services all,
        )
        refl

  length-validate_services :
      (services : Map String (ServiceConfig F))
      → length (validate_services services).0 ≡ length services
  unfolding validate_services
  length-validate_services [] = refl
  length-validate_services ((name, svc) ∷ services) =
      elim (Option-cases (validate_service (record svc { name = name }))) [
        | inl fine ↦ rw (validate_services, fine) (ap suc (length-validate_services services))
        | inr (err, bad) ↦ rw (validate_services, bad) refl
      ]

  -- The guards that a configuration has passed.
  abbrev no_endpoint_given : AutoScalerConfig F → Bool
  no_endpoint_given c =
      not c.use_mock_processes && c.prometheus_url == "" && c.metrics_endpoint == ""

  guards_passed :
      (c : AutoScalerConfig F)
      → (validate c).1 ≡ none
      → (eqb (length c.services) 0 ≡ false)
        × (no_endpoint_given c ≡ false)
        × (slt c.evaluation_interval second ≡ false)
        × ((validate_services c.services).1 ≡ none)
  unfolding validate
  guards_passed c ok = elim (Bool-cases (eqb (length c.services) 0)) [
    | inl t ↦ absurd (cc (rw (validate, t) at ok))
    | inr f ↦ elim (Bool-cases (no_endpoint_given c)) [
      | inl t ↦ absurd (cc (rw (validate, f, t) at ok))
      | inr g ↦ elim (Bool-cases (slt c.evaluation_interval second)) [
        | inl t ↦ absurd (cc (rw (validate, f, g, t) at ok))
        | inr h ↦ (f, g, h, rw (validate, f, g, h) at ok)
      ]
    ]
  ]

  with_defaults_lem :
      (c : AutoScalerConfig F) (services : Map String (ServiceConfig F))
      → let c' : AutoScalerConfig F = record (with_defaults c) { services = services } in
        (with_defaults c' ≡ c') × (eqb c'.metrics_window 0 ≡ false)
  unfolding with_defaults
  with_defaults_lem c services = elim (Bool-cases (eqb c.metrics_window 0)) [
    | inl t ↦ elim (Bool-cases (eqb c.prometheus_timeout 0)) [
      | inl u ↦ rw (with_defaults, t, u) (refl, refl)
      | inr v ↦ rw (with_defaults, t, v, v) (refl, refl)
    ]
    | inr f ↦ elim (Bool-cases (eqb c.prometheus_timeout 0)) [
      | inl u ↦ rw (with_defaults, f, u, f) (refl, refl)
      | inr v ↦ rw (with_defaults, f, v, f, v) (refl, refl)
    ]
  ]

  -- A configuration that validates has some service, an interval of a second at least and a window for
  -- its metrics, and each of its services stands under its own name, is valid by itself and has a
  -- time to stop; to validate what the validation leaves changes nothing and succeeds again.
  validate-validate :
      (c : AutoScalerConfig F)
      → (validate c).1 ≡ none
      → let c' = (validate c).0 in
        (length c'.services ≢ 0)
        × (slt c'.evaluation_interval second ≡ false)
        × (c'.metrics_window ≢ 0)
        × All IsReady c'.services
        × (validate c' ≡ (c', none))
  unfolding validate with_defaults
  validate-validate c ok =
      let (f, g, h, fine) = guards_passed c ok in
      let services = (validate_services c.services).0 in
      let all = validate_services-IsReady c.services fine in
      let again = validate_services-ready services all in
      let (fixed, window) = with_defaults_lem c services in
      let same : (validate c).0 ≡ record (with_defaults c) { services = services } =
        rw (validate, f, g, h) refl in
      let count = length-validate_services c.services in
      rw same (
        λ empty. ground (arith, f, count, empty),
        h,
        λ zeroed. ground (arith, window, zeroed),
        all,
        rw (validate, count, f, g, h, again, fixed) refl,
      )
