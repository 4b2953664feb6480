-- ===== src/Threshold/Decision.antt =====
-- What an evaluation recommends.
use true_now.Base.{
  ℕ, String, Bool, true, false, not, ◌&&◌, ◌||◌, Option, none, some, List, [], ◌∷◌, ◌≡◌, refl, ap,
  ◌∙◌, string_eq, arith, Option-cases, inl, inr,
}
use true_now.Base.Word.{Word}
use true_now.Base.Float.{Float64}
use true_now.Base.Map.{Map, lookup}
use true_now.Threshold.{
  MetricConfig, MetricResult, MetricHistory, MetricEvaluation, evaluate_metric, add_result,
  evaluate_all, start_evaluation, evaluate_service,
}

or_assoc : (a b c : Bool) → ((a || b) || c) ≡ (a || (b || c))
or_assoc true b c = refl
or_assoc false b c = refl

and_assoc : (a b c : Bool) → ((a && b) && c) ≡ (a && (b && c))
and_assoc true b c = refl
and_assoc false b c = refl

module _ (fl : Float64) where
  open fl use {F, lit, mul, lt}

  -- The value of a metric, 0 if it was not collected.
  abbrev pub value_or : F → Option F → F
  value_or d none = d
  value_or d (some v) = v

  abbrev pub exceeds : Option F → F → Bool
  exceeds none threshold = false
  exceeds (some v) threshold = lt threshold v

  -- Whether some metric is over its threshold.
  abbrev pub any_exceeds : Map String F → List (MetricConfig F) → Bool
  any_exceeds metrics [] = false
  any_exceeds metrics (c ∷ cs) =
      exceeds (lookup c.metric_type metrics) c.threshold || any_exceeds metrics cs

  -- Whether no metric is over its threshold, nor over four fifths of it.
  abbrev pub none_high : Map String F → List (MetricConfig F) → Bool
  none_high metrics [] = true
  none_high metrics (c ∷ cs) =
      let found = lookup c.metric_type metrics in
      not (exceeds found c.threshold || lt (mul c.threshold (lit 8 10)) (value_or (lit 0 1) found))
      && none_high metrics cs

  result_lem :
      (metrics : Map String F) (c : MetricConfig F)
      → let r = evaluate_metric fl metrics c in
        let found = lookup c.metric_type metrics in
        (r.exceeds_threshold ≡ exceeds found c.threshold)
        × (r.current_value ≡ value_or (lit 0 1) found)
        × (r.threshold ≡ c.threshold)
  unfolding evaluate_metric
  result_lem metrics c = elim (Option-cases (lookup c.metric_type metrics)) [
    | inl absent ↦ rw (absent, evaluate_metric) (refl, refl, refl)
    | inr (v, found) ↦ rw (found, evaluate_metric) (refl, refl, refl)
  ]

  add_result_lem :
      (r : MetricResult F) (e : MetricEvaluation F)
      → let e' = add_result fl r e in
        (e'.should_scale_out ≡ (e.should_scale_out || r.exceeds_threshold))
        × (e'.should_scale_in ≡ (
            e.should_scale_in
            && not (r.exceeds_threshold || lt (mul r.threshold (lit 8 10)) r.current_value)))
  unfolding add_result
  add_result_lem r e = (ground arith, ground arith)

  evaluate_all_lem :
      (metrics : Map String F) (cs : List (MetricConfig F)) (e : MetricEvaluation F)
      → let e' = evaluate_all fl metrics cs e in
        (e'.should_scale_out ≡ (e.should_scale_out || any_exceeds metrics cs))
        × (e'.should_scale_in ≡ (e.should_scale_in && none_high metrics cs))
  unfolding evaluate_all
  evaluate_all_lem metrics [] e = (ground arith, ground arith)
  evaluate_all_lem metrics (c ∷ cs) e =
      let r = evaluate_metric fl metrics c in
      let (over, value, threshold) = result_lem metrics c in
      let found = lookup c.metric_type metrics in
      let quiet : not (r.exceeds_threshold || lt (mul r.threshold (lit 8 10)) r.current_value)
          ≡ not (
              exceeds found c.threshold
              || lt (mul c.threshold (lit 8 10)) (value_or (lit 0 1) found)) =
        cc (over, value, threshold) in
      let (out, in_) = add_result_lem r e in
      let (outs, ins) = evaluate_all_lem metrics cs (add_result fl r e) in
      (
        outs
            ∙ ap (λ b. b || any_exceeds metrics cs) (out ∙ ap (λ b. e.should_scale_out || b) over)
            ∙ or_assoc e.should_scale_out (exceeds found c.threshold) (any_exceeds metrics cs),
        ins
            ∙ ap (λ b. b && none_high metrics cs) (in_ ∙ ap (λ b. e.should_scale_in && b) quiet)
            ∙ and_assoc e.should_scale_in
                (not (
                  exceeds found c.threshold
                  || lt (mul c.threshold (lit 8 10)) (value_or (lit 0 1) found)))
                (none_high metrics cs),
      )

  never_both :
      (metrics : Map String F) (cs : List (MetricConfig F))
      → (any_exceeds metrics cs && none_high metrics cs) ≡ false
  never_both metrics [] = refl
  never_both metrics (c ∷ cs) = ground (arith, never_both metrics cs)

  -- An evaluation recommends to scale out just when some configured metric was collected over its
  -- threshold, and to scale in just when no metric is over its threshold or four fifths of it, one that
  -- was not collected counting as 0; it never recommends both.
  pub evaluate_service_lem :
      (now : Word) (service : String) (instances : ℕ) (metrics : Map String F)
      (configs : List (MetricConfig F)) (history : Option (MetricHistory F))
      → let e = evaluate_service fl now service instances metrics configs history in
        (e.should_scale_out ≡ any_exceeds metrics configs)
        × (e.should_scale_in ≡ none_high metrics configs)
        × ((e.should_scale_out && e.should_scale_in) ≡ false)
  unfolding evaluate_service start_evaluation
  evaluate_service_lem now service instances metrics configs history =
      let (out, in_) =
        evaluate_all_lem metrics configs (start_evaluation fl now service instances) in
      (
        out,
        in_,
        ap
              (λ b.
                b
                && (evaluate_service fl now service instances metrics configs
                    history).should_scale_in)
              out
            ∙ ap (λ b. any_exceeds metrics configs && b) in_
            ∙ never_both metrics configs,
      )
