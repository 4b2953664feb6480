-- ===== src/Threshold.antt =====
-- The threshold evaluator of the autoscaler (services/autoscaler/pkg/scaler/threshold.go). What the
-- collector finds is an argument, as is the clock's reading; `F` stands for float64.
pub mod Decision
mod Examples
use true_now.Base.{
  ℕ, zero, suc, ◌+◌, ◌-◌, String, Bool, true, false, not, ◌&&◌, Option, none, some, List, [], ◌∷◌,
  ◌++◌, if◌then◌else◌, ◌==◌, string_eq, ltb, eqb, length, min, drop, ◌⊎◌, inl, inr,
}
use true_now.Base.Word.{Word}
use true_now.Base.Float.{Float64}
use true_now.Base.Map.{Map, lookup, insert, delete}

pub record MetricConfig (F : Type 0) : Type 0 where
  pub metric_type : String
  pub threshold : F
  pub window : Word
  pub aggregation : String

pub record MetricResult (F : Type 0) : Type 0 where
  pub metric_type : String
  pub current_value : F
  pub threshold : F
  pub exceeds_threshold : Bool
  pub percent_of_threshold : F
  pub window : Word
  pub aggregation : String

pub record MetricEntry (F : Type 0) : Type 0 where
  pub timestamp : Word
  pub metrics : Map String F

pub record MetricHistory (F : Type 0) : Type 0 where
  pub service_name : String
  pub entries : List (MetricEntry F)
  pub max_entries : ℕ

pub record MetricEvaluation (F : Type 0) : Type 0 where
  pub service_name : String
  pub timestamp : Word
  pub metric_results : List (MetricResult F)
  pub should_scale_out : Bool
  pub should_scale_in : Bool
  pub sustained_load : Bool
  pub sustained_low_load : Bool
  pub triggering_metric : String
  pub triggering_value : F
  pub current_instances : ℕ

-- The metrics of each configured service, and the history of those that were evaluated.
pub record ThresholdEvaluator (F : Type 0) : Type 0 where
  pub services : Map String (List (MetricConfig F))
  pub history : Map String (MetricHistory F)

pub data EvaluationErr : Type 0 where
  not_configured : String → EvaluationErr
  collection_failed : EvaluationErr

module _ (fl : Float64) where
  open fl use {F, lit, mul, div, lt, le, of_int64}

  unfoldable pub evaluate_metric : Map String F → MetricConfig F → MetricResult F
  evaluate_metric metrics config =
      let result : MetricResult F = record {
        metric_type = config.metric_type;
        current_value = lit 0 1;
        threshold = config.threshold;
        exceeds_threshold = false;
        percent_of_threshold = lit 0 1;
        window = config.window;
        aggregation = config.aggregation;
      } in
      elim (lookup config.metric_type metrics) [
        | none ↦ result
        | some value ↦ record result {
          current_value = value;
          exceeds_threshold = lt config.threshold value;
          percent_of_threshold =
              if lt (lit 0 1) config.threshold
              then mul (div value config.threshold) (lit 100 1)
              else lit 0 1;
        }
      ]

  -- The evaluation with one more result.
  unfoldable pub add_result : MetricResult F → MetricEvaluation F → MetricEvaluation F
  add_result result e =
      let e' : MetricEvaluation F = record e {
        metric_results = e.metric_results ++ (result ∷ []);
      } in
      if result.exceeds_threshold
      then record e' {
        should_scale_out = true;
        should_scale_in = false;
        triggering_metric = result.metric_type;
        triggering_value = result.current_value;
      }
      else (if lt (mul result.threshold (lit 8 10)) result.current_value
          then record e' { should_scale_in = false }
          else e')

  unfoldable pub evaluate_all :
      Map String F → List (MetricConfig F) → MetricEvaluation F → MetricEvaluation F
  unfolding evaluate_metric add_result
  evaluate_all metrics [] e = e
  evaluate_all metrics (config ∷ configs) e =
      evaluate_all metrics configs (add_result (evaluate_metric metrics config) e)

  find_config : String → List (MetricConfig F) → Option (MetricConfig F)
  find_config name [] = none
  find_config name (config ∷ configs) =
      let rest = find_config name configs in
      if config.metric_type == name then some config else rest

  count_above : String → F → List (MetricEntry F) → ℕ
  count_above name threshold [] = 0
  count_above name threshold (entry ∷ entries) =
      let rest = count_above name threshold entries in
      elim (lookup name entry.metrics) [
        | none ↦ rest
        | some value ↦ if lt threshold value then suc rest else rest
      ]

  abbrev last_entries : ℕ → List (MetricEntry F) → List (MetricEntry F)
  last_entries count entries = drop (length entries - count) entries

  sustained_above : MetricConfig F → List (MetricEntry F) → Bool
  unfolding count_above
  sustained_above config entries =
      let count = min 5 (length entries) in
      le (lit 6 10) (
        div
          (of_int64 (count_above config.metric_type config.threshold (last_entries count entries)))
          (of_int64 count))

  unfoldable pub check_sustained_load :
      String → List (MetricConfig F) → Option (MetricHistory F) → Bool
  unfolding find_config sustained_above
  check_sustained_load name configs none = false
  check_sustained_load name configs (some history) =
      if ltb (length history.entries) 3 then false else elim (find_config name configs) [
        | none ↦ false
        | some config ↦ sustained_above config history.entries
      ]

  entry_low : Map String F → List (MetricConfig F) → Bool
  entry_low metrics [] = true
  entry_low metrics (config ∷ configs) =
      let rest = entry_low metrics configs in
      elim (lookup config.metric_type metrics) [
        | none ↦ rest
        | some value ↦ if lt (mul config.threshold (lit 8 10)) value then false else rest
      ]

  all_low : List (MetricConfig F) → List (MetricEntry F) → Bool
  unfolding entry_low
  all_low configs [] = true
  all_low configs (entry ∷ entries) = entry_low entry.metrics configs && all_low configs entries

  unfoldable pub check_sustained_low_load : List (MetricConfig F) → Option (MetricHistory F) → Bool
  unfolding all_low
  check_sustained_low_load configs none = false
  check_sustained_low_load configs (some history) =
      if ltb (length history.entries) 5
      then false
      else all_low configs (last_entries (min 10 (length history.entries)) history.entries)

  history_of : String → Option (MetricHistory F) → MetricHistory F
  history_of service none = record { service_name = service; entries = []; max_entries = 100 }
  history_of service (some history) = history

  unfoldable pub add_entry : MetricEntry F → MetricHistory F → MetricHistory F
  add_entry entry history =
      let entries = history.entries ++ (entry ∷ []) in
      record history {
        entries =
            if ltb history.max_entries (length entries)
            then drop (length entries - history.max_entries) entries
            else entries;
      }

  unfoldable pub add_to_history :
      Word → String → Map String F → ThresholdEvaluator F → ThresholdEvaluator F
  unfolding history_of add_entry
  add_to_history now service metrics t = record t {
    history =
        insert service
          (add_entry (record { timestamp = now; metrics = metrics })
            (history_of service (lookup service t.history)))
          t.history;
  }

  start_evaluation : Word → String → ℕ → MetricEvaluation F
  start_evaluation now service instances = record {
    service_name = service;
    timestamp = now;
    metric_results = [];
    should_scale_out = false;
    should_scale_in = true;
    sustained_load = false;
    sustained_low_load = false;
    triggering_metric = "";
    triggering_value = lit 0 1;
    current_instances = instances;
  }

  -- The sustained load, from the history with the new entry.
  unfoldable pub evaluate_service :
      Word
      → String
      → ℕ
      → Map String F
      → List (MetricConfig F)
      → Option (MetricHistory F)
      → MetricEvaluation F
  unfolding evaluate_all start_evaluation check_sustained_load check_sustained_low_load
  evaluate_service now service instances metrics configs history =
      let e = evaluate_all metrics configs (start_evaluation now service instances) in
      record e {
        sustained_load =
            if e.should_scale_out
            then check_sustained_load e.triggering_metric configs history
            else false;
        sustained_low_load =
            if e.should_scale_in then check_sustained_low_load configs history else false;
      }

  -- What the collector gives for the service, none if it fails.
  unfoldable pub evaluate_metrics :
      Word
      → String
      → ℕ
      → Option (Map String F)
      → ThresholdEvaluator F
      → ThresholdEvaluator F × (EvaluationErr ⊎ MetricEvaluation F)
  unfolding add_to_history evaluate_service
  evaluate_metrics now service instances collected t = elim (lookup service t.services) [
    | none ↦ (t, inl (not_configured service))
    | some configs ↦ elim collected [
      | none ↦ (t, inl collection_failed)
      | some metrics ↦
          let t' = add_to_history now service metrics t in
          (
            t',
            inr (
                evaluate_service now service instances metrics configs (lookup service t'.history)),
          )
    ]
  ]

  unfoldable pub clear_history : String → ThresholdEvaluator F → ThresholdEvaluator F
  clear_history service t = record t { history = delete service t.history }
