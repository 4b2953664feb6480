-- ===== src/Registry/Queries.antt =====
-- The state of a service, with the averages of its metrics, and the filter of instances.
use true_now.Base.{
  ℕ, ◌+◌, String, Bool, true, false, Option, none, some, [], ◌∷◌, if◌then◌else◌, ◌==◌, ◌&&◌, not,
  string_eq, length,
}
use true_now.Base.Word.{Word, slt, time_sub}
use true_now.Base.Float.{Float64}
use true_now.Base.Map.{Map, lookup, insert}
use true_now.Registry.Types.{Instance, InstanceStatus, ServiceState, is_healthy}
use true_now.Registry.State.{InMemoryRegistry}

module _ (fl : Float64) where
  open fl use {F, lit, add, div, of_int64}

  -- A metric that is not there yet counts as 0.
  add_metrics : Map String F → Map String F → Map String F
  add_metrics [] totals = totals
  add_metrics ((name, value) ∷ metrics) totals =
      add_metrics metrics
        (insert name (add (elim (lookup name totals) [ none ↦ lit 0 1 | some v ↦ v ]) value) totals)

  average : F → Map String F → Map String F
  average count [] = []
  average count ((name, value) ∷ totals) = (name, div value count) ∷ average count totals

  abbrev empty_state : String → ServiceState F
  empty_state service = record {
    service_name = service;
    current_instances = 0;
    healthy_instances = 0;
    target_instances = 0;
    instances = [];
    in_cooldown = false;
    is_scaling = false;
    current_metrics = [];
  }

  unfoldable pub count_members : (ℕ → Instance F) → Map String ℕ → ServiceState F → ServiceState F
  unfolding is_healthy add_metrics
  count_members store [] s = s
  count_members store ((id, p) ∷ m) s =
      let i = store p in
      count_members store m (record s {
        healthy_instances = if is_healthy i then s.healthy_instances + 1 else s.healthy_instances;
        instances = insert id i s.instances;
        current_metrics = add_metrics i.metrics s.current_metrics;
      })

  service_state : String → Option (Map String ℕ) → InMemoryRegistry F → ServiceState F
  unfolding count_members average
  service_state service none r = empty_state service
  service_state service (some m) r =
      let s =
        count_members r.store m (record (empty_state service) { current_instances = length m }) in
      record s { current_metrics = average (of_int64 s.current_instances) s.current_metrics }

  unfoldable pub get_service_state : String → InMemoryRegistry F → ServiceState F
  unfolding service_state
  get_service_state service r = service_state service (lookup service r.services) r

pub record InstanceFilter : Type 0 where
  pub service_name : String
  pub status : InstanceStatus
  pub labels : Map String String
  pub min_uptime : Word
  pub host : String

unfoldable pub has_labels : Map String String → Map String String → Bool
has_labels [] labels = true
has_labels ((key, value) ∷ wanted) labels =
    let rest = has_labels wanted labels in
    elim (lookup key labels) [ none ↦ false | some v ↦ if v == value then rest else false ]

unfoldable pub matches : {F : Type 0} → Word → InstanceFilter → Instance F → Bool
unfolding has_labels
matches now f i =
    if not (f.service_name == "") && not (i.service_name == f.service_name)
    then false
    else if not (f.status == "") && not (i.status == f.status)
    then false
    else if not (f.host == "") && not (i.host == f.host)
    then false
    else if slt 0 f.min_uptime && slt (time_sub now i.start_time) f.min_uptime
    then false
    else has_labels f.labels i.labels
