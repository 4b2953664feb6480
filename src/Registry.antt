-- ===== src/Registry.antt =====
-- The autoscaler's registry of instances (services/autoscaler/pkg/registry/memory.go). An operation
-- runs alone, under the lock. The instances are objects of a store that callers share: a pointer is
-- a number, and the registry writes to the objects that it was given.
pub mod Types
pub mod Watchers
pub mod State
pub mod Members
pub mod Agree
pub mod Index
pub mod Run
pub mod Queries
mod Examples
use true_now.Base.{
  ℕ, zero, suc, ◌+◌, ◌*◌, String, Bool, true, false, Option, none, some, List, [], ◌∷◌, ◌++◌,
  if◌then◌else◌, ltb, eqb, ◌==◌, nat_eq, string_eq, length, not, ◌&&◌, ◌⊎◌, inl, inr,
}
use true_now.Base.Word.{Word, slt, sub64, mul64}
use true_now.Base.Float.{Float64}
use true_now.Base.Map.{Map, lookup, insert, delete, contains}
use true_now.Registry.Types.{
  InstanceStatus, status_running, status_unhealthy, Instance, is_healthy, EventType, registered,
  deregistered, updated, status_change, RegistryEvent, RegistryConfig, ServiceState,
}
use true_now.Registry.Watchers.{
  WatcherChannel, Channels, put_channel, send, close_channel, close_all, watchers_of, remove_first,
  has_watcher,
}
use true_now.Registry.State.{
  RegistryErr, nil_instance, id_required, service_name_required, invalid_instance, registry_closed,
  already_registered, instance_not_found, watching_disabled, InMemoryRegistry,
  new_in_memory_registry, write, members, add_member, remove_member, event_of, move, send_event,
}

module _ {F : Type 0} where
  -- `none` for the pointer is nil.
  unfoldable pub register :
      Word → Option ℕ → InMemoryRegistry F → InMemoryRegistry F × Option RegistryErr
  unfolding add_member send_event
  register now none r = (r, some nil_instance)
  register now (some p) r =
      let i = r.store p in
      if i.id == ""
      then (r, some id_required)
      else if i.service_name == ""
      then (r, some service_name_required)
      else if r.closed
      then (r, some registry_closed)
      else if contains i.id r.instances
      then (r, some (already_registered i.id))
      else (
        send_event (event_of registered p "" "" now i.service_name) (record r {
          instances = insert i.id p r.instances;
          services = add_member i.service_name i.id p r.services;
        }),
        none,
      )

  deregister_at :
      Word → String → Option ℕ → InMemoryRegistry F → InMemoryRegistry F × Option RegistryErr
  unfolding remove_member send_event
  deregister_at now id none r = (r, some instance_not_found)
  deregister_at now id (some p) r =
      let service = (r.store p).service_name in
      (
        send_event (event_of deregistered p "" "" now service) (record r {
          instances = delete id r.instances;
          services = remove_member service id r.services;
        }),
        none,
      )

  unfoldable pub deregister :
      Word → String → InMemoryRegistry F → InMemoryRegistry F × Option RegistryErr
  unfolding deregister_at
  deregister now id r =
      if r.closed then (r, some registry_closed) else deregister_at now id (lookup id r.instances) r

  moved :
      Word
      → ℕ
      → Option (Map String (Map String ℕ))
      → InMemoryRegistry F
      → Option (InMemoryRegistry F × Option RegistryErr)
  unfolding send_event
  moved now p none r = none
  moved now p (some services) r =
      let i = r.store p in
      some (
        send_event (event_of updated p "" "" now i.service_name)
            (record r { instances = insert i.id p r.instances; services = services }),
        none,
      )

  update_at :
      Word → ℕ → Option ℕ → InMemoryRegistry F → Option (InMemoryRegistry F × Option RegistryErr)
  unfolding move moved
  update_at now p none r = some (r, some instance_not_found)
  update_at now p (some existing) r =
      let i = r.store p in
      moved now p (move (r.store existing).service_name i.service_name i.id p r.services) r

  unfoldable pub update :
      Word → Option ℕ → InMemoryRegistry F → Option (InMemoryRegistry F × Option RegistryErr)
  unfolding update_at
  update now none r = some (r, some invalid_instance)
  update now (some p) r =
      let i = r.store p in
      if i.id == ""
      then some (r, some invalid_instance)
      else if r.closed
      then some (r, some registry_closed)
      else update_at now p (lookup i.id r.instances) r

  -- The copies that the registry gives out.
  unfoldable pub get : String → InMemoryRegistry F → Option (Instance F)
  get id r = elim (lookup id r.instances) [ none ↦ none | some p ↦ some (r.store p) ]

  unfoldable pub copies : (ℕ → Instance F) → Map String ℕ → List (Instance F)
  copies store [] = []
  copies store ((id, p) ∷ m) = store p ∷ copies store m

  unfoldable pub get_by_service : String → InMemoryRegistry F → List (Instance F)
  unfolding copies members
  get_by_service service r = copies r.store (members service r.services)

  unfoldable pub get_all : InMemoryRegistry F → List (Instance F)
  unfolding copies
  get_all r = copies r.store r.instances

  unfoldable pub healthy : (ℕ → Instance F) → Map String ℕ → List (Instance F)
  unfolding is_healthy
  healthy store [] = []
  healthy store ((id, p) ∷ m) =
      let rest = healthy store m in if is_healthy (store p) then store p ∷ rest else rest

  unfoldable pub get_healthy : String → InMemoryRegistry F → List (Instance F)
  unfolding healthy members
  get_healthy service r = healthy r.store (members service r.services)

  set_status : Word → InstanceStatus → ℕ → InMemoryRegistry F → InMemoryRegistry F
  unfolding write send_event
  set_status now status p r =
      let i = r.store p in
      send_event (event_of status_change p i.status status now i.service_name) (record r {
        store = write p (record i { status = status; last_health_check = now }) r.store;
      })

  unfoldable pub update_status :
      Word → String → InstanceStatus → InMemoryRegistry F → InMemoryRegistry F × Option RegistryErr
  unfolding set_status
  update_status now id status r =
      if r.closed then (r, some registry_closed) else elim (lookup id r.instances) [
        | none ↦ (r, some instance_not_found)
        | some p ↦ (set_status now status p r, none)
      ]

  unfoldable pub update_metrics :
      Word → String → Map String F → InMemoryRegistry F → InMemoryRegistry F × Option RegistryErr
  unfolding write
  update_metrics now id metrics r =
      if r.closed then (r, some registry_closed) else elim (lookup id r.instances) [
        | none ↦ (r, some instance_not_found)
        | some p ↦ (
          record r {
            store =
                write p (record (r.store p) { metrics = metrics; last_health_check = now }) r.store;
          },
          none,
        )
      ]

  -- A watcher, its number, for a service or for "*".
  unfoldable pub watch : String → InMemoryRegistry F → InMemoryRegistry F × (RegistryErr ⊎ ℕ)
  unfolding put_channel watchers_of
  watch service r =
      if not r.config.enable_watching
      then (r, inl watching_disabled)
      else if r.closed
      then (r, inl registry_closed)
      else (
        record r {
          watchers = insert service (watchers_of service r.watchers ++ (r.made ∷ [])) r.watchers;
          channels = put_channel r.made (record { ch = []; closed = false }) r.channels;
          made = r.made + 1;
        },
        inr r.made,
      )

  -- The goroutine of `Watch` when the watcher's context is done.
  unfoldable pub unwatch : String → ℕ → InMemoryRegistry F → InMemoryRegistry F
  unfolding watchers_of has_watcher remove_first close_channel
  unwatch service w r =
      let ws = watchers_of service r.watchers in
      if has_watcher w ws
      then record r {
        watchers = insert service (remove_first w ws) r.watchers;
        channels = if (r.channels w).closed then r.channels else close_channel w r.channels;
      }
      else r

  unfoldable pub close : InMemoryRegistry F → InMemoryRegistry F
  unfolding close_all
  close r =
      if r.closed
      then r
      else record r { closed = true; channels = close_all r.watchers r.channels; watchers = [] }

  mark_stale : Word → Word → ℕ → InMemoryRegistry F → InMemoryRegistry F
  unfolding write send_event
  mark_stale now threshold p r =
      let i = r.store p in
      if slt i.last_health_check threshold && not (i.status == status_unhealthy)
      then send_event (event_of status_change p i.status status_unhealthy now i.service_name)
          (record r { store = write p (record i { status = status_unhealthy }) r.store })
      else r

  clean : Word → Word → Map String ℕ → InMemoryRegistry F → InMemoryRegistry F
  unfolding mark_stale
  clean now threshold [] r = r
  clean now threshold ((id, p) ∷ m) r = clean now threshold m (mark_stale now threshold p r)

  unfoldable pub cleanup : Word → InMemoryRegistry F → InMemoryRegistry F
  unfolding clean
  cleanup now r = clean now (sub64 now (mul64 r.config.ttl 3)) r.instances r
