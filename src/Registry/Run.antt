-- ===== src/Registry/Run.antt =====
-- Any operations of the registry, one after another.
use true_now.Base.{
  ℕ, String, false, Option, none, some, List, [], ◌∷◌, ◌≡◌, refl, inl, inr, ◌==◌, string_eq,
  Bool-cases, Option-cases,
}
use true_now.Base.Word.{Word}
use true_now.Base.Map.{Map, lookup, insert}
use true_now.Registry.Types.{Instance, InstanceStatus, RegistryConfig, updated}
use true_now.Registry.State.{
  event_of, RegistryErr, InMemoryRegistry, new_in_memory_registry, move, send_event, members,
}
use true_now.Registry.Watchers.{watchers_of, has_watcher}
use true_now.Registry.Index.{
  IsIndexed, register-IsIndexed, deregister-IsIndexed, move-Agrees, update_status-IsIndexed,
  update_metrics-IsIndexed, cleanup-IsIndexed,
}
use true_now.Registry.{
  register, deregister, update, update_at, moved, update_status, update_metrics, watch, unwatch,
  close, cleanup,
}

pub data RegistryOp (F : Type 0) : Type 0 where
  register_op : Word → Option ℕ → RegistryOp F
  deregister_op : Word → String → RegistryOp F
  update_op : Word → Option ℕ → RegistryOp F
  update_status_op : Word → String → InstanceStatus → RegistryOp F
  update_metrics_op : Word → String → Map String F → RegistryOp F
  watch_op : String → RegistryOp F
  unwatch_op : String → ℕ → RegistryOp F
  close_op : RegistryOp F
  cleanup_op : Word → RegistryOp F

abbrev pub state_of :
    {F : Type 0} → Option (InMemoryRegistry F × Option RegistryErr) → Option (InMemoryRegistry F)
state_of none = none
state_of (some (r, answer)) = some r

module _ {F : Type 0} where
  -- The registry after an operation, none if that panics.
  abbrev pub apply : RegistryOp F → InMemoryRegistry F → Option (InMemoryRegistry F)
  apply (register_op now p) r = some (register now p r).0
  apply (deregister_op now id) r = some (deregister now id r).0
  apply (update_op now p) r = state_of (update now p r)
  apply (update_status_op now id status) r = some (update_status now id status r).0
  apply (update_metrics_op now id metrics) r = some (update_metrics now id metrics r).0
  apply (watch_op service) r = some (watch service r).0
  apply (unwatch_op service w) r = some (unwatch service w r)
  apply close_op r = some (close r)
  apply (cleanup_op now) r = some (cleanup now r)

  abbrev pub run : List (RegistryOp F) → InMemoryRegistry F → Option (InMemoryRegistry F)
  run [] r = some r
  run (op ∷ ops) r = elim (apply op r) [ none ↦ none | some r' ↦ run ops r' ]

  -- A result that is there and is indexed.
  IndexedResult : Option (InMemoryRegistry F) → Type 0
  IndexedResult o = (r : InMemoryRegistry F) × (o ≡ some r) × IsIndexed r

  update_found :
      (now : Word) (p q : ℕ) (r : InMemoryRegistry F) (services : Map String (Map String ℕ))
      → let i = r.store p in
        (i.id == "") ≡ false
        → r.closed ≡ false
        → lookup i.id r.instances ≡ some q
        → move (r.store q).service_name i.service_name i.id p r.services ≡ some services
        → state_of (update now (some p) r)
          ≡ some (
              send_event
                (event_of updated p "" "" now i.service_name)
                (record r { instances = insert i.id p r.instances; services = services }))
  unfolding update update_at moved
  update_found now p q r services h₁ h₂ here e = rw (h₁, h₂, here, e) refl

  update-IsIndexed :
      (now : Word) (p : Option ℕ) (r : InMemoryRegistry F)
      → IsIndexed r
      → IndexedResult (state_of (update now p r))
  unfolding update update_at moved IndexedResult send_event
  update-IsIndexed now none r v = (r, refl, v)
  update-IsIndexed now (some p) r v =
      let i = r.store p in
      elim (Bool-cases (i.id == "")) [
        | inl h ↦ rw h (r, refl, v)
        | inr h₁ ↦ elim (Bool-cases r.closed) [
          | inl h ↦ (r, rw (h₁, h) refl, v)
          | inr h₂ ↦ elim (Option-cases (lookup i.id r.instances)) [
            | inl absent ↦ (r, rw (h₁, h₂, absent) refl, v)
            | inr (q, here) ↦
                let (services, e, w) = move-Agrees p q r v here in
                (
                  send_event (event_of updated p "" "" now i.service_name)
                      (record r { instances = insert i.id p r.instances; services = services }),
                  update_found now p q r services h₁ h₂ here e,
                  w,
                )
          ]
        ]
      ]

  watch-IsIndexed :
      (service : String) (r : InMemoryRegistry F) → IsIndexed r → IsIndexed (watch service r).0
  unfolding watch
  watch-IsIndexed service r v = elim (Bool-cases r.config.enable_watching) [
    | inl h ↦ elim (Bool-cases r.closed) [ inl h' ↦ rw (h, h') v | inr h' ↦ rw (h, h') v ]
    | inr h ↦ rw h v
  ]

  unwatch-IsIndexed :
      (service : String) (w : ℕ) (r : InMemoryRegistry F)
      → IsIndexed r
      → IsIndexed (unwatch service w r)
  unfolding unwatch
  unwatch-IsIndexed service w r v =
      elim (Bool-cases (has_watcher w (watchers_of service r.watchers))) [
        | inl h ↦ rw h v
        | inr h ↦ rw h v
      ]

  close-IsIndexed : (r : InMemoryRegistry F) → IsIndexed r → IsIndexed (close r)
  unfolding close
  close-IsIndexed r v = elim (Bool-cases r.closed) [ inl h ↦ rw h v | inr h ↦ rw h v ]

  apply-IsIndexed :
      (op : RegistryOp F) (r : InMemoryRegistry F) → IsIndexed r → IndexedResult (apply op r)
  unfolding IndexedResult
  apply-IsIndexed (register_op now p) r v = (_, refl, register-IsIndexed now p r v)
  apply-IsIndexed (deregister_op now id) r v = (_, refl, deregister-IsIndexed now id r v)
  apply-IsIndexed (update_op now p) r v = update-IsIndexed now p r v
  apply-IsIndexed (update_status_op now id status) r v =
      (_, refl, update_status-IsIndexed now id status r v)
  apply-IsIndexed (update_metrics_op now id metrics) r v =
      (_, refl, update_metrics-IsIndexed now id metrics r v)
  apply-IsIndexed (watch_op service) r v = (_, refl, watch-IsIndexed service r v)
  apply-IsIndexed (unwatch_op service w) r v = (_, refl, unwatch-IsIndexed service w r v)
  apply-IsIndexed close_op r v = (_, refl, close-IsIndexed r v)
  apply-IsIndexed (cleanup_op now) r v = (_, refl, cleanup-IsIndexed now r v)

  run-IsIndexed :
      (ops : List (RegistryOp F)) (r : InMemoryRegistry F) → IsIndexed r → IndexedResult (run ops r)
  unfolding IndexedResult
  run-IsIndexed [] r v = (r, refl, v)
  run-IsIndexed (op ∷ ops) r v =
      let (r', e, v') = apply-IsIndexed op r v in
      let (r'', e', v'') = run-IsIndexed ops r' v' in (r'', rw (e, run) e', v'')

  -- From a new registry, with any objects that callers do not change later, no sequence of operations
  -- panics; and after it each instance stands under its own identifier, and the index by service has
  -- it under its own service and under no other, and has no other instances.
  pub run-new-IsIndexed :
      (config : RegistryConfig) (store : ℕ → Instance F) (ops : List (RegistryOp F))
      → (r : InMemoryRegistry F) × (run ops (new_in_memory_registry config store) ≡ some r)
        × IsIndexed r
  unfolding new_in_memory_registry members lookup IndexedResult
  run-new-IsIndexed config store ops =
      run-IsIndexed ops (new_in_memory_registry config store)
        (record { ids = λ id p h. absurd (cc h); index = λ s id. refl })
