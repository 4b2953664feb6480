-- ===== src/Registry/Index.antt =====
-- The index by service agrees with the instances after any operations of the registry.
use true_now.Base.{
  ℕ, String, Bool, true, false, Option, none, some, [], ◌∷◌, ◌≡◌, refl, ap, subst, ◌∙◌, inl, inr,
  if◌then◌else◌, eqb, ◌==◌, nat_eq, string_eq, arith, beq_self, Bool-cases, Option-cases, not, ◌&&◌,
}
use true_now.Base.Word.{Word, slt, sub64, mul64}
use true_now.Base.Map.{Map, lookup, insert, contains, lookup-insert, lookup-delete, not-contains}
use true_now.Registry.Types.{Instance, InstanceStatus, status_unhealthy}
use true_now.Registry.State.{InMemoryRegistry, write, add_member, remove_member, move, send_event}
use true_now.Registry.Agree.{
  Agrees, expected, at_key, put-Agrees, drop-Agrees, KeepsNames, kept-Agrees,
}
use true_now.Registry.Members.{
  member, member-add_member, member-remove_member, member_absent, add_member_found,
}
use true_now.Registry.{
  register, deregister, deregister_at, update_status, set_status, update_metrics, mark_stale, clean,
  cleanup,
}

abbrev pub IsIndexed : {F : Type 0} → InMemoryRegistry F → Type 0
IsIndexed r = Agrees r.store (λ id. lookup id r.instances) (λ s id. member s id r.services)

write-KeepsNames :
    {F : Type 0} (store : ℕ → Instance F) (p : ℕ) (i : Instance F)
    → i.id ≡ (store p).id
    → i.service_name ≡ (store p).service_name
    → KeepsNames store (write p i store)
unfolding write
write-KeepsNames store p i a b q = elim (Bool-cases (eqb p q)) [
  | inl same ↦
      let is_q : p ≡ q = ground (arith, same) in
      rw same
        (subst (λ x. (i.id ≡ (store x).id) × (i.service_name ≡ (store x).service_name)) is_q (a, b))
  | inr other ↦ rw other (refl, refl)
]

overwritten :
    (b : Bool) (p : ℕ) (o : Option ℕ)
    → (if b then some p else o) ≡ (if b then some p else (if b then none else o))
overwritten true p o = refl
overwritten false p o = refl

module _ {F : Type 0} where
  pub register-IsIndexed :
      (now : Word) (p : Option ℕ) (r : InMemoryRegistry F)
      → IsIndexed r
      → IsIndexed (register now p r).0
  unfolding register send_event
  register-IsIndexed now none r v = v
  register-IsIndexed now (some p) r v =
      let i = r.store p in
      elim (Bool-cases (i.id == "")) [
        | inl h ↦ rw h v
        | inr h₁ ↦ elim (Bool-cases (i.service_name == "")) [
          | inl h ↦ rw (h₁, h) v
          | inr h₂ ↦ elim (Bool-cases r.closed) [
            | inl h ↦ rw (h₁, h₂, h) v
            | inr h₃ ↦ elim (Bool-cases (contains i.id r.instances)) [
              | inl h ↦ rw (h₁, h₂, h₃, h) v
              | inr free ↦
                  rw (h₁, h₂, h₃, free)
                    (put-Agrees r.store v p _ _
                      (λ t away.
                        v.index t i.id
                        ∙ ap (expected r.store t) (not-contains i.id r.instances free))
                      (λ j. lookup-insert i.id j p r.instances)
                      (λ t j. member-add_member i.service_name i.id p r.services t j))
            ]
          ]
        ]
      ]

  pub deregister-IsIndexed :
      (now : Word) (id : String) (r : InMemoryRegistry F)
      → IsIndexed r
      → IsIndexed (deregister now id r).0
  unfolding deregister deregister_at send_event
  deregister-IsIndexed now id r v = elim (Bool-cases r.closed) [
    | inl h ↦ rw h v
    | inr h ↦ elim (Option-cases (lookup id r.instances)) [
      | inl absent ↦ rw (h, absent) v
      | inr (p, here) ↦
          rw (h, here)
            (drop-Agrees r.store v id p _ _ here (λ j. lookup-delete id j r.instances)
              (λ t j. member-remove_member (r.store p).service_name id r.services t j))
    ]
  ]

  -- What `Update` finds and does with the index: never the write to a nil map.
  pub move-Agrees :
      (p q : ℕ) (r : InMemoryRegistry F)
      → let i = r.store p in
        IsIndexed r
        → lookup i.id r.instances ≡ some q
        → (services : Map String (Map String ℕ)) × (move
              (r.store q).service_name
              i.service_name
              i.id
              p
              r.services
            ≡ some services)
          × Agrees r.store
              (λ id. lookup id (insert i.id p r.instances))
              (λ s id. member s id services)
  unfolding move
  move-Agrees p q r v here =
      let i = r.store p in
      let old = (r.store q).service_name in
      elim (Bool-cases (old == i.service_name)) [
        | inl same ↦
            let is_old : old ≡ i.service_name = (string_eq.beq_iff old i.service_name).0 same in
            let listed : member i.service_name i.id r.services ≡ some q =
              v.index i.service_name i.id
              ∙ ap (expected r.store i.service_name) here
              ∙ rw same refl in
            elim (Option-cases (lookup i.service_name r.services)) [
              | inl absent ↦
                  absurd (cc (member_absent i.service_name r.services i.id absent, listed))
              | inr (m, found) ↦
                  rw (same, found)
                    (
                      add_member i.service_name i.id p r.services,
                      ap (λ x. some x) (add_member_found i.service_name i.id p r.services m found),
                      put-Agrees r.store v p _ _
                          (λ t away.
                            v.index t i.id
                            ∙ ap (expected r.store t) here
                            ∙ ap (λ x. if x == t then some q else none) is_old
                            ∙ rw away refl)
                          (λ j. lookup-insert i.id j p r.instances)
                          (λ t j. member-add_member i.service_name i.id p r.services t j),
                    )
            ]
        | inr other ↦
            let w =
              drop-Agrees r.store v i.id q (λ j. at_key i.id none j (lookup j r.instances))
                (λ t j. member t j (remove_member old i.id r.services)) here (λ j. refl)
                (λ t j. member-remove_member old i.id r.services t j) in
            rw other (
              add_member i.service_name i.id p (remove_member old i.id r.services),
              refl,
              put-Agrees r.store w p _ _
                  (λ t away.
                    w.index t i.id
                    ∙ ap (λ b. expected r.store t (if b then none else lookup i.id r.instances))
                        (beq_self i.id))
                  (λ j.
                    lookup-insert i.id j p r.instances
                    ∙ overwritten (i.id == j) p (lookup j r.instances))
                  (λ t j.
                    member-add_member i.service_name i.id p (remove_member old i.id r.services) t
                      j),
            )
      ]

  pub update_status-IsIndexed :
      (now : Word) (id : String) (status : InstanceStatus) (r : InMemoryRegistry F)
      → IsIndexed r
      → IsIndexed (update_status now id status r).0
  unfolding update_status set_status send_event
  update_status-IsIndexed now id status r v = elim (Bool-cases r.closed) [
    | inl h ↦ rw h v
    | inr h ↦ elim (Option-cases (lookup id r.instances)) [
      | inl absent ↦ rw (h, absent) v
      | inr (p, here) ↦
          rw (h, here)
            (kept-Agrees r.store
              (write p (record (r.store p) { status = status; last_health_check = now }) r.store)
              (write-KeepsNames r.store p
                (record (r.store p) { status = status; last_health_check = now }) refl refl)
              _ _ v)
    ]
  ]

  pub update_metrics-IsIndexed :
      (now : Word) (id : String) (metrics : Map String F) (r : InMemoryRegistry F)
      → IsIndexed r
      → IsIndexed (update_metrics now id metrics r).0
  unfolding update_metrics
  update_metrics-IsIndexed now id metrics r v = elim (Bool-cases r.closed) [
    | inl h ↦ rw h v
    | inr h ↦ elim (Option-cases (lookup id r.instances)) [
      | inl absent ↦ rw (h, absent) v
      | inr (p, here) ↦
          rw (h, here)
            (kept-Agrees r.store
              (write p (record (r.store p) { metrics = metrics; last_health_check = now }) r.store)
              (write-KeepsNames r.store p
                (record (r.store p) { metrics = metrics; last_health_check = now }) refl refl)
              _ _ v)
    ]
  ]

  mark_stale-IsIndexed :
      (now threshold : Word) (p : ℕ) (r : InMemoryRegistry F)
      → IsIndexed r
      → IsIndexed (mark_stale now threshold p r)
  unfolding mark_stale send_event
  mark_stale-IsIndexed now threshold p r v =
      let i = r.store p in
      elim (Bool-cases (slt i.last_health_check threshold && not (i.status == status_unhealthy))) [
        | inl h ↦ rw h (
            kept-Agrees r.store (write p (record i { status = status_unhealthy }) r.store)
              (write-KeepsNames r.store p (record i { status = status_unhealthy }) refl refl) _ _ v)
        | inr h ↦ rw h v
      ]

  clean-IsIndexed :
      (now threshold : Word) (m : Map String ℕ) (r : InMemoryRegistry F)
      → IsIndexed r
      → IsIndexed (clean now threshold m r)
  unfolding clean
  clean-IsIndexed now threshold [] r v = v
  clean-IsIndexed now threshold ((id, p) ∷ m) r v =
      clean-IsIndexed now threshold m (mark_stale now threshold p r)
        (mark_stale-IsIndexed now threshold p r v)

  pub cleanup-IsIndexed :
      (now : Word) (r : InMemoryRegistry F) → IsIndexed r → IsIndexed (cleanup now r)
  unfolding cleanup
  cleanup-IsIndexed now r v = clean-IsIndexed now (sub64 now (mul64 r.config.ttl 3)) r.instances r v
