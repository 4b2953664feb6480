-- ===== src/Discovery/Balance.antt =====
-- What the round robin gives out, whatever orders the calls' ranges over the map take.
use true_now.Base.{
  ℕ, suc, ◌+◌, ◌%◌, ◌^◌, ◌≤◌, ◌<◌, ◌≡◌, ◌≢◌, refl, ap, ap₂, subst, ◌∙◌, String, true, false, some,
  List, [], ◌∷◌, eqb, string_eq, beq_self, length, get_elem?, get_elem?-within, inl, inr,
  Bool-cases, All, arith, zero,
}
use mathlib.Core.List.{Perm, Permᴰ, Mem, mem-cons_self, mem-cons_of_mem}
use mathlib.Core.List.Perm
use mathlib.Core.Logic.{∥∥₁_elim}
use native.Mathlib.Nat.{mod-lt}
use true_now.Base.Word.{Word, add64}
use true_now.Base.Map.{Map, insert, lookup-insert}
use true_now.Discovery.{
  ServiceInstance, LocalDiscovery, pointers, members, healthy_of, counter_of, at, next_healthy,
  get_healthy_instance,
}

-- The order of a range gives each entry as often as it is there.
abbrev pub IsOrder : (List ℕ → List ℕ) → Type 0
IsOrder order = (ps : List ℕ) → Perm (order ps) ps

-- The number of healthy instances of a service.
abbrev pub healthy_count : String → LocalDiscovery → ℕ
healthy_count service d = length (healthy_of d.store (pointers (members service d)))

-- The healthy ones in the order of one call.
abbrev pub healthy_in : (List ℕ → List ℕ) → String → LocalDiscovery → List ℕ
healthy_in order service d = healthy_of d.store (order (pointers (members service d)))

-- The state after some calls for an instance of one service, one for each of the orders.
pub after_calls : List (List ℕ → List ℕ) → String → LocalDiscovery → LocalDiscovery
after_calls [] service d = d
after_calls (order ∷ orders) service d =
    after_calls orders service (get_healthy_instance order service d).0

module _ (store : ℕ → ServiceInstance) where
  length-healthy_of : (ps : List ℕ) → length (healthy_of store ps) ≤ length ps
  unfolding healthy_of
  length-healthy_of [] = omega arith
  length-healthy_of (p ∷ ps) = ground (arith, length-healthy_of ps)

  length-healthy_of_permᴰ :
      {ps qs : List ℕ} → Permᴰ ps qs → length (healthy_of store ps) ≡ length (healthy_of store qs)
  unfolding healthy_of
  length-healthy_of_permᴰ Permᴰ.nil = refl
  length-healthy_of_permᴰ (Permᴰ.cons e r) = ground (arith, e, length-healthy_of_permᴰ r)
  length-healthy_of_permᴰ (Permᴰ.swap e f) = ground (arith, e, f)
  length-healthy_of_permᴰ (Permᴰ.trans r s) = length-healthy_of_permᴰ r ∙ length-healthy_of_permᴰ s

  length-healthy_of_perm :
      (ps qs : List ℕ) → Perm ps qs → length (healthy_of store ps) ≡ length (healthy_of store qs)
  length-healthy_of_perm ps qs r = ∥∥₁_elim r (hlevel) (λ s. length-healthy_of_permᴰ s)

  -- `p` is one of `ps`, and healthy.
  abbrev IsHealthyOf : ℕ → List ℕ → Type 0
  IsHealthyOf p ps = Mem p ps × ((store p).healthy ≡ true)

  get_elem?-cons-IsHealthyOf :
      (q : ℕ) (ps qs : List ℕ) (i p : ℕ)
      → (store q).healthy ≡ true
      → ((j : ℕ) → get_elem? qs j ≡ some p → IsHealthyOf p ps)
      → get_elem? (q ∷ qs) i ≡ some p
      → IsHealthyOf p (q ∷ ps)
  get_elem?-cons-IsHealthyOf q ps qs zero p t rest h =
      let same : q ≡ p = cc h in subst (λ k. IsHealthyOf k (q ∷ ps)) same (mem-cons_self, t)
  get_elem?-cons-IsHealthyOf q ps qs (suc i) p t rest h =
      let (member, healthy) = rest i h in (mem-cons_of_mem q member, healthy)

  -- What stands among the healthy ones is healthy, and stands among all.
  get_elem?-healthy_of :
      (ps : List ℕ) (i p : ℕ) → get_elem? (healthy_of store ps) i ≡ some p → IsHealthyOf p ps
  unfolding healthy_of
  get_elem?-healthy_of [] i p h = absurd (cc h)
  get_elem?-healthy_of (q ∷ ps) i p h = elim (Bool-cases ((store q).healthy)) [
    | inl t ↦
        get_elem?-cons-IsHealthyOf q ps (healthy_of store ps) i p t
          (λ j e. get_elem?-healthy_of ps j p e) (rw (t, healthy_of) at h)
    | inr f ↦
        let (member, healthy) = get_elem?-healthy_of ps i p (rw (f, healthy_of) at h) in
        (mem-cons_of_mem q member, healthy)
  ]

length-pointers : (m : Map String ℕ) → length (pointers m) ≡ length m
unfolding pointers
length-pointers [] = refl
length-pointers ((id, p) ∷ m) = ap suc (length-pointers m)

length-healthy_in :
    (order : List ℕ → List ℕ) (service : String) (d : LocalDiscovery)
    → IsOrder order
    → length (healthy_in order service d) ≡ healthy_count service d
length-healthy_in order service d ordered =
    length-healthy_of_perm d.store (order (pointers (members service d)))
      (pointers (members service d)) (ordered (pointers (members service d)))

call_lem :
    (order : List ℕ → List ℕ) (service : String) (d : LocalDiscovery)
    → IsOrder order
    → d.closed ≡ false
    → healthy_count service d ≢ 0
    → get_healthy_instance order service d ≡ (
      record d { round_robin = insert service (add64 (counter_of service d) 1) d.round_robin },
      at
          (healthy_in order service d)
          (add64 (counter_of service d) 1 % length (healthy_in order service d)),
    )
unfolding get_healthy_instance next_healthy
call_lem order service d ordered open_ some_healthy =
    let fewer = length-healthy_of d.store (pointers (members service d)) in
    let count = length-pointers (members service d) in
    let same = length-healthy_in order service d ordered in
    let present : eqb (length (members service d)) 0 ≡ false =
      ground (arith, some_healthy, fewer, count) in
    let healthy : eqb (length (healthy_in order service d)) 0 ≡ false =
      ground (arith, some_healthy, same) in
    rw (get_healthy_instance, open_, present, next_healthy, healthy) refl

-- Calls change nothing but the counter.
record Counts (k : ℕ) (service : String) (d d' : LocalDiscovery) : Type 0 where
  same_store : d'.store ≡ d.store
  same_members : members service d' ≡ members service d
  still_open : d'.closed ≡ false
  counted : counter_of service d' ≡ counter_of service d + k

counter_of-insert :
    (service : String) (n : Word) (d : LocalDiscovery)
    → counter_of service (record d { round_robin = insert service n d.round_robin }) ≡ n
unfolding counter_of
counter_of-insert service n d = rw (counter_of, lookup-insert, beq_self service) refl

call-Counts :
    (order : List ℕ → List ℕ) (service : String) (d : LocalDiscovery)
    → IsOrder order
    → d.closed ≡ false
    → healthy_count service d ≢ 0
    → counter_of service d + 1 < 2 ^ 64
    → Counts 1 service d (get_healthy_instance order service d).0
unfolding members
call-Counts order service d ordered open_ some_healthy small =
    rw (call_lem order service d ordered open_ some_healthy) (record {
      same_store = refl;
      same_members = refl;
      still_open = open_;
      counted = counter_of-insert service (add64 (counter_of service d) 1) d ∙ omega (arith, small);
    })

after_calls-Counts :
    (orders : List (List ℕ → List ℕ)) (service : String) (d : LocalDiscovery)
    → All IsOrder orders
    → d.closed ≡ false
    → healthy_count service d ≢ 0
    → counter_of service d + length orders < 2 ^ 64
    → Counts (length orders) service d (after_calls orders service d)
unfolding after_calls
after_calls-Counts [] service d ordered open_ some_healthy small = record {
  same_store = refl;
  same_members = refl;
  still_open = open_;
  counted = omega arith;
}
after_calls-Counts (order ∷ orders) service d ordered open_ some_healthy small =
    let d' = (get_healthy_instance order service d).0 in
    let one = call-Counts order service d ordered.0 open_ some_healthy (omega (arith, small)) in
    let same : healthy_count service d' ≡ healthy_count service d =
      ap₂ (λ store ms. length (healthy_of store (pointers ms))) one.same_store one.same_members in
    let rest =
      after_calls-Counts orders service d' ordered.1 one.still_open (rw same some_healthy)
        (omega (arith, one.counted, small)) in
    record {
      same_store = rest.same_store ∙ one.same_store;
      same_members = rest.same_members ∙ one.same_members;
      still_open = rest.still_open;
      counted = omega (arith, rest.counted, one.counted);
    }

-- Calls for an instance of a service, one after another and with nothing else in between, where each
-- call's range over the map takes an order of its own: whatever the orders are, a call gives a healthy
-- instance of the service, and each call moves the counter on by one. The call after others gives the
-- instance at the counter, their number and one more, modulo the number of healthy ones, among the
-- healthy ones in that call's order (some instance is healthy, the discovery is open, and the counter
-- does not wrap around).
pub get_healthy_instance-after_calls :
    (orders : List (List ℕ → List ℕ)) (order : List ℕ → List ℕ) (service : String)
    (d : LocalDiscovery)
    → All IsOrder orders
    → IsOrder order
    → d.closed ≡ false
    → healthy_count service d ≢ 0
    → counter_of service d + length orders + 1 < 2 ^ 64
    → let index = (counter_of service d + length orders + 1) % healthy_count service d in
      let (d', answer) = get_healthy_instance order service (after_calls orders service d) in
      (p : ℕ) × (answer ≡ inr p)
      × (get_elem? (healthy_in order service d) index ≡ some p)
      × Mem p (pointers (members service d))
      × ((d.store p).healthy ≡ true)
      × (counter_of service d' ≡ counter_of service d + length orders + 1)
unfolding at
get_healthy_instance-after_calls orders order service d ordereds ordered open_ some_healthy small =
    let d' = after_calls orders service d in
    let n = healthy_count service d in
    let c =
      after_calls-Counts orders service d ordereds open_ some_healthy (omega (arith, small)) in
    let same : healthy_in order service d' ≡ healthy_in order service d =
      ap₂ (λ store ms. healthy_of store (order (pointers ms))) c.same_store c.same_members in
    let same_count : healthy_count service d' ≡ n =
      ap₂ (λ store ms. length (healthy_of store (pointers ms))) c.same_store c.same_members in
    let some' : healthy_count service d' ≢ 0 = rw same_count some_healthy in
    let next = call_lem order service d' ordered c.still_open some' in
    let one =
      call-Counts order service d' ordered c.still_open some' (omega (arith, c.counted, small)) in
    let count : add64 (counter_of service d') 1 ≡ counter_of service d + length orders + 1 =
      omega (arith, c.counted, small) in
    let below =
      mod-lt (counter_of service d + length orders + 1) {m = n} (omega (arith, some_healthy)) in
    let number = length-healthy_in order service d ordered in
    let (p, found) =
      get_elem?-within (healthy_in order service d) ((counter_of service d + length orders + 1) % n)
        (rw number below) in
    let (member, healthy) = get_elem?-healthy_of d.store _ _ p found in
    (
      p,
      rw (next, count, same, number, at, found) refl,
      found,
      (Perm.mem_iff (ordered (pointers (members service d)))).0 member,
      healthy,
      omega (arith, one.counted, c.counted),
    )
