-- ===== src/Router/Circuits.antt =====
-- The circuits of the instances over many attempts.
use true_now.Base.{
  ℕ, suc, ◌≡◌, ◌∙◌, refl, String, true, false, Option, none, some, List, [], ◌∷◌, arith,
  if◌then◌else◌, string_eq, ◌==◌, Bool-cases, Option-cases, inl, inr,
}
use true_now.Base.Word.{add64, add32}
use true_now.Base.Map.{lookup, lookup-insert}
use true_now.Router.{
  Router, Attempt, RouteErr, is_circuit_open, count_of, record_failure, reset_failures, count_error,
  finish, forward, route_to_service,
}

-- The failures counted for an instance.
abbrev pub failures_of : String → Router → ℕ
failures_of id r = count_of (lookup id r.failures)

-- Attempts one after another: the router after them and the errors.
pub route_all : List Attempt → Router → Router × List (Option RouteErr)
route_all [] r = (r, [])
route_all (a ∷ attempts) r =
    let (r₁, err) = route_to_service a r in
    let (r₂, errs) = route_all attempts r₁ in (r₂, err ∷ errs)

-- How often the attempts succeed with the instance.
abbrev pub served : String → List Attempt → List (Option RouteErr) → ℕ
served id (a ∷ attempts) (none ∷ errs) =
    let rest = served id attempts errs in
    elim a.instance_id as (λ _. ℕ) [ some j ↦ if j == id then suc rest else rest | none ↦ rest ]
served id (a ∷ attempts) (some err ∷ errs) = served id attempts errs
served id _ _ = 0

-- Reports about another instance leave the failures of this one.
record_failure-other :
    (id j : String) (r : Router)
    → (j == id) ≡ false
    → (lookup id (record_failure j r).failures ≡ lookup id r.failures)
      × ((record_failure j r).failure_limit ≡ r.failure_limit)
unfolding record_failure
record_failure-other id j r d =
    (lookup-insert j id (add32 (count_of (lookup j r.failures)) 1) r.failures ∙ rw d refl, refl)

reset_failures-other :
    (id j : String) (r : Router)
    → (j == id) ≡ false
    → (lookup id (reset_failures j r).failures ≡ lookup id r.failures)
      × ((reset_failures j r).failure_limit ≡ r.failure_limit)
unfolding reset_failures
reset_failures-other id j r d = elim (Option-cases (lookup j r.failures)) [
  | inl e ↦ rw (e, reset_failures) (refl, refl)
  | inr (n, e) ↦ rw (e, reset_failures) (lookup-insert j id 0 r.failures ∙ rw d refl, refl)
]

-- An attempt that gives no error was served by an instance with another ID.
abbrev ByOther : String → Option String → Option RouteErr → Type 0
ByOther id instance_id (some err) = Unit
ByOther id none none = Unit
ByOther id (some j) none = (j == id) ≡ false

-- An attempt keeps what the router knows of an instance whose circuit is open.
abbrev Keeps : String → Option String → Router → Router × Option RouteErr → Type 0
Keeps id instance_id r r' =
    (lookup id (r'.0).failures ≡ lookup id r.failures)
    × ((r'.0).failure_limit ≡ r.failure_limit)
    × ByOther id instance_id (r'.1)

finish-Keeps :
    (id j : String) (client_error : Option String) (r : Router)
    → (j == id) ≡ false
    → Keeps id (some j) r (finish j client_error r)
unfolding finish count_error
finish-Keeps id j none r d = let k = reset_failures-other id j r d in (k.0, k.1, d)
finish-Keeps id j (some err) r d = let k = record_failure-other id j r d in (k.0, k.1, tt)

forward-Keeps :
    (id : String) (a : Attempt) (instance_id : Option String) (r : Router)
    → is_circuit_open id r ≡ true
    → Keeps id instance_id r (forward a instance_id r)
unfolding forward count_error
forward-Keeps id a none r h = (refl, refl, tt)
forward-Keeps id a (some j) r h = elim (Bool-cases (is_circuit_open j r)) [
  | inl o ↦ rw (o, forward) (refl, refl, tt)
  | inr closed ↦ elim (Bool-cases (j == id)) [
    | inl e ↦ let same : j ≡ id = (string_eq.beq_iff j id).0 e in absurd (cc (closed, h, same))
    | inr d ↦ rw (closed, forward) (finish-Keeps id j a.client_error r d)
  ]
]

open_by_failures :
    (id : String) (r r' : Router)
    → lookup id r'.failures ≡ lookup id r.failures
    → r'.failure_limit ≡ r.failure_limit
    → is_circuit_open id r ≡ true
    → is_circuit_open id r' ≡ true
unfolding is_circuit_open
open_by_failures id r r' f l h = ground (arith, f, l, h)

served_none :
    (id : String) (a : Attempt) (attempts : List Attempt) (err : Option RouteErr)
    (errs : List (Option RouteErr))
    → ByOther id a.instance_id err
    → served id (a ∷ attempts) (err ∷ errs) ≡ served id attempts errs
served_none id a attempts (some err) errs b = refl
served_none id a attempts none errs b = elim (Option-cases a.instance_id) [
  | inl e ↦ rw (e, served) refl
  | inr (j, e) ↦ let d : (j == id) ≡ false = rw e at b in rw (e, served) (rw d refl)
]

-- The circuit of an instance that is open is open after any attempts, to any instances and with any
-- answers of the HTTP client, and none of them is served by the instance.
pub is_circuit_open-route_all :
    (id : String) (attempts : List Attempt) (r : Router)
    → is_circuit_open id r ≡ true
    → let (r', errs) = route_all attempts r in
      (is_circuit_open id r' ≡ true) × (served id attempts errs ≡ 0)
unfolding route_all route_to_service
is_circuit_open-route_all id [] r h = (h, refl)
is_circuit_open-route_all id (a ∷ attempts) r h =
    let counted = record r { request_count = add64 r.request_count 1 } in
    let step = route_to_service a r in
    let (same, limit, other) =
      forward-Keeps id a a.instance_id counted (open_by_failures id r counted refl refl h) in
    let rest =
      is_circuit_open-route_all id attempts step.0 (open_by_failures id r step.0 same limit h) in
    (rest.0, served_none id a attempts step.1 (route_all attempts step.0).1 other ∙ rest.1)
