-- ===== src/Router.antt =====
-- The gateway's router to backend services (services/gateway/internal/routing/router.go). The service
-- discovery and the HTTP client are behind interfaces: what they answer is part of each attempt. A
-- call runs alone. The exchange of the request and the response is not modelled.
pub mod Circuits
pub mod Retries
mod Examples
use true_now.Base.{
  ℕ, zero, suc, ◌*◌, ◌%◌, ◌^◌, String, Bool, true, false, Option, none, some, List, [], ◌∷◌,
  if◌then◌else◌, leb, ltb, string_eq,
}
use true_now.Base.Word.{Word, add64, mul64, slt, add32, second}
use true_now.Base.Map.{Map, lookup, insert, delete}
use text.Mathlib.Text.{starts_with}

pub record Router : Type 0 where
  pub failures : Map String ℕ
  pub failure_limit : ℕ
  pub request_count : Word
  pub error_count : Word

unfoldable pub new_router : Router
new_router = record { failures = []; failure_limit = 5; request_count = 0; error_count = 0 }

-- The ID of the instance that the discovery gives, if it does not return an error, and the error of
-- the HTTP client, if it is asked and returns one.
pub record Attempt : Type 0 where
  pub instance_id : Option String
  pub client_error : Option String

pub data RouteErr : Type 0 where
  no_healthy_instances : RouteErr
  circuit_open : String → RouteErr
  forward_failed : String → RouteErr

-- An `uint32` is its value.
unfoldable pub is_circuit_open : String → Router → Bool
is_circuit_open id r = elim (lookup id r.failures) [
  | some failures ↦ leb r.failure_limit failures
  | none ↦ false
]

unfoldable pub count_of : Option ℕ → ℕ
count_of none = 0
count_of (some n) = n

unfoldable pub record_failure : String → Router → Router
unfolding count_of
record_failure id r = record r {
  failures = insert id (add32 (count_of (lookup id r.failures)) 1) r.failures;
}

unfoldable pub reset_failures : String → Router → Router
reset_failures id r = elim (lookup id r.failures) as (λ _. Router) [
  | some failures ↦ record r { failures = insert id 0 r.failures }
  | none ↦ r
]

unfoldable pub count_error : Router → Router
count_error r = record r { error_count = add64 r.error_count 1 }

-- What is done with the client's answer.
unfoldable pub finish : String → Option String → Router → Router × Option RouteErr
unfolding count_error
finish id none r = (reset_failures id r, none)
finish id (some err) r = (count_error (record_failure id r), some (forward_failed err))

unfoldable pub forward : Attempt → Option String → Router → Router × Option RouteErr
unfolding finish count_error
forward a none r = (count_error r, some no_healthy_instances)
forward a (some id) r =
    if is_circuit_open id r
    then (count_error r, some (circuit_open id))
    else finish id a.client_error r

unfoldable pub route_to_service : Attempt → Router → Router × Option RouteErr
unfolding forward
route_to_service a r =
    forward a a.instance_id (record r { request_count = add64 r.request_count 1 })

-- The time slept after attempt `i`: 100 ms, doubled each time, up to 2 s.
unfoldable pub backoff : ℕ → Word
backoff i =
    let time = mul64 (2 ^ i % 2 ^ 64) 100_000_000 in
    if slt (2 * second) time then 2 * second else time

-- The loop from attempt `i`, with `left` attempts after it: the router, the last error, if none of
-- them succeeds, and the times slept.
unfoldable pub retry : (ℕ → Attempt) → ℕ → ℕ → Router → Router × (Option RouteErr × List Word)
unfolding route_to_service backoff
retry attempts i zero r = let (r', err) = route_to_service (attempts i) r in (r', (err, []))
retry attempts i (suc left) r =
    let (r', err) = route_to_service (attempts i) r in
    let (r'', (err', slept)) = retry attempts (suc i) left r' in
    elim err as (λ _. Router × (Option RouteErr × List Word)) [
      | none ↦ (r', (none, []))
      | some e ↦ (r'', (err', backoff i ∷ slept))
    ]

-- `RouteWithRetry`, for a number of retries that is not negative; its error wraps the last one.
unfoldable pub route_with_retry :
    (ℕ → Attempt) → ℕ → Router → Router × (Option RouteErr × List Word)
unfolding retry
route_with_retry attempts max_retries r = retry attempts 0 max_retries r

pub record Stats : Type 0 where
  pub requests : Word
  pub errors : Word

unfoldable pub get_stats : Router → Stats
get_stats r = record { requests = r.request_count; errors = r.error_count }

-- The routes, from the prefix of a path to the name of a service, in the order of a range over them.
pub record MultiServiceRouter : Type 0 where
  pub router : Router
  pub routes : Map String String

unfoldable pub new_multi_service_router : MultiServiceRouter
unfolding new_router
new_multi_service_router = record {
  router = new_router;
  routes =
      ("/ingest", "stream-ingester")
      ∷ ("/query", "query-api")
      ∷ ("/metrics", "hot-tier")
      ∷ ("/events", "stream-ingester")
      ∷ [];
}

-- The service of the first route whose prefix the path has.
unfoldable pub match_route : String → Map String String → String
match_route path [] = "stream-ingester"
match_route path ((prefix, service_name) ∷ routes) =
    if starts_with path prefix then service_name else match_route path routes

-- `Route`: what is answered to the attempts depends on the service that they go to.
unfoldable pub route :
    (String → ℕ → Attempt)
    → String
    → MultiServiceRouter
    → MultiServiceRouter × (Option RouteErr × List Word)
unfolding route_with_retry match_route
route attempts path mr =
    let (r, result) = route_with_retry (attempts (match_route path mr.routes)) 2 mr.router in
    (record mr { router = r }, result)

unfoldable pub add_route : String → String → MultiServiceRouter → MultiServiceRouter
add_route prefix service_name mr = record mr { routes = insert prefix service_name mr.routes }

unfoldable pub remove_route : String → MultiServiceRouter → MultiServiceRouter
remove_route prefix mr = record mr { routes = delete prefix mr.routes }
