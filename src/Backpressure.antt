-- ===== src/Backpressure.antt =====
-- The gateway's request queue (services/gateway/internal/backpressure/queue.go, with the priorities
-- and errors of types.go). Of a request its number is kept and whether its context is done. A call
-- of `Enqueue` runs alone, up to its return or to the point where it waits for room in a channel; a
-- context is done at the start of the call, or runs out while the call waits, or is cancelled by
-- the return. A worker's turn runs alone as well, and the receiver of an answer is always there. A
-- channel without a buffer is one without room: a worker that waits at it is not modelled.
pub mod Invariant
pub mod Answers
pub mod Calls
mod Examples
use true_now.Base.{
  ℕ, suc, ◌+◌, Bool, true, false, ◌||◌, Option, none, some, List, [], ◌∷◌, ◌++◌, if◌then◌else◌, ltb,
  length, eqb,
}
use true_now.Base.Word.{Word, add64, sub64, mul64, slt, sle, sdiv}

pub data Priority : Type 0 where
  low normal high critical : Priority

pub data Err : Type 0 where
  queue_full timeout invalid_priority shutting_down : Err

pub record Request : Type 0 where
  pub id : ℕ
  pub context_done : Bool

pub record Response : Type 0 where
  pub status_code : ℕ
  pub error : Option Err

-- `closed` says that the context of the queue is cancelled; `waiting` holds the calls that wait for
-- room in the normal channel (after `high`) or in the low one (after `normal`).
pub record RequestQueue : Type 0 where
  pub max_size : Word
  pub high_size : ℕ
  pub normal_size : ℕ
  pub low_size : ℕ
  pub high_priority : List Request
  pub normal_priority : List Request
  pub low_priority : List Request
  pub wait_normal : List Request
  pub wait_low : List Request
  pub queued : Word
  pub processed : Word
  pub dropped : Word
  pub timed_out : Word
  pub closed : Bool

abbrev pub empty_queue : Word → RequestQueue
empty_queue max_size = record {
  max_size = max_size;
  high_size = sdiv max_size 5;
  normal_size = sdiv (mul64 max_size 3) 5;
  low_size = sdiv max_size 5;
  high_priority = [];
  normal_priority = [];
  low_priority = [];
  wait_normal = [];
  wait_low = [];
  queued = 0;
  processed = 0;
  dropped = 0;
  timed_out = 0;
  closed = false;
}

-- A negative size of a channel panics.
unfoldable pub new_request_queue : Word → Option RequestQueue
new_request_queue max_size =
    let q = empty_queue max_size in
    if slt q.high_size 0 || slt q.normal_size 0 then none else some q

-- What a call of `Enqueue` has come to.
pub data Outcome : Type 0 where
  returned : Option Err → Outcome
  waits : Outcome

-- A request as it lies in a channel once the call has returned, whose deferred `cancel` has been run.
unfoldable pub sent : Request → Request
sent req = record req { context_done = true }

unfoldable pub refuse : Err → RequestQueue → RequestQueue × Outcome
refuse err q = (record q { queued = sub64 q.queued 1 }, returned (some err))

unfoldable pub offer : Request → Priority → RequestQueue → RequestQueue × Outcome
unfolding sent refuse
offer req high q =
    if ltb (length q.high_priority) q.high_size
    then (record q { high_priority = q.high_priority ++ (sent req ∷ []) }, returned none)
    else if ltb (length q.normal_priority) q.normal_size
    then (record q { normal_priority = q.normal_priority ++ (sent req ∷ []) }, returned none)
    else (record q { wait_normal = q.wait_normal ++ (req ∷ []) }, waits)
offer req normal q =
    if ltb (length q.normal_priority) q.normal_size
    then (record q { normal_priority = q.normal_priority ++ (sent req ∷ []) }, returned none)
    else if ltb (length q.low_priority) q.low_size
    then (record q { low_priority = q.low_priority ++ (sent req ∷ []) }, returned none)
    else (record q { wait_low = q.wait_low ++ (req ∷ []) }, waits)
offer req low q =
    if ltb (length q.low_priority) q.low_size
    then (record q { low_priority = q.low_priority ++ (sent req ∷ []) }, returned none)
    else refuse queue_full (record q { dropped = add64 q.dropped 1 })
offer req critical q = refuse invalid_priority q

unfoldable pub enqueue : Request → Priority → RequestQueue → RequestQueue × Outcome
unfolding refuse
enqueue req priority q =
    let q₁ = record q { queued = add64 q.queued 1 } in
    if sle q.max_size q.queued
    then (record q { dropped = add64 q.dropped 1 }, returned (some queue_full))
    else if req.context_done
    then refuse timeout (record q₁ { timed_out = add64 q₁.timed_out 1 })
    else offer req priority q₁

-- The first call that waits for a channel finds room in it, and returns; or nothing happens.
unfoldable pub resume_normal : RequestQueue → List Request → RequestQueue
unfolding sent
resume_normal q [] = q
resume_normal q (req ∷ waiting) =
    if ltb (length q.normal_priority) q.normal_size
    then record q { normal_priority = q.normal_priority ++ (sent req ∷ []); wait_normal = waiting }
    else q

unfoldable pub resume_low : RequestQueue → List Request → RequestQueue
unfolding sent
resume_low q [] = q
resume_low q (req ∷ waiting) =
    if ltb (length q.low_priority) q.low_size
    then record q { low_priority = q.low_priority ++ (sent req ∷ []); wait_low = waiting }
    else q

-- The context of a call that waits runs out, and it returns `ErrTimeout`: the queue after it, and the
-- requests whose calls have returned so.
unfoldable pub give_up_normal : RequestQueue → List Request → RequestQueue × List Request
give_up_normal q [] = (q, [])
give_up_normal q (req ∷ waiting) = (
  record q { wait_normal = waiting; queued = sub64 q.queued 1; timed_out = add64 q.timed_out 1 },
  req ∷ [],
)

unfoldable pub give_up_low : RequestQueue → List Request → RequestQueue × List Request
give_up_low q [] = (q, [])
give_up_low q (req ∷ waiting) = (
  record q { wait_low = waiting; queued = sub64 q.queued 1; timed_out = add64 q.timed_out 1 },
  req ∷ [],
)

-- Which case the last `select` of `processRequest` takes.
pub data Finish : Type 0 where
  done : Response → Finish
  too_slow context_ended : Finish

unfoldable pub gateway_timeout : Response
gateway_timeout = record { status_code = 504; error = some timeout }

unfoldable pub process_request : Finish → Request → RequestQueue → RequestQueue × Response
unfolding gateway_timeout
process_request finish req q =
    let q₁ = record q { queued = sub64 q.queued 1 } in
    let late : RequestQueue × Response =
      (record q₁ { timed_out = add64 q₁.timed_out 1 }, gateway_timeout) in
    if req.context_done then late else elim finish as (λ _. RequestQueue × Response) [
      | done response ↦ (record q₁ { processed = add64 q₁.processed 1 }, response)
      | too_slow ↦ late
      | context_ended ↦ late
    ]

-- The request that a worker takes next, and the queue without it.
unfoldable pub next_low : RequestQueue → List Request → Option (Request × RequestQueue)
next_low q [] = none
next_low q (req ∷ reqs) = some (req, record q { low_priority = reqs })

unfoldable pub next_normal : RequestQueue → List Request → Option (Request × RequestQueue)
unfolding next_low
next_normal q [] = next_low q q.low_priority
next_normal q (req ∷ reqs) = some (req, record q { normal_priority = reqs })

unfoldable pub next_high : RequestQueue → List Request → Option (Request × RequestQueue)
unfolding next_normal
next_high q [] = next_normal q q.normal_priority
next_high q (req ∷ reqs) = some (req, record q { high_priority = reqs })

-- A turn of a worker's loop: it answers a request, or there is none or it has stopped.
unfoldable pub worker : Finish → RequestQueue → RequestQueue × List (ℕ × Response)
unfolding next_high
worker finish q =
    let turn = elim (next_high q q.high_priority) as (λ _. RequestQueue × List (ℕ × Response)) [
      | none ↦ (q, [])
      | some (req, q₁) ↦
          let (q₂, response) = process_request finish req q₁ in (q₂, (req.id, response) ∷ [])
    ] in
    if q.closed then (q, []) else turn

unfoldable pub drain : List Request → List (ℕ × Response)
drain [] = []
drain (req ∷ reqs) = (req.id, record { status_code = 503; error = some shutting_down }) ∷ drain reqs

-- The order of the answers among the channels is left open by `select`.
unfoldable pub shutdown : RequestQueue → RequestQueue × List (ℕ × Response)
unfolding drain
shutdown q = (
  record q { closed = true; high_priority = []; normal_priority = []; low_priority = [] },
  drain q.high_priority ++ (drain q.normal_priority ++ drain q.low_priority),
)

pub record QueueMetrics : Type 0 where
  pub queued : Word
  pub processed : Word
  pub dropped : Word
  pub timed_out : Word
  pub high : ℕ
  pub normal : ℕ
  pub low : ℕ

unfoldable pub get_metrics : RequestQueue → QueueMetrics
get_metrics q = record {
  queued = q.queued;
  processed = q.processed;
  dropped = q.dropped;
  timed_out = q.timed_out;
  high = length q.high_priority;
  normal = length q.normal_priority;
  low = length q.low_priority;
}
