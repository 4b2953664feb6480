-- ===== src/Backpressure/Examples.antt =====
-- The theorems on a queue for five requests.
use true_now.Base.{ℕ, ◌+◌, ◌≡◌, refl, false, none, some, List, [], ◌∷◌, arith}
use true_now.Backpressure.{
  low, high, critical, invalid_priority, Request, RequestQueue, empty_queue, new_request_queue,
  offer, refuse, enqueue, Finish, done,
}
use true_now.Backpressure.Invariant.{Op, enqueues, works, Inv, run}
use true_now.Backpressure.Calls.{calls_for, pending_for, count, run-new-Keeps}
use true_now.Backpressure.Answers.{enqueue_error, processed-run}

abbrev request : ℕ → Request
request id = record { id = id; context_done = false }

abbrev ok_answer : Finish
ok_answer = done (record { status_code = 200; error = none })

-- Two requests of high priority and one of low, which a worker is quick to take.
abbrev ops : List Op
ops =
    enqueues (request 1) high
    ∷ enqueues (request 2) high
    ∷ enqueues (request 3) low
    ∷ works ok_answer
    ∷ works ok_answer
    ∷ []

five : new_request_queue 5 ≡ some (empty_queue 5)
unfolding new_request_queue
five = refl

run-new-Keeps_example :
    let (q', ends) = run (empty_queue 5) ops in
    Inv q' × ((id : ℕ) → calls_for id ops ≡ pending_for id q' + count id ends)
run-new-Keeps_example = run-new-Keeps 5 (empty_queue 5) ops five

processed-run_example : (run (empty_queue 5) ops).0.processed ≡ 0
processed-run_example = processed-run 5 (empty_queue 5) ops five

enqueue_error_example : (enqueue (request 1) critical (empty_queue 5)).0 ≡ empty_queue 5
unfolding enqueue offer refuse
enqueue_error_example =
    enqueue_error (request 1) critical (empty_queue 5) invalid_priority (omega arith) refl

-- One request in the high channel.
abbrev loaded : RequestQueue
loaded = record (empty_queue 5) { high_priority = request 1 ∷ []; queued = 1 }
