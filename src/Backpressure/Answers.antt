-- ===== src/Backpressure/Answers.antt =====
-- What a caller of `Enqueue` is told, and what a worker answers.
use true_now.Base.{
  ◌+◌, ◌^◌, ◌<◌, ◌≡◌, refl, subst, true, false, ◌||◌, Option, none, some, List, [], ◌∷◌, ◌++◌,
  arith, ltb, length, length-append, Bool-cases, Option-cases, inl, inr, All, All-append,
}
use true_now.Base.Word.{Word, add64, slt, sle}
use true_now.Backpressure.{
  Priority, low, normal, high, critical, Err, queue_full, timeout, invalid_priority, shutting_down,
  Request, RequestQueue, new_request_queue, empty_queue, returned, offer, enqueue, sent, refuse,
  resume_normal, resume_low, give_up_normal, give_up_low, Finish, process_request, next_low,
  next_normal, next_high, worker, drain, shutdown,
}
use true_now.Backpressure.Invariant.{
  Op, enqueues, resumes_normal, resumes_low, gives_up_normal, gives_up_low, works, step, run,
}

-- What an error changes: the dropped or the timed out requests are counted, and nothing else.
abbrev pub told : Err → RequestQueue → RequestQueue
told queue_full q = record q { dropped = add64 q.dropped 1 }
told timeout q = record q { timed_out = add64 q.timed_out 1 }
told invalid_priority q = q
told shutting_down q = q

-- An `Enqueue` that returns an error at once, without waiting for room in a channel, has only counted
-- it: a request too many as dropped, a late one as timed out, and one of no known priority, which
-- `critical` is, not at all (the counter of queued requests an int64).
pub enqueue_error :
    (req : Request) (p : Priority) (q : RequestQueue) (err : Err)
    → q.queued < 2 ^ 64
    → (enqueue req p q).1 ≡ returned (some err)
    → (enqueue req p q).0 ≡ told err q
unfolding enqueue offer refuse
enqueue_error req high q err w h = ground arith
enqueue_error req normal q err w h = ground arith
enqueue_error req low q err w h = ground arith
enqueue_error req critical q err w h = ground arith

-- Each request in a channel has a context that is done.
abbrev AreDone : List Request → Type 0
AreDone reqs = All (λ req. req.context_done ≡ true) reqs

abbrev Late : RequestQueue → Type 0
Late q =
    AreDone q.high_priority × AreDone q.normal_priority × AreDone q.low_priority × (q.processed ≡ 0)

AreDone-append :
    (req : Request) (reqs : List Request) → AreDone reqs → AreDone (reqs ++ (sent req ∷ []))
unfolding sent
AreDone-append req reqs h =
    All-append (λ r. r.context_done ≡ true) reqs (sent req ∷ []) h (refl, tt)

offer-Late : (req : Request) (p : Priority) (q : RequestQueue) → Late q → Late (offer req p q).0
unfolding offer refuse
offer-Late req high q v = elim (Bool-cases (ltb (length q.high_priority) q.high_size)) [
  | inl t ↦ rw (t, offer) (AreDone-append req q.high_priority v.0, v.1, v.2, v.3)
  | inr f ↦ elim (Bool-cases (ltb (length q.normal_priority) q.normal_size)) [
    | inl t ↦ rw (f, t, offer) (v.0, AreDone-append req q.normal_priority v.1, v.2, v.3)
    | inr g ↦ rw (f, g, offer) v
  ]
]
offer-Late req normal q v = elim (Bool-cases (ltb (length q.normal_priority) q.normal_size)) [
  | inl t ↦ rw (t, offer) (v.0, AreDone-append req q.normal_priority v.1, v.2, v.3)
  | inr f ↦ elim (Bool-cases (ltb (length q.low_priority) q.low_size)) [
    | inl t ↦ rw (f, t, offer) (v.0, v.1, AreDone-append req q.low_priority v.2, v.3)
    | inr g ↦ rw (f, g, offer) v
  ]
]
offer-Late req low q v = elim (Bool-cases (ltb (length q.low_priority) q.low_size)) [
  | inl t ↦ rw (t, offer) (v.0, v.1, AreDone-append req q.low_priority v.2, v.3)
  | inr f ↦ rw (f, offer) v
]
offer-Late req critical q v = v

enqueue-Late : (req : Request) (p : Priority) (q : RequestQueue) → Late q → Late (enqueue req p q).0
unfolding enqueue refuse
enqueue-Late req p q v = elim (Bool-cases (sle q.max_size q.queued)) [
  | inl full ↦ rw (full, enqueue) v
  | inr room ↦ elim (Bool-cases (req.context_done)) [
    | inl late ↦ rw (room, late, enqueue) v
    | inr fine ↦
        rw (room, fine, enqueue)
          (offer-Late (record req { context_done = false }) p
            (record q { queued = add64 q.queued 1 }) v)
  ]
]

resume_normal-Late : (q : RequestQueue) (reqs : List Request) → Late q → Late (resume_normal q reqs)
unfolding resume_normal
resume_normal-Late q [] v = v
resume_normal-Late q (req ∷ reqs) v =
    elim (Bool-cases (ltb (length q.normal_priority) q.normal_size)) [
      | inl t ↦ rw (t, resume_normal) (v.0, AreDone-append req q.normal_priority v.1, v.2, v.3)
      | inr f ↦ rw (f, resume_normal) v
    ]

resume_low-Late : (q : RequestQueue) (reqs : List Request) → Late q → Late (resume_low q reqs)
unfolding resume_low
resume_low-Late q [] v = v
resume_low-Late q (req ∷ reqs) v = elim (Bool-cases (ltb (length q.low_priority) q.low_size)) [
  | inl t ↦ rw (t, resume_low) (v.0, v.1, AreDone-append req q.low_priority v.2, v.3)
  | inr f ↦ rw (f, resume_low) v
]

give_up_normal-Late :
    (q : RequestQueue) (reqs : List Request) → Late q → Late (give_up_normal q reqs).0
unfolding give_up_normal
give_up_normal-Late q [] v = v
give_up_normal-Late q (req ∷ reqs) v = v

give_up_low-Late : (q : RequestQueue) (reqs : List Request) → Late q → Late (give_up_low q reqs).0
unfolding give_up_low
give_up_low-Late q [] v = v
give_up_low-Late q (req ∷ reqs) v = v

-- What a worker takes from such a queue is done, and leaves such a queue.
abbrev LateTaken : Option (Request × RequestQueue) → Type 0
LateTaken none = Unit
LateTaken (some (req, q)) = (req.context_done ≡ true) × Late q

next_low-Late :
    (q : RequestQueue) (reqs : List Request) → Late q → AreDone reqs → LateTaken (next_low q reqs)
unfolding next_low
next_low-Late q [] v h = tt
next_low-Late q (req ∷ reqs) v h = (h.0, (v.0, v.1, h.1, v.3))

next_normal-Late :
    (q : RequestQueue) (reqs : List Request)
    → Late q
    → AreDone reqs
    → LateTaken (next_normal q reqs)
unfolding next_normal
next_normal-Late q [] v h = next_low-Late q q.low_priority v v.2
next_normal-Late q (req ∷ reqs) v h = (h.0, (v.0, h.1, v.2, v.3))

next_high-Late :
    (q : RequestQueue) (reqs : List Request) → Late q → AreDone reqs → LateTaken (next_high q reqs)
unfolding next_high
next_high-Late q [] v h = next_normal-Late q q.normal_priority v v.1
next_high-Late q (req ∷ reqs) v h = (h.0, (h.1, v.1, v.2, v.3))

process_request-Late :
    (finish : Finish) (req : Request) (q : RequestQueue)
    → req.context_done ≡ true
    → Late q
    → Late (process_request finish req q).0
unfolding process_request
process_request-Late finish req q e v = rw (e, process_request) v

worker-Late : (finish : Finish) (q : RequestQueue) → Late q → Late (worker finish q).0
unfolding worker
worker-Late finish q v = elim (Bool-cases (q.closed)) [
  | inl stopped ↦ rw (stopped, worker) v
  | inr open_ ↦ elim (Option-cases (next_high q q.high_priority)) [
    | inl e ↦ rw (open_, e, worker) v
    | inr ((req, q₁), e) ↦
        let t = subst LateTaken e (next_high-Late q q.high_priority v v.0) in
        rw (open_, e, worker) (process_request-Late finish req q₁ t.0 t.1)
  ]
]

step-Late : (op : Op) (q : RequestQueue) → Late q → Late (step op q).0
step-Late (enqueues req p) q v = enqueue-Late req p q v
step-Late resumes_normal q v = resume_normal-Late q q.wait_normal v
step-Late resumes_low q v = resume_low-Late q q.wait_low v
step-Late gives_up_normal q v = give_up_normal-Late q q.wait_normal v
step-Late gives_up_low q v = give_up_low-Late q q.wait_low v
step-Late (works finish) q v = worker-Late finish q v

run-Late : (ops : List Op) (q : RequestQueue) → Late q → Late (run q ops).0
run-Late [] q v = v
run-Late (op ∷ ops) q v = run-Late ops (step op q).0 (step-Late op q v)

new_request_queue-Late :
    (max_size : Word) (q : RequestQueue) → new_request_queue max_size ≡ some q → Late q
unfolding new_request_queue
new_request_queue-Late max_size q e =
    let start = empty_queue max_size in
    elim (Bool-cases (slt start.high_size 0 || slt start.normal_size 0)) [
      | inl bad ↦ absurd (cc (rw (bad, new_request_queue) at e))
      | inr fine ↦
          let made : ◌≡◌ {A = Option RequestQueue} (some start) (some q) =
            rw (fine, new_request_queue) at e in
          let same : start ≡ q = cc made in subst Late same (tt, tt, tt, refl)
    ]

-- No request is ever processed by a new queue in which each `Enqueue` returns before a worker takes
-- its request: the return cancels the request's context.
pub processed-run :
    (max_size : Word) (q : RequestQueue) (ops : List Op)
    → new_request_queue max_size ≡ some q
    → (run q ops).0.processed ≡ 0
processed-run max_size q ops e = (run-Late ops q (new_request_queue-Late max_size q e)).3

length-drain : (reqs : List Request) → length (drain reqs) ≡ length reqs
unfolding drain
length-drain [] = refl
length-drain (req ∷ reqs) = omega (arith, length-drain reqs)

-- A shutdown gives as many answers as the channels hold requests, and after it no worker answers
-- anything; but the counter still counts the requests, and the calls that wait still wait.
shutdown-worker :
    (q : RequestQueue) (finish : Finish)
    → let (q', answers) = shutdown q in
      (length answers ≡ length q.high_priority + length q.normal_priority + length q.low_priority)
      × (worker finish q' ≡ (q', []))
      × (q'.queued ≡ q.queued)
      × (q'.wait_normal ≡ q.wait_normal)
      × (q'.wait_low ≡ q.wait_low)
unfolding shutdown worker
shutdown-worker q finish = (
  omega (
    arith,
    length-append (drain q.high_priority) (drain q.normal_priority ++ drain q.low_priority),
    length-append (drain q.normal_priority) (drain q.low_priority),
    length-drain q.high_priority,
    length-drain q.normal_priority,
    length-drain q.low_priority,
  ),
  refl,
  refl,
  refl,
  refl,
)
