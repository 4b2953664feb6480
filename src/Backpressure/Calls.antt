-- ===== src/Backpressure/Calls.antt =====
-- What becomes of each call of `Enqueue`.
use true_now.Base.{
  ℕ, suc, ◌+◌, ◌≡◌, refl, ap, subst, false, ◌||◌, Option, none, some, List, [], ◌∷◌, ◌++◌, arith,
  if◌then◌else◌, eqb, Bool-cases, Option-cases, inl, inr,
}
use true_now.Base.Word.{Word, add64, slt, sle}
use true_now.Backpressure.{
  Priority, low, normal, high, critical, Request, RequestQueue, new_request_queue, empty_queue,
  offer, enqueue, sent, refuse, resume_normal, resume_low, give_up_normal, give_up_low, Finish,
  done, too_slow, context_ended, process_request, next_low, next_normal, next_high, worker,
}
use true_now.Backpressure.Invariant.{
  Op, enqueues, resumes_normal, resumes_low, gives_up_normal, gives_up_low, works, ended, ids,
  answered, step, run, Inv, run-Inv, new_request_queue-Inv,
}

-- How often an identifier stands in a list.
abbrev pub count : ℕ → List ℕ → ℕ
count id [] = 0
count id (x ∷ xs) = let rest = count id xs in if eqb x id then suc rest else rest

-- How many of some requests have it.
abbrev pub count_requests : ℕ → List Request → ℕ
count_requests id [] = 0
count_requests id (req ∷ reqs) =
    let rest = count_requests id reqs in if eqb req.id id then suc rest else rest

-- The calls for a request that lie in a channel or wait for room in one.
abbrev pub pending_for : ℕ → RequestQueue → ℕ
pending_for id q =
    count_requests id q.high_priority
    + count_requests id q.normal_priority
    + count_requests id q.low_priority
    + count_requests id q.wait_normal
    + count_requests id q.wait_low

-- The calls of `Enqueue` for a request.
abbrev pub calls_by : ℕ → Op → ℕ
calls_by id (enqueues req p) = if eqb req.id id then 1 else 0
calls_by id resumes_normal = 0
calls_by id resumes_low = 0
calls_by id gives_up_normal = 0
calls_by id gives_up_low = 0
calls_by id (works finish) = 0

abbrev pub calls_for : ℕ → List Op → ℕ
calls_for id [] = 0
calls_for id (op ∷ ops) = calls_by id op + calls_for id ops

count-append : (id : ℕ) (xs ys : List ℕ) → count id (xs ++ ys) ≡ count id xs + count id ys
count-append id [] ys = omega arith
count-append id (x ∷ xs) ys = ground (arith, count-append id xs ys)

-- Of a request that is put at the end of a list its identifier counts.
count_requests-append :
    (id : ℕ) (reqs : List Request) (req : Request)
    → count_requests id (reqs ++ (req ∷ []))
      ≡ count_requests id reqs + (if eqb req.id id then 1 else 0)
count_requests-append id [] req = ground arith
count_requests-append id (x ∷ reqs) req = ground (arith, count_requests-append id reqs req)

module _ (id : ℕ) where
  -- The calls for the request that there were and that come are those that there are and that end.
  abbrev Accounts : ℕ → RequestQueue → RequestQueue × List ℕ → Type 0
  Accounts calls q r = pending_for id q + calls ≡ pending_for id (r.0) + count id (r.1)

  offer-Accounts :
      (req : Request) (p : Priority) (q : RequestQueue)
      → let (q', outcome) = offer req p q in
        Accounts (if eqb req.id id then 1 else 0) q (q', ended req outcome)
  unfolding offer refuse sent
  offer-Accounts req high q = ground (
    arith,
    count_requests-append id q.high_priority (sent req),
    count_requests-append id q.normal_priority (sent req),
    count_requests-append id q.wait_normal req,
  )
  offer-Accounts req normal q = ground (
    arith,
    count_requests-append id q.normal_priority (sent req),
    count_requests-append id q.low_priority (sent req),
    count_requests-append id q.wait_low req,
  )
  offer-Accounts req low q = ground (arith, count_requests-append id q.low_priority (sent req))
  offer-Accounts req critical q = ground arith

  enqueue-Accounts :
      (req : Request) (p : Priority) (q : RequestQueue)
      → let (q', outcome) = enqueue req p q in
        Accounts (if eqb req.id id then 1 else 0) q (q', ended req outcome)
  unfolding enqueue refuse
  enqueue-Accounts req p q = elim (Bool-cases (sle q.max_size q.queued)) [
    | inl full ↦ rw (full, enqueue) (ground arith)
    | inr room ↦ elim (Bool-cases (req.context_done)) [
      | inl late ↦ rw (room, late, enqueue) (ground arith)
      | inr fine ↦
          rw (room, fine, enqueue)
            (offer-Accounts (record req { context_done = false }) p
              (record q { queued = add64 q.queued 1 }))
    ]
  ]

  -- A queue from which one pending request was taken.
  abbrev Gives : RequestQueue → Option (Request × RequestQueue) → Type 0
  Gives q none = Unit
  Gives q (some (req, q₁)) = pending_for id q ≡ pending_for id q₁ + (if eqb req.id id then 1 else 0)

  next_low-Gives :
      (q : RequestQueue) (reqs : List Request) → q.low_priority ≡ reqs → Gives q (next_low q reqs)
  unfolding next_low
  next_low-Gives q [] e = tt
  next_low-Gives q (req ∷ reqs) e = ground (arith, ap (λ l. count_requests id l) e)

  next_normal-Gives :
      (q : RequestQueue) (reqs : List Request)
      → q.normal_priority ≡ reqs
      → Gives q (next_normal q reqs)
  unfolding next_normal
  next_normal-Gives q [] e = next_low-Gives q q.low_priority refl
  next_normal-Gives q (req ∷ reqs) e = ground (arith, ap (λ l. count_requests id l) e)

  next_high-Gives :
      (q : RequestQueue) (reqs : List Request) → q.high_priority ≡ reqs → Gives q (next_high q reqs)
  unfolding next_high
  next_high-Gives q [] e = next_normal-Gives q q.normal_priority refl
  next_high-Gives q (req ∷ reqs) e = ground (arith, ap (λ l. count_requests id l) e)

  process_request-keeps :
      (finish : Finish) (req : Request) (q : RequestQueue)
      → pending_for id (process_request finish req q).0 ≡ pending_for id q
  unfolding process_request
  process_request-keeps (done r) req q = ground arith
  process_request-keeps too_slow req q = ground arith
  process_request-keeps context_ended req q = ground arith

  worker-Accounts :
      (finish : Finish) (q : RequestQueue)
      → let (q', answers) = worker finish q in Accounts 0 q (q', answered answers)
  unfolding worker
  worker-Accounts finish q = elim (Bool-cases (q.closed)) [
    | inl stopped ↦ rw (stopped, worker) refl
    | inr open_ ↦ elim (Option-cases (next_high q q.high_priority)) [
      | inl e ↦ rw (open_, e, worker) refl
      | inr ((req, q₁), e) ↦
          let given : Gives q (some (req, q₁)) =
            subst (Gives q) e (next_high-Gives q q.high_priority refl) in
          rw (open_, e, worker) (ground (arith, given, process_request-keeps finish req q₁))
    ]
  ]

  resume_normal-Accounts :
      (q : RequestQueue) (reqs : List Request)
      → q.wait_normal ≡ reqs
      → Accounts 0 q (resume_normal q reqs, [])
  unfolding resume_normal sent
  resume_normal-Accounts q [] e = refl
  resume_normal-Accounts q (req ∷ reqs) e = ground (
    arith,
    ap (λ l. count_requests id l) e,
    count_requests-append id q.normal_priority (sent req),
  )

  resume_low-Accounts :
      (q : RequestQueue) (reqs : List Request)
      → q.wait_low ≡ reqs
      → Accounts 0 q (resume_low q reqs, [])
  unfolding resume_low sent
  resume_low-Accounts q [] e = refl
  resume_low-Accounts q (req ∷ reqs) e =
      ground
        (arith, ap (λ l. count_requests id l) e, count_requests-append id q.low_priority (sent req))

  give_up_normal-Accounts :
      (q : RequestQueue) (reqs : List Request)
      → q.wait_normal ≡ reqs
      → let (q', late) = give_up_normal q reqs in Accounts 0 q (q', ids late)
  unfolding give_up_normal
  give_up_normal-Accounts q [] e = refl
  give_up_normal-Accounts q (req ∷ reqs) e = ground (arith, ap (λ l. count_requests id l) e)

  give_up_low-Accounts :
      (q : RequestQueue) (reqs : List Request)
      → q.wait_low ≡ reqs
      → let (q', late) = give_up_low q reqs in Accounts 0 q (q', ids late)
  unfolding give_up_low
  give_up_low-Accounts q [] e = refl
  give_up_low-Accounts q (req ∷ reqs) e = ground (arith, ap (λ l. count_requests id l) e)

  step-Accounts : (op : Op) (q : RequestQueue) → Accounts (calls_by id op) q (step op q)
  step-Accounts (enqueues req p) q = enqueue-Accounts req p q
  step-Accounts resumes_normal q = resume_normal-Accounts q q.wait_normal refl
  step-Accounts resumes_low q = resume_low-Accounts q q.wait_low refl
  step-Accounts gives_up_normal q = give_up_normal-Accounts q q.wait_normal refl
  step-Accounts gives_up_low q = give_up_low-Accounts q q.wait_low refl
  step-Accounts (works finish) q = worker-Accounts finish q

  run-Accounts : (ops : List Op) (q : RequestQueue) → Accounts (calls_for id ops) q (run q ops)
  run-Accounts [] q = refl
  run-Accounts (op ∷ ops) q =
      let q₁ = (step op q).0 in
      let ends = count-append id (step op q).1 (run q₁ ops).1 in
      omega (arith, step-Accounts op q, run-Accounts ops q₁, ends)

  new_request_queue-pending_for :
      (max_size : Word) (q : RequestQueue)
      → new_request_queue max_size ≡ some q
      → pending_for id q ≡ 0
  unfolding new_request_queue
  new_request_queue-pending_for max_size q e =
      let start = empty_queue max_size in
      elim (Bool-cases (slt start.high_size 0 || slt start.normal_size 0)) [
        | inl bad ↦ absurd (cc (rw (bad, new_request_queue) at e))
        | inr fine ↦
            let made : ◌≡◌ {A = Option RequestQueue} (some start) (some q) =
              rw (fine, new_request_queue) at e in
            let same : start ≡ q = cc made in subst (λ k. pending_for id k ≡ 0) same refl
      ]

-- Whatever happens to a new queue before it is shut down: no channel holds more than its buffer, the
-- counter of queued requests is the number of those in a channel or waiting for room, modulo 2 ^ 64,
-- and for each identifier of a request the calls of `Enqueue` with it are as many as the requests
-- with it in a channel or waiting for room and the errors and answers given to it, together: a request
-- that is enqueued once is in one place, or has got one error or one answer, and no other request
-- gets any.
pub run-new-Keeps :
    (max_size : Word) (q : RequestQueue) (ops : List Op)
    → new_request_queue max_size ≡ some q
    → let (q', ends) = run q ops in
      Inv q' × ((id : ℕ) → calls_for id ops ≡ pending_for id q' + count id ends)
run-new-Keeps max_size q ops e = (
  run-Inv ops q (new_request_queue-Inv max_size q e).0,
  λ id. omega (arith, run-Accounts id ops q, new_request_queue-pending_for id max_size q e),
)
