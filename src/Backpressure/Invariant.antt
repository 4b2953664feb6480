-- ===== src/Backpressure/Invariant.antt =====
-- The count of queued requests and the bounds of the channels.
use true_now.Base.{
  ℕ, suc, ◌+◌, ◌%◌, ◌^◌, ◌≤◌, ◌≡◌, refl, ap, subst, false, ◌||◌, Option, none, some, List, [], ◌∷◌,
  ◌++◌, arith, length, length-append, Bool-cases, Option-cases, inl, inr,
}
use true_now.Base.Word.{Word, add64, slt, sle}
use true_now.Backpressure.{
  Priority, low, normal, high, critical, Request, Response, RequestQueue, new_request_queue,
  empty_queue, Outcome, returned, waits, offer, enqueue, sent, refuse, resume_normal, resume_low,
  give_up_normal, give_up_low, Finish, done, too_slow, context_ended, process_request, next_low,
  next_normal, next_high, worker,
}

-- The number of calls that have neither returned an error nor got an answer.
abbrev pub pending : RequestQueue → ℕ
pending q =
    length q.high_priority
    + length q.normal_priority
    + length q.low_priority
    + length q.wait_normal
    + length q.wait_low

-- The request whose call ends by the outcome of an `Enqueue`, which is an error.
abbrev pub ended : Request → Outcome → List ℕ
ended req (returned (some err)) = req.id ∷ []
ended req (returned none) = []
ended req waits = []

abbrev pub ids : List Request → List ℕ
ids [] = []
ids (req ∷ reqs) = req.id ∷ ids reqs

abbrev pub answered : List (ℕ × Response) → List ℕ
answered [] = []
answered ((id, response) ∷ answers) = id ∷ answered answers

-- One thing that happens to a queue that is not shut down.
pub data Op : Type 0 where
  enqueues : Request → Priority → Op
  resumes_normal resumes_low gives_up_normal gives_up_low : Op
  works : Finish → Op

-- The queue after it, and the requests that it gives an error or an answer.
abbrev pub step : Op → RequestQueue → RequestQueue × List ℕ
step (enqueues req priority) q =
    let (q', outcome) = enqueue req priority q in (q', ended req outcome)
step resumes_normal q = (resume_normal q q.wait_normal, [])
step resumes_low q = (resume_low q q.wait_low, [])
step gives_up_normal q = let (q', late) = give_up_normal q q.wait_normal in (q', ids late)
step gives_up_low q = let (q', late) = give_up_low q q.wait_low in (q', ids late)
step (works finish) q = let (q', answers) = worker finish q in (q', answered answers)

abbrev pub run : RequestQueue → List Op → RequestQueue × List ℕ
run q [] = (q, [])
run q (op ∷ ops) =
    let (q₁, ends₁) = step op q in let (q₂, ends₂) = run q₁ ops in (q₂, ends₁ ++ ends₂)

-- No channel holds more than its buffer, and the counter is the number of pending requests.
abbrev pub Inv : RequestQueue → Type 0
Inv q =
    (length q.high_priority ≤ q.high_size)
    × (length q.normal_priority ≤ q.normal_size)
    × (length q.low_priority ≤ q.low_size)
    × (pending q % 2 ^ 64 ≡ q.queued)

offer-Inv :
    (req : Request) (p : Priority) (q : RequestQueue)
    → Inv q
    → Inv (offer req p (record q { queued = add64 q.queued 1 })).0
unfolding offer refuse
offer-Inv req high q v = ground (
  arith,
  length-append q.high_priority (sent req ∷ []),
  length-append q.normal_priority (sent req ∷ []),
  length-append q.wait_normal (req ∷ []),
)
offer-Inv req normal q v = ground (
  arith,
  length-append q.normal_priority (sent req ∷ []),
  length-append q.low_priority (sent req ∷ []),
  length-append q.wait_low (req ∷ []),
)
offer-Inv req low q v = ground (arith, length-append q.low_priority (sent req ∷ []))
offer-Inv req critical q v = ground arith

enqueue-Inv : (req : Request) (p : Priority) (q : RequestQueue) → Inv q → Inv (enqueue req p q).0
unfolding enqueue refuse
enqueue-Inv req p q v = elim (Bool-cases (sle q.max_size q.queued)) [
  | inl full ↦ rw (full, enqueue) v
  | inr room ↦ elim (Bool-cases (req.context_done)) [
    | inl late ↦ rw (room, late, enqueue) (ground arith)
    | inr fine ↦ rw (room, fine, enqueue) (offer-Inv (record req { context_done = false }) p q v)
  ]
]

-- A queue from which one pending request was taken that is still counted.
abbrev Takes : RequestQueue → Option (Request × RequestQueue) → Type 0
Takes q none = Unit
Takes q (some (req, q₁)) =
    (length q₁.high_priority ≤ q₁.high_size)
    × (length q₁.normal_priority ≤ q₁.normal_size)
    × (length q₁.low_priority ≤ q₁.low_size)
    × (pending q ≡ suc (pending q₁))
    × (q₁.queued ≡ q.queued)

next_low-Takes :
    (q : RequestQueue) (reqs : List Request)
    → Inv q
    → q.low_priority ≡ reqs
    → Takes q (next_low q reqs)
unfolding next_low
next_low-Takes q [] v e = tt
next_low-Takes q (req ∷ reqs) v e = ground (arith, v, ap (λ (l : List Request). length l) e)

next_normal-Takes :
    (q : RequestQueue) (reqs : List Request)
    → Inv q
    → q.normal_priority ≡ reqs
    → Takes q (next_normal q reqs)
unfolding next_normal
next_normal-Takes q [] v e = next_low-Takes q q.low_priority v refl
next_normal-Takes q (req ∷ reqs) v e = ground (arith, v, ap (λ (l : List Request). length l) e)

next_high-Takes :
    (q : RequestQueue) (reqs : List Request)
    → Inv q
    → q.high_priority ≡ reqs
    → Takes q (next_high q reqs)
unfolding next_high
next_high-Takes q [] v e = next_normal-Takes q q.normal_priority v refl
next_high-Takes q (req ∷ reqs) v e = ground (arith, v, ap (λ (l : List Request). length l) e)

process_request-Inv :
    (finish : Finish) (q : RequestQueue) (req : Request) (q₁ : RequestQueue)
    → Inv q
    → Takes q (some (req, q₁))
    → Inv (process_request finish req q₁).0
unfolding process_request
process_request-Inv (done r) q req q₁ v t = ground (arith, v, t)
process_request-Inv too_slow q req q₁ v t = ground (arith, v, t)
process_request-Inv context_ended q req q₁ v t = ground (arith, v, t)

worker-Inv : (finish : Finish) (q : RequestQueue) → Inv q → Inv (worker finish q).0
unfolding worker
worker-Inv finish q v = elim (Bool-cases (q.closed)) [
  | inl stopped ↦ rw (stopped, worker) v
  | inr open_ ↦ elim (Option-cases (next_high q q.high_priority)) [
    | inl e ↦ rw (open_, e, worker) v
    | inr ((req, q₁), e) ↦
        rw (open_, e, worker)
          (process_request-Inv finish q req q₁ v
            (subst (Takes q) e (next_high-Takes q q.high_priority v refl)))
  ]
]

resume_normal-Inv :
    (q : RequestQueue) (reqs : List Request)
    → Inv q
    → q.wait_normal ≡ reqs
    → Inv (resume_normal q reqs)
unfolding resume_normal
resume_normal-Inv q [] v e = v
resume_normal-Inv q (req ∷ reqs) v e = ground (
  arith,
  v,
  ap (λ (l : List Request). length l) e,
  length-append q.normal_priority (sent req ∷ []),
)

resume_low-Inv :
    (q : RequestQueue) (reqs : List Request) → Inv q → q.wait_low ≡ reqs → Inv (resume_low q reqs)
unfolding resume_low
resume_low-Inv q [] v e = v
resume_low-Inv q (req ∷ reqs) v e =
    ground (
      arith,
      v,
      ap (λ (l : List Request). length l) e,
      length-append q.low_priority (sent req ∷ []),
    )

give_up_normal-Inv :
    (q : RequestQueue) (reqs : List Request)
    → Inv q
    → q.wait_normal ≡ reqs
    → Inv (give_up_normal q reqs).0
unfolding give_up_normal
give_up_normal-Inv q [] v e = v
give_up_normal-Inv q (req ∷ reqs) v e = ground (arith, v, ap (λ (l : List Request). length l) e)

give_up_low-Inv :
    (q : RequestQueue) (reqs : List Request)
    → Inv q
    → q.wait_low ≡ reqs
    → Inv (give_up_low q reqs).0
unfolding give_up_low
give_up_low-Inv q [] v e = v
give_up_low-Inv q (req ∷ reqs) v e = ground (arith, v, ap (λ (l : List Request). length l) e)

step-Inv : (op : Op) (q : RequestQueue) → Inv q → Inv (step op q).0
step-Inv (enqueues req p) q v = enqueue-Inv req p q v
step-Inv resumes_normal q v = resume_normal-Inv q q.wait_normal v refl
step-Inv resumes_low q v = resume_low-Inv q q.wait_low v refl
step-Inv gives_up_normal q v = give_up_normal-Inv q q.wait_normal v refl
step-Inv gives_up_low q v = give_up_low-Inv q q.wait_low v refl
step-Inv (works finish) q v = worker-Inv finish q v

pub run-Inv : (ops : List Op) (q : RequestQueue) → Inv q → Inv (run q ops).0
run-Inv [] q v = v
run-Inv (op ∷ ops) q v = run-Inv ops (step op q).0 (step-Inv op q v)

-- A new queue is empty.
pub new_request_queue-Inv :
    (max_size : Word) (q : RequestQueue)
    → new_request_queue max_size ≡ some q
    → Inv q × (pending q ≡ 0)
unfolding new_request_queue
new_request_queue-Inv max_size q e =
    let start = empty_queue max_size in
    elim (Bool-cases (slt start.high_size 0 || slt start.normal_size 0)) [
      | inl bad ↦ absurd (cc (rw (bad, new_request_queue) at e))
      | inr fine ↦
          let made : ◌≡◌ {A = Option RequestQueue} (some start) (some q) =
            rw (fine, new_request_queue) at e in
          let same : start ≡ q = cc made in subst (λ k. Inv k × (pending k ≡ 0)) same (ground arith)
    ]
