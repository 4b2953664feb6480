-- ===== src/Limiter/Bucket.antt =====
-- One token bucket: what a refill adds, what a request takes, and what small refills lose.
use true_now.Base.{
  ℕ, ◌+◌, ◌-◌, ◌*◌, ◌/◌, ◌^◌, ◌≤◌, ◌<◌, ◌≡◌, refl, true, List, [], ◌∷◌, arith, min, max, leb, ltb,
  if◌then◌else◌,
}
use true_now.Base.Word.{Word, sub64, mul64, sle, second}
use native.Mathlib.Decide.{dec_lt}
use true_now.Limiter.{TokenBucket, refill, return_tokens, try_consume}

-- The tokens lie between 0 and the maximum, and the values are int64s that are not negative, the
-- maximum below 2 ^ 62.
pub record IsValid (tb : TokenBucket) : Type 0 where
  pub within : tb.tokens ≤ tb.max_tokens
  pub small_max : tb.max_tokens < 2 ^ 62
  pub past : tb.last_refill < 2 ^ 63

-- The tokens that a refill at `now` leaves, in whole numbers.
abbrev pub refilled : Word → TokenBucket → ℕ
refilled now tb = min (tb.tokens + (now - tb.last_refill) * tb.refill_rate / second) tb.max_tokens

-- No int64 of the refill overflows.
abbrev pub Fits : Word → TokenBucket → Type 0
Fits now tb = (now < 2 ^ 63) × ((now - tb.last_refill) * tb.refill_rate < 2 ^ 63)

pub refill_late :
    (now : Word) (tb : TokenBucket)
    → IsValid tb
    → Fits now tb
    → tb.last_refill < now
    → refill now tb ≡ record tb { tokens = refilled now tb; last_refill = now }
unfolding refill
refill_late now tb v fit late =
    let e : sub64 now tb.last_refill ≡ now - tb.last_refill = omega arith in
    let m : mul64 (now - tb.last_refill) tb.refill_rate ≡ (now - tb.last_refill) * tb.refill_rate =
      omega arith in
    rw (e, refill) (rw (m, refill) (ground arith))

pub refill_early :
    (now : Word) (tb : TokenBucket) → IsValid tb → now ≤ tb.last_refill → refill now tb ≡ tb
unfolding refill
refill_early now tb v early =
    let e : sle (sub64 now tb.last_refill) 0 ≡ true = ground arith in rw (e, refill) refl

-- The last refill after a refill at `now`.
abbrev pub refill_time : Word → TokenBucket → ℕ
refill_time now tb = max tb.last_refill now

pub refill_lem :
    (now : Word) (tb : TokenBucket)
    → IsValid tb
    → Fits now tb
    → refill now tb ≡ record tb { tokens = refilled now tb; last_refill = refill_time now tb }
refill_lem now tb v fit = elim (dec_lt tb.last_refill now) [
  | yes late ↦ ground (arith, refill_late now tb v fit late)
  | no early ↦ ground (arith, refill_early now tb v (omega arith))
]

pub refill-IsValid :
    (now : Word) (tb : TokenBucket) → IsValid tb → Fits now tb → IsValid (refill now tb)
refill-IsValid now tb v fit = rw (refill_lem now tb v fit) (omega arith)

-- The tokens on which a request for `n` at `now` is decided: refilled if they are short.
abbrev pub available : Word → Word → TokenBucket → ℕ
available now n tb = if ltb tb.tokens n then refilled now tb else tb.tokens

-- A request for `n` tokens (below 2 ^ 62), of a valid bucket at a time at which the refill does not
-- overflow: it is granted exactly if the bucket has `n` tokens, or has them after a refill; then
-- it takes `n` of them, and a refused one leaves the tokens refilled. The limits stay as they are.
pub try_consume_lem :
    (now n : Word) (tb : TokenBucket)
    → IsValid tb
    → Fits now tb
    → n < 2 ^ 62
    → let (tb', granted) = try_consume now n tb in
      (granted ≡ leb n (available now n tb))
      × (tb'.tokens ≡ (if granted then available now n tb - n else available now n tb))
      × (tb'.max_tokens ≡ tb.max_tokens)
      × (tb'.refill_rate ≡ tb.refill_rate)
      × IsValid tb'
unfolding try_consume
try_consume_lem now n tb v fit small = ground (arith, refill_lem now tb v fit)

-- A bucket that `n` tokens were taken from gets them back.
pub return_tokens_lem :
    (n : Word) (tb : TokenBucket)
    → IsValid tb
    → n < 2 ^ 62
    → return_tokens n tb ≡ record tb { tokens = min (tb.tokens + n) tb.max_tokens }
unfolding return_tokens
return_tokens_lem n tb v small = ground arith

-- Refills one after another, as the ticker makes them.
pub refill_all : List Word → TokenBucket → TokenBucket
refill_all [] tb = tb
refill_all (now ∷ times) tb = refill_all times (refill now tb)

-- Each time is later than the one before it, by less than one token's worth.
abbrev pub AllSlow : ℕ → Word → List Word → Type 0
AllSlow rate last [] = Unit
AllSlow rate last (now ∷ times) =
    ((last < now) × (now < 2 ^ 63) × ((now - last) * rate < second)) × AllSlow rate now times

-- The last of some times, `last` if there are none.
abbrev pub last_time : Word → List Word → Word
last_time last [] = last
last_time last (now ∷ times) = last_time now times

refill_slow :
    (now : Word) (tb : TokenBucket)
    → IsValid tb
    → tb.last_refill < now
    → now < 2 ^ 63
    → (now - tb.last_refill) * tb.refill_rate < second
    → refill now tb ≡ record tb { last_refill = now }
refill_slow now tb v late small slow =
    let none_ : (now - tb.last_refill) * tb.refill_rate / second ≡ 0 = omega arith in
    ground (arith, refill_late now tb v (small, omega arith) late)

-- Refills of a valid bucket that come faster than its tokens do (less than a second divided by the
-- rate apart) add nothing, however many they are and however long they go on: the time of the last
-- refill moves to the last of them, and the tokens stay as they were.
refill_all_slow :
    (times : List Word) (tb : TokenBucket)
    → IsValid tb
    → AllSlow tb.refill_rate tb.last_refill times
    → refill_all times tb ≡ record tb { last_refill = last_time tb.last_refill times }
unfolding refill_all
refill_all_slow [] tb v slow = refl
refill_all_slow (now ∷ times) tb v slow =
    rw (refill_slow now tb v slow.0.0 slow.0.1 slow.0.2)
      (refill_all_slow times (record tb { last_refill = now }) (ground arith) slow.1)
