-- ===== src/Limiter/Rate.antt =====
-- The tokens that a bucket grants over any operations.
use true_now.Base.{
  ℕ, ◌+◌, ◌-◌, ◌*◌, ◌^◌, ◌≤◌, ◌<◌, ◌≡◌, refl, ap, List, [], ◌∷◌, arith, All, Bool-cases, inl, inr,
  max, if◌then◌else◌,
}
use true_now.Base.Word.{Word, slt, second}
use true_now.Limiter.{TokenBucket, refill, return_tokens, try_consume, consume}
use true_now.Limiter.Bucket.{IsValid, Fits, refill_lem, return_tokens_lem}

-- What goroutines do with a bucket, each operation whole.
pub data BucketOp : Type 0 where
  refills : Word → BucketOp
  takes : Word → Word → BucketOp
  gives : Word → BucketOp

-- The bucket, the tokens granted and the tokens given back so far.
pub record Ledger : Type 0 where
  pub bucket : TokenBucket
  pub granted : ℕ
  pub returned : ℕ

pub apply : BucketOp → Ledger → Ledger
apply (refills now) l = record l { bucket = refill now l.bucket }
apply (takes now n) l =
    let (tb, held) = try_consume now n l.bucket in
    record l { bucket = tb; granted = if held then l.granted + n else l.granted }
apply (gives n) l = record l { bucket = return_tokens n l.bucket; returned = l.returned + n }

unfoldable pub run : List BucketOp → Ledger → Ledger
unfolding apply
run [] l = l
run (op ∷ ops) l = run ops (apply op l)

-- The operation reads the clock between `start` and `stop`, and its amount is an int64 below 2 ^ 62.
abbrev pub IsTimely : Word → Word → BucketOp → Type 0
IsTimely start stop (refills now) = (start ≤ now) × (now ≤ stop)
IsTimely start stop (takes now n) = (start ≤ now) × (now ≤ stop) × (n < 2 ^ 62)
IsTimely start stop (gives n) = n < 2 ^ 62

mul_mono : (a b r : ℕ) → a ≤ b → a * r ≤ b * r
mul_mono a b r h = grind arith

module _ (rate start stop budget : ℕ) (fits : (stop - start) * rate < 2 ^ 63)
    (small : stop < 2 ^ 63) where
  -- `budget` is what the bucket held at `start`.
  record Balanced (l : Ledger) : Type 0 where
    valid : IsValid l.bucket
    rate_kept : l.bucket.refill_rate ≡ rate
    from_start : start ≤ l.bucket.last_refill
    to_stop : l.bucket.last_refill ≤ stop
    balance :
        (l.granted + l.bucket.tokens) * second
        ≤ (budget + l.returned) * second + (l.bucket.last_refill - start) * rate

  elapsed_fits : (now last : Word) → start ≤ last → now ≤ stop → (now - last) * rate < 2 ^ 63
  elapsed_fits now last lo hi = grind arith

  time_split :
      (now last : Word)
      → start ≤ last
      → (max last now - start) * rate ≡ (last - start) * rate + (now - last) * rate
  time_split now last lo =
      let e : max last now - start ≡ (last - start) + (now - last) = omega arith in
      rw e (omega arith)

  refill-Balanced :
      (now : Word) {l : Ledger}
      → start ≤ now
      → now ≤ stop
      → Balanced l
      → Balanced (record l { bucket = refill now l.bucket })
  refill-Balanced now {l} lo hi b =
      let tb = l.bucket in
      let fit : Fits now tb =
        (omega arith, rw b.rate_kept (elapsed_fits now tb.last_refill b.from_start hi)) in
      rw (refill_lem now tb b.valid fit) record {
        valid = omega (arith, b.valid);
        rate_kept = b.rate_kept;
        from_start = omega (arith, b.from_start);
        to_stop = omega (arith, b.to_stop);
        balance = omega (
          arith,
          b.balance,
          time_split now tb.last_refill b.from_start,
          ap (λ r. (now - tb.last_refill) * r) b.rate_kept,
        );
      }

  consume-Balanced :
      (n : Word) {l : Ledger}
      → n < 2 ^ 62
      → Balanced l
      → let (tb, held) = consume n l.bucket in
        Balanced (record l { bucket = tb; granted = if held then l.granted + n else l.granted })
  unfolding consume
  consume-Balanced n small b = ground arith

  apply-Balanced :
      (op : BucketOp) {l : Ledger} → IsTimely start stop op → Balanced l → Balanced (apply op l)
  unfolding apply try_consume
  apply-Balanced (refills now) t b = refill-Balanced now t.0 t.1 b
  apply-Balanced (takes now n) {l} t b = elim (Bool-cases (slt l.bucket.tokens n)) [
    | inl short ↦ rw (short, try_consume) (consume-Balanced n t.2 (refill-Balanced now t.0 t.1 b))
    | inr enough ↦ rw (enough, try_consume) (ground arith)
  ]
  apply-Balanced (gives n) {l} t b = rw (return_tokens_lem n l.bucket b.valid t) (ground arith)

  run-Balanced :
      (ops : List BucketOp) {l : Ledger}
      → All (IsTimely start stop) ops
      → Balanced l
      → Balanced (run ops l)
  unfolding run
  run-Balanced [] t b = b
  run-Balanced (op ∷ ops) t b = run-Balanced ops t.1 (apply-Balanced op t.0 b)

-- Between two times `start` and `stop` (below 2 ^ 63, and such that the tokens' worth of the time
-- between them does not overflow), whatever refills, and requests and returns of amounts that are not
-- negative and below 2 ^ 62, are made of a valid bucket last refilled at `start` (its tokens at most
-- its maximum, and that below 2 ^ 62), in any order and with clock readings between the two times in
-- any order: what is granted is at most what the bucket held at `start`, what was given back, and the
-- rate times the time from `start` to `stop`; all in billionths of a token.
pub granted-run :
    (tb : TokenBucket) (stop : Word) (ops : List BucketOp)
    → IsValid tb
    → tb.last_refill ≤ stop
    → stop < 2 ^ 63
    → (stop - tb.last_refill) * tb.refill_rate < 2 ^ 63
    → All (IsTimely tb.last_refill stop) ops
    → let l = run ops (record { bucket = tb; granted = 0; returned = 0 }) in
      l.granted * second
      ≤ (tb.tokens + l.returned) * second + (stop - tb.last_refill) * tb.refill_rate
granted-run tb stop ops v later small fits timely =
    let l : Ledger = record { bucket = tb; granted = 0; returned = 0 } in
    let b =
      run-Balanced tb.refill_rate tb.last_refill stop tb.tokens fits small ops {l = l} timely
        (record {
          valid = v;
          rate_kept = refl;
          from_start = omega arith;
          to_stop = later;
          balance = omega arith;
        }) in
    omega (
      arith,
      b.balance,
      mul_mono ((run ops l).bucket.last_refill - tb.last_refill) (stop - tb.last_refill)
          tb.refill_rate (omega (arith, b.to_stop)),
    )
