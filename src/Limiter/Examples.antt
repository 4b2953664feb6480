-- ===== src/Limiter/Examples.antt =====
-- The limiter on concrete buckets: one of ten tokens a second for tenant "a", and a global one.
use true_now.Base.{
  ℕ, ◌+◌, ◌-◌, ◌*◌, ◌≤◌, ◌≡◌, String, false, some, List, [], ◌∷◌, arith, if◌then◌else◌, eqb,
  string_eq,
}
use true_now.Base.Word.{second}
use true_now.Base.Map.{lookup}
use true_now.Limiter.{TokenBucket, HierarchicalLimiter, find_bucket, get_tenant_bucket, allow_n}
use true_now.Limiter.Rate.{BucketOp, refills, takes, gives, run, granted-run}
use true_now.Limiter.Tenants.{allow_n_lem, tokens_of}

abbrev small_bucket : TokenBucket
small_bucket = record { tokens = 5; max_tokens = 10; refill_rate = 10; last_refill = 0 }

abbrev empty_bucket : TokenBucket
empty_bucket = record { tokens = 0; max_tokens = 10; refill_rate = 10; last_refill = 100 }

abbrev hash : String → ℕ
hash tenant = 7

-- Tenant "a" has `small_bucket`, the global bucket is empty.
abbrev limiter : HierarchicalLimiter
limiter = record {
  global_bucket = empty_bucket;
  tenant_shards = λ i. if eqb i 7 then ("a", small_bucket) ∷ [] else [];
  global_rate = 10;
}

abbrev ops : List BucketOp
ops = takes 300_000_000 4 ∷ refills 100_000_000 ∷ gives 1 ∷ takes 500_000_000 6 ∷ []

granted-run_example :
    let l = run ops (record { bucket = small_bucket; granted = 0; returned = 0 }) in
    l.granted * second ≤ (5 + l.returned) * second + 500_000_000 * 10
granted-run_example =
    granted-run small_bucket 500_000_000 ops (omega arith) (omega arith) (omega arith) (omega arith)
      (omega arith)

allow_n_lem_example :
    let (hl, allowed) = allow_n hash 0 100 100 "a" 3 limiter in
    (allowed ≡ false)
    × (tokens_of hash (find_bucket hash "a" hl) ≡ some (if allowed then 2 else 5))
    × (hl.global_bucket.tokens ≡ (if allowed then 0 - 3 else 0))
unfolding get_tenant_bucket find_bucket lookup
allow_n_lem_example =
    allow_n_lem hash 0 100 100 "a" 3 limiter (omega arith) (omega arith) (omega arith) (omega arith)
      (omega arith)
