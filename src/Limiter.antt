-- ===== src/Limiter.antt =====
-- The gateway's rate limiter (services/gateway/internal/ratelimit/hierarchical.go): token buckets, a
-- global one and one for each tenant. Values of Go's int64 are 64-bit words, and the clock is an
-- argument, the reading of `time.Now().UnixNano()`. The loops of compare-and-swap are run by one
-- goroutine at a time, so each swap succeeds at the first try.
pub mod Bucket
pub mod Rate
pub mod Tenants
pub mod Limits
mod Examples
use true_now.Base.{
  ℕ, ◌%◌, ◌/◌, String, Bool, true, false, Option, none, some, List, [], ◌∷◌, if◌then◌else◌, ltb,
  eqb, string_eq,
}
use true_now.Base.Word.{Word, add64, sub64, mul64, slt, sle, sdiv, second}
use true_now.Base.Map.{Map, lookup, insert}

pub record TokenBucket : Type 0 where
  pub tokens : Word
  pub max_tokens : Word
  pub refill_rate : Word
  pub last_refill : Word

unfoldable pub new_bucket : Word → Word → TokenBucket
new_bucket rate now = record {
  tokens = rate;
  max_tokens = rate;
  refill_rate = rate;
  last_refill = now;
}

-- Tokens added, held at the most that the bucket takes: the loop of `Return` and of `refill`.
unfoldable pub return_tokens : Word → TokenBucket → TokenBucket
return_tokens n tb =
    let new_val = add64 tb.tokens n in
    record tb { tokens = if slt tb.max_tokens new_val then tb.max_tokens else new_val }

unfoldable pub refill : Word → TokenBucket → TokenBucket
unfolding return_tokens
refill now tb =
    let elapsed = sub64 now tb.last_refill in
    let tb' = record tb { last_refill = now } in
    let tokens_to_add = sdiv (mul64 elapsed tb.refill_rate) second in
    if sle elapsed 0
    then tb
    else (if sle tokens_to_add 0 then tb' else return_tokens tokens_to_add tb')

consume : Word → TokenBucket → TokenBucket × Bool
consume n tb =
    if slt tb.tokens n then (tb, false) else (record tb { tokens = sub64 tb.tokens n }, true)

unfoldable pub try_consume : Word → Word → TokenBucket → TokenBucket × Bool
unfolding consume
try_consume now n tb = if slt tb.tokens n then consume n (refill now tb) else consume n tb

abbrev pub num_shards : ℕ
num_shards = 32

pub record HierarchicalLimiter : Type 0 where
  pub global_bucket : TokenBucket
  pub tenant_shards : ℕ → Map String TokenBucket
  pub global_rate : Word

unfoldable pub new_hierarchical_limiter : Word → Word → HierarchicalLimiter
new_hierarchical_limiter global_qps now = record {
  global_bucket = new_bucket global_qps now;
  tenant_shards = λ i. [];
  global_rate = global_qps;
}

-- The rate of a tenant that is met for the first time.
unfoldable pub default_rate : Word → Word
default_rate global_rate =
    let tenant_rate = sdiv global_rate 10 in if slt tenant_rate 1000 then 1000 else tenant_rate

-- `refill` for every bucket of a shard, each with its own reading of the clock.
unfoldable pub refill_buckets : (String → Word) → Map String TokenBucket → Map String TokenBucket
refill_buckets now [] = []
refill_buckets now ((tenant, tb) ∷ m) = (tenant, refill (now tenant) tb) ∷ refill_buckets now m

-- One tick of `refillLoop`.
unfoldable pub refill_tick : Word → (String → Word) → HierarchicalLimiter → HierarchicalLimiter
refill_tick global_now now hl = record hl {
  global_bucket = refill global_now hl.global_bucket;
  tenant_shards =
      λ i. if ltb i num_shards then refill_buckets now (hl.tenant_shards i) else hl.tenant_shards i;
}

-- `sum32` is the 32-bit FNV-1a hash of the library `hash/fnv`.
module _ (sum32 : String → ℕ) where
  unfoldable pub get_shard_index : String → ℕ
  get_shard_index tenant = sum32 tenant % num_shards

  unfoldable pub find_bucket : String → HierarchicalLimiter → Option TokenBucket
  unfolding get_shard_index
  find_bucket tenant hl = lookup tenant (hl.tenant_shards (get_shard_index tenant))

  -- What a tenant's bucket is after a write through its pointer.
  unfoldable pub put_bucket : String → TokenBucket → HierarchicalLimiter → HierarchicalLimiter
  unfolding get_shard_index
  put_bucket tenant tb hl =
      let idx = get_shard_index tenant in
      record hl {
        tenant_shards =
            λ i. if eqb i idx then insert tenant tb (hl.tenant_shards i) else hl.tenant_shards i;
      }

  -- The bucket of a tenant, if it has none a new one.
  unfoldable pub get_tenant_bucket :
      Word → String → HierarchicalLimiter → HierarchicalLimiter × TokenBucket
  get_tenant_bucket now tenant hl = elim (find_bucket tenant hl) [
    | some tb ↦ (hl, tb)
    | none ↦ let tb = new_bucket (default_rate hl.global_rate) now in (put_bucket tenant tb hl, tb)
  ]

  -- `AllowN`. The clock is read where a new bucket is made, where the tenant's bucket is short, and
  -- where the global one is.
  unfoldable pub allow_n :
      Word → Word → Word → String → Word → HierarchicalLimiter → HierarchicalLimiter × Bool
  allow_n created tenant_now global_now tenant n hl =
      let (hl₁, tb) = get_tenant_bucket created tenant hl in
      let (tb', held) = try_consume tenant_now n tb in
      let hl₂ = put_bucket tenant tb' hl₁ in
      let (global, global_held) = try_consume global_now n hl₂.global_bucket in
      let hl₃ = record hl₂ { global_bucket = global } in
      if held
      then (if global_held
          then (hl₃, true)
          else (put_bucket tenant (return_tokens n tb') hl₃, false))
      else (hl₂, false)

  -- `Allow` is `AllowN` of one request.
  unfoldable pub allow :
      Word → Word → Word → String → HierarchicalLimiter → HierarchicalLimiter × Bool
  unfolding allow_n
  allow created tenant_now global_now tenant hl = allow_n created tenant_now global_now tenant 1 hl

  unfoldable pub set_tenant_limit : Word → String → Word → HierarchicalLimiter → HierarchicalLimiter
  set_tenant_limit now tenant qps hl =
      let (hl', tb) = get_tenant_bucket now tenant hl in
      put_bucket tenant
        (record tb {
          max_tokens = qps;
          refill_rate = qps;
          tokens = if sle tb.tokens qps then tb.tokens else qps;
        })
        hl'

  -- The limits are restored in the bucket as `Allow` has left it.
  unfoldable pub restore : String → Word → Word → HierarchicalLimiter → HierarchicalLimiter
  restore tenant old_max old_rate hl = elim (find_bucket tenant hl) [
    | none ↦ hl
    | some tb ↦ put_bucket tenant (record tb { max_tokens = old_max; refill_rate = old_rate }) hl
  ]

  unfoldable pub allow_with_limit :
      Word → Word → Word → String → Word → HierarchicalLimiter → HierarchicalLimiter × Bool
  unfolding restore
  allow_with_limit created tenant_now global_now tenant limit hl =
      let (hl₁, tb) = get_tenant_bucket created tenant hl in
      let hl₂ = put_bucket tenant (record tb { max_tokens = limit; refill_rate = limit }) hl₁ in
      let (hl₃, allowed) = allow created tenant_now global_now tenant hl₂ in
      (restore tenant tb.max_tokens tb.refill_rate hl₃, allowed)
