-- ===== src/Limiter/Tenants.antt =====
-- The limiter over all tenants: which buckets an operation touches, and what it takes from them.
use true_now.Base.{
  ℕ, ◌-◌, ◌^◌, ◌<◌, ◌≡◌, ◌≢◌, refl, ◌∙◌, String, ◌&&◌, Option, none, some, arith, leb,
  if◌then◌else◌, ◌==◌, string_eq, beq_self, beq_ne,
}
use true_now.Base.Word.{Word}
use true_now.Base.Map.{lookup-insert}
use true_now.Limiter.{
  TokenBucket, HierarchicalLimiter, new_bucket, default_rate, find_bucket, put_bucket,
  get_tenant_bucket, allow_n, try_consume, return_tokens, get_shard_index,
}
use true_now.Limiter.Bucket.{IsValid, Fits, available, try_consume_lem, return_tokens_lem}

module _ (sum32 : String → ℕ) where
  find_bucket-put_bucket :
      (tenant other : String) (tb : TokenBucket) (hl : HierarchicalLimiter)
      → find_bucket sum32 other (put_bucket sum32 tenant tb hl)
        ≡ (if tenant == other then some tb else find_bucket sum32 other hl)
  unfolding find_bucket put_bucket
  find_bucket-put_bucket tenant other tb hl = ground (
    arith,
    lookup-insert tenant other tb (hl.tenant_shards (get_shard_index sum32 tenant)),
    string_eq.beq_iff tenant other,
  )

  pub find_bucket-put_self :
      (tenant : String) (tb : TokenBucket) (hl : HierarchicalLimiter)
      → find_bucket sum32 tenant (put_bucket sum32 tenant tb hl) ≡ some tb
  find_bucket-put_self tenant tb hl =
      rw (find_bucket-put_bucket tenant tenant tb hl, beq_self tenant)

  find_bucket-put_other :
      (tenant other : String) (tb : TokenBucket) (hl : HierarchicalLimiter)
      → tenant ≢ other
      → find_bucket sum32 other (put_bucket sum32 tenant tb hl) ≡ find_bucket sum32 other hl
  find_bucket-put_other tenant other tb hl ne =
      rw (find_bucket-put_bucket tenant other tb hl, beq_ne tenant other ne)

  get_tenant_bucket-other :
      (now : Word) (tenant other : String) (hl : HierarchicalLimiter)
      → tenant ≢ other
      → find_bucket sum32 other (get_tenant_bucket sum32 now tenant hl).0
        ≡ find_bucket sum32 other hl
  unfolding get_tenant_bucket
  get_tenant_bucket-other now tenant other hl ne = ground (
    arith,
    find_bucket-put_other tenant other (new_bucket (default_rate hl.global_rate) now) hl ne,
  )

  pub put_bucket-global :
      (tenant : String) (tb : TokenBucket) (hl : HierarchicalLimiter)
      → (put_bucket sum32 tenant tb hl).global_bucket ≡ hl.global_bucket
  unfolding put_bucket
  put_bucket-global tenant tb hl = refl

  pub get_tenant_bucket-global :
      (now : Word) (tenant : String) (hl : HierarchicalLimiter)
      → (get_tenant_bucket sum32 now tenant hl).0.global_bucket ≡ hl.global_bucket
  unfolding get_tenant_bucket
  get_tenant_bucket-global now tenant hl =
      ground (arith, put_bucket-global tenant (new_bucket (default_rate hl.global_rate) now) hl)

  pub find_bucket-global :
      (tenant : String) (global : TokenBucket) (hl : HierarchicalLimiter)
      → find_bucket sum32 tenant (record hl { global_bucket = global })
        ≡ find_bucket sum32 tenant hl
  unfolding find_bucket
  find_bucket-global tenant global hl = refl

  -- A request leaves the buckets of all other tenants as they are.
  allow_n-other :
      (created tenant_now global_now : Word) (tenant other : String) (n : Word)
      (hl : HierarchicalLimiter)
      → tenant ≢ other
      → find_bucket sum32 other (allow_n sum32 created tenant_now global_now tenant n hl).0
        ≡ find_bucket sum32 other hl
  unfolding allow_n
  allow_n-other created tenant_now global_now tenant other n hl ne =
      let (hl₁, tb) = get_tenant_bucket sum32 created tenant hl in
      let tb' = (try_consume tenant_now n tb).0 in
      let hl₂ = put_bucket sum32 tenant tb' hl₁ in
      let global = (try_consume global_now n hl₂.global_bucket).0 in
      let hl₃ = record hl₂ { global_bucket = global } in
      ground (
        arith,
        get_tenant_bucket-other created tenant other hl ne,
        find_bucket-put_other tenant other tb' hl₁ ne,
        find_bucket-global other global hl₂,
        find_bucket-put_other tenant other (return_tokens n tb') hl₃ ne,
      )

  -- The bucket that a request of the tenant finds.
  abbrev pub bucket_of : Word → String → HierarchicalLimiter → TokenBucket
  bucket_of created tenant hl = (get_tenant_bucket sum32 created tenant hl).1

  abbrev pub tokens_of : Option TokenBucket → Option ℕ
  tokens_of none = none
  tokens_of (some tb) = some tb.tokens

  -- A request for `n` tokens (below 2 ^ 62), where the tenant's bucket (a new one if it had none) and
  -- the global bucket are valid and no refill overflows: it is allowed exactly if both buckets have
  -- `n` tokens available. Then each gives `n` of them. Refused by the tenant's bucket, it leaves the
  -- tokens of the global one as they were; refused by the global bucket, it leaves the tenant's with
  -- all that was available there.
  pub allow_n_lem :
      (created tenant_now global_now : Word) (tenant : String) (n : Word) (hl : HierarchicalLimiter)
      → IsValid (bucket_of created tenant hl)
      → IsValid hl.global_bucket
      → Fits tenant_now (bucket_of created tenant hl)
      → Fits global_now hl.global_bucket
      → n < 2 ^ 62
      → let (hl', allowed) = allow_n sum32 created tenant_now global_now tenant n hl in
        let a = available tenant_now n (bucket_of created tenant hl) in
        let g = available global_now n hl.global_bucket in
        (allowed ≡ leb n a && leb n g)
        × (tokens_of (find_bucket sum32 tenant hl') ≡ some (if allowed then a - n else a))
        × (hl'.global_bucket.tokens
            ≡ (if leb n a then (if allowed then g - n else g) else hl.global_bucket.tokens))
  unfolding allow_n
  allow_n_lem created tenant_now global_now tenant n hl v w fit fit' small =
      let (hl₁, tb) = get_tenant_bucket sum32 created tenant hl in
      let tb' = (try_consume tenant_now n tb).0 in
      let hl₂ = put_bucket sum32 tenant tb' hl₁ in
      let global = (try_consume global_now n hl₂.global_bucket).0 in
      let hl₃ = record hl₂ { global_bucket = global } in
      let same : hl₂.global_bucket ≡ hl.global_bucket =
        put_bucket-global tenant tb' hl₁ ∙ get_tenant_bucket-global created tenant hl in
      ground (
        arith,
        same,
        try_consume_lem tenant_now n tb v fit small,
        try_consume_lem global_now n hl.global_bucket w fit' small,
        return_tokens_lem n tb',
        find_bucket-put_self tenant tb' hl₁,
        find_bucket-global tenant global hl₂,
        find_bucket-put_self tenant (return_tokens n tb') hl₃,
        put_bucket-global tenant (return_tokens n tb') hl₃,
      )
