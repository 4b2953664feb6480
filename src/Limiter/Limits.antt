-- ===== src/Limiter/Limits.antt =====
-- Limits that are changed for good (`SetTenantLimit`) or for one request (`AllowWithLimit`).
use true_now.Base.{ℕ, ◌^◌, ◌<◌, ◌≡◌, ◌∙◌, ap, String, true, false, some, arith, min}
use true_now.Base.Word.{Word}
use true_now.Limiter.{
  TokenBucket, HierarchicalLimiter, find_bucket, put_bucket, get_tenant_bucket, allow,
  allow_with_limit, set_tenant_limit, try_consume, return_tokens, restore,
}
use true_now.Limiter.Bucket.{IsValid, Fits, available, try_consume_lem}
use true_now.Limiter.Tenants.{bucket_of, find_bucket-put_self, put_bucket-global}

module _ (sum32 : String → ℕ) where
  get_tenant_bucket-found :
      (now : Word) (tenant : String) (tb : TokenBucket) (hl : HierarchicalLimiter)
      → find_bucket sum32 tenant hl ≡ some tb
      → get_tenant_bucket sum32 now tenant hl ≡ (hl, tb)
  unfolding get_tenant_bucket
  get_tenant_bucket-found now tenant tb hl e = rw (e, get_tenant_bucket)

  -- After `SetTenantLimit(tenant, qps)` (`qps` below 2 ^ 62, and no int64 of the bucket negative)
  -- the tenant has the bucket that it had, or a new one, with `qps` for its maximum and its rate, and
  -- its tokens held at `qps`; so the bucket is valid.
  set_tenant_limit_lem :
      (now : Word) (tenant : String) (qps : Word) (hl : HierarchicalLimiter)
      → qps < 2 ^ 62
      → IsValid (bucket_of sum32 now tenant hl)
      → let tb = bucket_of sum32 now tenant hl in
        let tb' = record tb { max_tokens = qps; refill_rate = qps; tokens = min tb.tokens qps } in
        (find_bucket sum32 tenant (set_tenant_limit sum32 now tenant qps hl) ≡ some tb')
        × IsValid tb'
  unfolding set_tenant_limit
  set_tenant_limit_lem now tenant qps hl small v =
      let (hl', tb) = get_tenant_bucket sum32 now tenant hl in
      ground (
        arith,
        find_bucket-put_self sum32 tenant
            (record tb { max_tokens = qps; refill_rate = qps; tokens = min tb.tokens qps }) hl',
      )

  -- A bucket that holds more than its maximum of tokens, of which one is taken and given back.
  take_and_return :
      (now : Word) (tb : TokenBucket)
      → 0 < tb.max_tokens
      → tb.max_tokens < tb.tokens
      → tb.tokens < 2 ^ 62
      → let (tb', held) = try_consume now 1 tb in
        (held ≡ true) × (return_tokens 1 tb' ≡ record tb { tokens = tb.max_tokens })
  unfolding try_consume return_tokens
  take_and_return now tb pos over small = ground arith

  allow_refused :
      (created tenant_now global_now : Word) (tenant : String) (tb : TokenBucket)
      (hl : HierarchicalLimiter)
      → find_bucket sum32 tenant hl ≡ some tb
      → (try_consume tenant_now 1 tb).1 ≡ true
      → (try_consume global_now 1 hl.global_bucket).1 ≡ false
      → let (hl', allowed) = allow sum32 created tenant_now global_now tenant hl in
        (allowed ≡ false)
        × (find_bucket sum32 tenant hl' ≡ some (return_tokens 1 (try_consume tenant_now 1 tb).0))
  unfolding allow
  allow_refused created tenant_now global_now tenant tb hl e held refused =
      let tb' = (try_consume tenant_now 1 tb).0 in
      let hl₂ = put_bucket sum32 tenant tb' hl in
      let global = (try_consume global_now 1 hl₂.global_bucket).0 in
      let hl₃ = record hl₂ { global_bucket = global } in
      rw (get_tenant_bucket-found created tenant tb hl e) (
        ground (
          arith,
          put_bucket-global sum32 tenant tb' hl,
          find_bucket-put_self sum32 tenant (return_tokens 1 tb') hl₃,
        ))

  restore_lem :
      (tenant : String) (max_tokens rate : Word) (tb : TokenBucket) (hl : HierarchicalLimiter)
      → find_bucket sum32 tenant hl ≡ some tb
      → find_bucket sum32 tenant (restore sum32 tenant max_tokens rate hl)
        ≡ some (record tb { max_tokens = max_tokens; refill_rate = rate })
  unfolding restore
  restore_lem tenant max_tokens rate tb hl e =
      rw (e, restore)
        (find_bucket-put_self sum32 tenant
          (record tb { max_tokens = max_tokens; refill_rate = rate }) hl)

  -- A request with a limit of its own that is below the tokens the tenant holds (both below 2 ^ 62)
  -- and that the global bucket refuses: it consumes nothing, yet the tenant is left with `limit`
  -- tokens, since the token given back is held to the limit of this request.
  allow_with_limit_truncates :
      (created tenant_now global_now : Word) (tenant : String) (limit : Word) (tb : TokenBucket)
      (hl : HierarchicalLimiter)
      → find_bucket sum32 tenant hl ≡ some tb
      → 0 < limit
      → limit < tb.tokens
      → tb.tokens < 2 ^ 62
      → IsValid hl.global_bucket
      → Fits global_now hl.global_bucket
      → available global_now 1 hl.global_bucket ≡ 0
      → let (hl', allowed) = allow_with_limit sum32 created tenant_now global_now tenant limit hl in
        (allowed ≡ false) × (find_bucket sum32 tenant hl' ≡ some (record tb { tokens = limit }))
  unfolding allow_with_limit
  allow_with_limit_truncates created tenant_now global_now tenant limit tb hl e pos over small w fit
        dry =
      let tb₁ = record tb { max_tokens = limit; refill_rate = limit } in
      let hl₁ = put_bucket sum32 tenant tb₁ hl in
      let taken = take_and_return tenant_now tb₁ pos over small in
      let refused : (try_consume global_now 1 hl₁.global_bucket).1 ≡ false =
        rw (put_bucket-global sum32 tenant tb₁ hl)
          (ground (arith, try_consume_lem global_now 1 hl.global_bucket w fit)) in
      let a =
        allow_refused created tenant_now global_now tenant tb₁ hl₁
          (find_bucket-put_self sum32 tenant tb₁ hl) taken.0 refused in
      rw (get_tenant_bucket-found created tenant tb hl e) (
        a.0,
        restore_lem tenant tb.max_tokens tb.refill_rate (record tb₁ { tokens = limit })
            (allow sum32 created tenant_now global_now tenant hl₁).0 (a.1 ∙ ap some taken.1),
      )
