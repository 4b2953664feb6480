-- ===== src/Shedder.antt =====
-- The gateway's load shedder (services/gateway/internal/backpressure/shedding.go). The numbers that
-- `rand` gives are arguments: `r` of `Intn(10000)` and `x` of `Float64()`. An operation runs alone,
-- and a priority is one of the constants.
pub mod Laws
mod Examples
use true_now.Base.{ℕ, ◌/◌, ◌*◌, ◌%◌, ◌^◌, Bool, true, false, if◌then◌else◌, ltb, eqb}
use true_now.Base.Word.{Word, add64, sub64, mul64, slt, sdiv}
use true_now.Base.Float.{Float64}
use true_now.Backpressure.{Priority, low, normal, high, critical}

-- `other` stands for a value that is none of the constants.
pub data ShedStrategy : Type 0 where
  random priority adaptive token_bucket other : ShedStrategy

pub record LoadShedder (F : Type 0) : Type 0 where
  pub strategy : ShedStrategy
  pub target_utilization : F
  pub cpu_usage : Word
  pub memory_usage : Word
  pub queue_depth : Word
  pub shed_probability : Word
  pub total_requests : Word
  pub shedded_requests : Word

pub record ShedStats : Type 0 where
  pub total_requests : Word
  pub shed_requests : Word
  pub shed_rate : Word
  pub shed_probability : Word
  pub cpu_usage : Word
  pub memory_usage : Word
  pub queue_depth : Word

-- The probability for a priority.
unfoldable pub adjusted_probability : Priority → Word → Word
adjusted_probability high probability = probability / 4
adjusted_probability normal probability = probability / 2
adjusted_probability low probability =
    let doubled = mul64 probability 2 in if ltb 10_000 doubled then 10_000 else doubled
adjusted_probability critical probability = probability

module _ {F : Type 0} where
  unfoldable pub new_load_shedder : ShedStrategy → F → LoadShedder F
  new_load_shedder strategy target_utilization = record {
    strategy = strategy;
    target_utilization = target_utilization;
    cpu_usage = 0;
    memory_usage = 0;
    queue_depth = 0;
    shed_probability = 0;
    total_requests = 0;
    shedded_requests = 0;
  }

  unfoldable pub random_shed : ℕ → LoadShedder F → Bool
  random_shed r ls = if eqb ls.shed_probability 0 then false else ltb r ls.shed_probability

  unfoldable pub priority_shed : ℕ → Priority → LoadShedder F → Bool
  unfolding adjusted_probability
  priority_shed r p ls =
      if eqb ls.shed_probability 0
      then false
      else ltb r (adjusted_probability p ls.shed_probability)

  -- `int64` division of signed words is by a total that is positive.
  unfoldable pub get_stats : LoadShedder F → ShedStats
  get_stats ls = record {
    total_requests = ls.total_requests;
    shed_requests = ls.shedded_requests;
    shed_rate =
        if slt 0 ls.total_requests
        then sdiv (mul64 ls.shedded_requests 100) ls.total_requests
        else 0;
    shed_probability = ls.shed_probability;
    cpu_usage = ls.cpu_usage;
    memory_usage = ls.memory_usage;
    queue_depth = ls.queue_depth;
  }

module _ (fl : Float64) where
  open fl use {F, of_int64, of_uint64, to_uint64, lit, add, sub, mul, div, lt}

  -- The mean of the CPU and the memory in use.
  load_of : LoadShedder F → F
  load_of ls =
      div
        (add (div (of_uint64 ls.cpu_usage) (lit 100 1))
          (div (of_uint64 ls.memory_usage) (lit 100 1)))
        (lit 2 1)

  -- The overload, by the priority's factor.
  scaled : Priority → F → F
  scaled high overload = mul overload (lit 25 100)
  scaled normal overload = mul overload (lit 5 10)
  scaled low overload = mul overload (lit 15 10)
  scaled critical overload = overload

  unfoldable pub adaptive_shed : F → Priority → LoadShedder F → Bool
  unfolding load_of scaled
  adaptive_shed x p ls =
      let load = load_of ls in
      let overload =
        scaled p (div (sub load ls.target_utilization) (sub (lit 1 1) ls.target_utilization)) in
      let at_most = if lt (lit 1 1) overload then lit 1 1 else overload in
      let at_least = if lt at_most (lit 0 1) then lit 0 1 else at_most in
      if lt load ls.target_utilization then false else lt x at_least

  unfoldable pub token_bucket_shed : F → LoadShedder F → Bool
  token_bucket_shed x ls =
      if slt ls.queue_depth 5_000
      then false
      else lt x (div (of_int64 (sub64 ls.queue_depth 5_000)) (of_int64 5_000))

  decide : ShedStrategy → ℕ → F → Priority → LoadShedder F → Bool
  unfolding random_shed priority_shed adaptive_shed token_bucket_shed
  decide random r x p ls = random_shed r ls
  decide priority r x p ls = priority_shed r p ls
  decide adaptive r x p ls = adaptive_shed x p ls
  decide token_bucket r x p ls = token_bucket_shed x ls
  decide other r x p ls = random_shed r ls

  shed_by : Priority → ℕ → F → LoadShedder F → LoadShedder F × Bool
  unfolding decide
  shed_by critical r x ls = (ls, false)
  shed_by p r x ls =
      if decide ls.strategy r x p ls
      then (record ls { shedded_requests = add64 ls.shedded_requests 1 }, true)
      else (ls, false)

  unfoldable pub should_shed : ℕ → F → Priority → LoadShedder F → LoadShedder F × Bool
  unfolding shed_by
  should_shed r x p ls = shed_by p r x (record ls { total_requests = add64 ls.total_requests 1 })

  unfoldable pub update_shed_probability : LoadShedder F → LoadShedder F
  unfolding load_of
  update_shed_probability ls =
      let load = load_of ls in
      let target = ls.target_utilization in
      let store =
        λ (prob : F). record ls { shed_probability = to_uint64 (mul prob (lit 10_000 1)) } in
      let rising =
        mul (div (sub load (mul target (lit 7 10))) (mul target (lit 3 10))) (lit 5 10) in
      let steep = add (lit 5 10) (mul (div (sub load target) (sub (lit 1 1) target)) (lit 4 10)) in
      if lt load (mul target (lit 7 10))
      then record ls { shed_probability = 0 }
      else if lt load target
      then store rising
      else store (if lt (lit 9 10) steep then lit 9 10 else steep)

  unfoldable pub update_metrics : F → F → Word → LoadShedder F → LoadShedder F
  unfolding update_shed_probability
  update_metrics cpu_percent memory_percent queue_depth ls = update_shed_probability (record ls {
    cpu_usage = to_uint64 (mul cpu_percent (lit 100 1));
    memory_usage = to_uint64 (mul memory_percent (lit 100 1));
    queue_depth = queue_depth;
  })
