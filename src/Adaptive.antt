-- ===== src/Adaptive.antt =====
-- The gateway's adaptive limits (services/gateway/internal/backpressure/adaptive.go). An operation
-- runs alone: the records under the lock, and an adjustment as one step. `F` stands for float64.
pub mod Limits
pub mod Steps
mod Examples
use true_now.Base.{
  ℕ, zero, suc, ◌+◌, ◌%◌, Bool, true, false, not, ◌&&◌, ◌||◌, Option, none, some, List, [], ◌∷◌,
  if◌then◌else◌, ltb, eqb, length, set, replicate, get_elem?,
}
use true_now.Base.Word.{Word, add64, mul64, slt, sdiv}
use true_now.Base.Float.{Float64}

pub record AdaptiveConfig (F : Type 0) : Type 0 where
  pub target_latency_ms : Word
  pub target_success_rate : F
  pub min_queue_size : Word
  pub max_queue_size : Word
  pub min_rate_limit : Word
  pub max_rate_limit : Word
  pub increase_rate : F
  pub decrease_rate : F
  pub window_size : ℕ

-- `done_closed` says that the channel `done` is closed.
pub record AdaptiveController (F : Type 0) : Type 0 where
  pub config : AdaptiveConfig F
  pub current_queue_size : Word
  pub current_rate_limit : Word
  pub latencies : List Word
  pub success_rates : List F
  pub index : ℕ
  pub done_closed : Bool

-- The sums of the loop over the window.
pub record Totals (F : Type 0) : Type 0 where
  pub total_latency : Word
  pub total_success : F
  pub count : ℕ

-- What a limit is moved to: held at the minimum going down, at the maximum going up.
unfoldable pub at_least : Word → Word → Word
at_least least new = if slt new least then least else new

unfoldable pub at_most : Word → Word → Word
at_most most new = if slt most new then most else new

module _ {F : Type 0} where
  -- A write to a slot; `none` stands for the panic of an index past the end.
  unfoldable pub record_latency : Word → AdaptiveController F → Option (AdaptiveController F)
  record_latency ms ac =
      if ltb ac.index (length ac.latencies)
      then some (record ac { latencies = set ac.latencies ac.index ms })
      else none

  -- `none` stands for the panic of a channel that is closed twice.
  unfoldable pub stop : AdaptiveController F → Option (AdaptiveController F)
  stop ac = if ac.done_closed then none else some (record ac { done_closed = true })

module _ (fl : Float64) where
  open fl use {F, lit, add, mul, div, lt, of_int64, to_int64}

  unfoldable pub new_adaptive_controller : AdaptiveConfig F → AdaptiveController F
  new_adaptive_controller config = record {
    config = config;
    current_queue_size = sdiv (add64 config.min_queue_size config.max_queue_size) 2;
    current_rate_limit = sdiv (add64 config.min_rate_limit config.max_rate_limit) 2;
    latencies = replicate config.window_size 0;
    success_rates = replicate config.window_size (lit 0 1);
    index = 0;
    done_closed = false;
  }

  unfoldable pub record_success : Bool → AdaptiveController F → Option (AdaptiveController F)
  record_success success ac =
      if success
      then elim (get_elem? ac.success_rates ac.index) [
        | none ↦ none
        | some rate ↦
            some (record ac { success_rates = set ac.success_rates ac.index (add rate (lit 1 1)) })
      ]
      else some ac

  -- The slots that hold a latency; both lists have the length of the window.
  unfoldable pub sum_window : List Word → List F → Totals F → Totals F
  sum_window [] rates t = t
  sum_window (l ∷ ls) [] t = t
  sum_window (l ∷ ls) (r ∷ rs) t = sum_window ls rs (
      if slt 0 l
      then record {
        total_latency = add64 t.total_latency l;
        total_success = add t.total_success r;
        count = suc t.count;
      }
      else t)

  unfoldable pub scaled : F → Word → Word
  scaled rate limit = to_int64 (mul (of_int64 limit) rate)

  unfoldable pub decrease : AdaptiveController F → AdaptiveController F
  unfolding at_least scaled
  decrease ac = record ac {
    current_queue_size =
        at_least ac.config.min_queue_size (scaled ac.config.decrease_rate ac.current_queue_size);
    current_rate_limit =
        at_least ac.config.min_rate_limit (scaled ac.config.decrease_rate ac.current_rate_limit);
  }

  unfoldable pub increase : AdaptiveController F → AdaptiveController F
  unfolding at_most scaled
  increase ac = record ac {
    current_queue_size =
        at_most ac.config.max_queue_size (scaled ac.config.increase_rate ac.current_queue_size);
    current_rate_limit =
        at_most ac.config.max_rate_limit (scaled ac.config.increase_rate ac.current_rate_limit);
  }

  -- What the averages lead to.
  unfoldable pub adjust_limits : Totals F → AdaptiveController F → AdaptiveController F
  unfolding decrease increase
  adjust_limits t ac =
      if eqb t.count 0
      then ac
      else let latency = sdiv t.total_latency t.count in
        let success = mul (div t.total_success (of_int64 t.count)) (lit 100 1) in
        if slt ac.config.target_latency_ms latency || lt success ac.config.target_success_rate
        then decrease ac
        else if slt latency (sdiv (mul64 ac.config.target_latency_ms 8) 10)
            && lt ac.config.target_success_rate success
        then increase ac
        else ac

  -- The next slot is the current one from here on, and is cleared after the sums are made. `none` is
  -- the panic of a window without slots.
  unfoldable pub adjust : AdaptiveController F → Option (AdaptiveController F)
  unfolding sum_window adjust_limits
  adjust ac =
      if eqb ac.config.window_size 0
      then none
      else let index = (ac.index + 1) % ac.config.window_size in
        let totals : Totals F =
          sum_window ac.latencies ac.success_rates
            (record { total_latency = 0; total_success = lit 0 1; count = 0 }) in
        some (
          adjust_limits totals (record ac {
            index = index;
            latencies = set ac.latencies index 0;
            success_rates = set ac.success_rates index (lit 0 1);
          }))
