-- ===== src/Adaptive/Limits.antt =====
-- The limits stay within their bounds.
use true_now.Base.{
  ◌+◌, ◌%◌, ◌^◌, ◌≤◌, ◌<◌, ◌≡◌, refl, sym, ◌∙◌, subst, Bool, true, false, Option, none, some, List,
  [], ◌∷◌, ltb, eqb, lt→ltb, length, length-set, length-replicate, set, get_elem?-within, inl, inr,
  ◌⊎◌, arith,
}
use native.Mathlib.Nat.{mod-lt}
use true_now.Base.Word.{Word, sle}
use true_now.Base.Float.{Float64}
use true_now.Adaptive.{
  AdaptiveConfig, AdaptiveController, Totals, record_latency, record_success,
  new_adaptive_controller, sum_window, scaled, decrease, increase, adjust_limits, adjust,
}
use true_now.Adaptive.Steps.{at_least_lem, at_most_lem, middle_lem, three_ways}

-- A configuration with a window and with bounds in order that are not negative.
pub record IsOrdered {F : Type 0} (config : AdaptiveConfig F) : Type 0 where
  pub window : 0 < config.window_size
  pub queue_order : config.min_queue_size ≤ config.max_queue_size
  pub rate_order : config.min_rate_limit ≤ config.max_rate_limit
  pub queue_small : config.max_queue_size < 2 ^ 62
  pub rate_small : config.max_rate_limit < 2 ^ 62

pub record IsBounded {F : Type 0} (ac : AdaptiveController F) : Type 0 where
  pub latency_slots : length ac.latencies ≡ ac.config.window_size
  pub success_slots : length ac.success_rates ≡ ac.config.window_size
  pub in_window : ac.index < ac.config.window_size
  pub queue_least : ac.config.min_queue_size ≤ ac.current_queue_size
  pub queue_most : ac.current_queue_size ≤ ac.config.max_queue_size
  pub rate_least : ac.config.min_rate_limit ≤ ac.current_rate_limit
  pub rate_most : ac.current_rate_limit ≤ ac.config.max_rate_limit

pub data AdaptiveOp : Type 0 where
  record_latency_op : Word → AdaptiveOp
  record_success_op : Bool → AdaptiveOp
  adjust_op : AdaptiveOp

module _ (fl : Float64) where
  open fl use {F, of_int64, to_int64, mul, lit, add}

  -- The rates move limits the way that their names say, within some bounds, and a conversion gives a
  -- word.
  pub record AreRates (config : AdaptiveConfig F) : Type 0 where
    pub word : (x : F) → to_int64 x < 2 ^ 64
    pub shrinks :
        (limit : Word) → limit < 2 ^ 62 → sle (scaled fl config.decrease_rate limit) limit ≡ true
    pub grows :
        (limit : Word) → limit < 2 ^ 62 → sle limit (scaled fl config.increase_rate limit) ≡ true

  pub step : AdaptiveOp → AdaptiveController F → Option (AdaptiveController F)
  step (record_latency_op ms) ac = record_latency ms ac
  step (record_success_op success) ac = record_success fl success ac
  step adjust_op ac = adjust fl ac

  pub run : List AdaptiveOp → AdaptiveController F → Option (AdaptiveController F)
  run [] ac = some ac
  run (op ∷ ops) ac = elim (step op ac) [ none ↦ none | some ac' ↦ run ops ac' ]

  decrease-IsBounded :
      (ac : AdaptiveController F)
      → IsOrdered ac.config
      → AreRates ac.config
      → IsBounded ac
      → IsBounded (decrease fl ac)
  unfolding decrease scaled
  decrease-IsBounded ac ordered rates b =
      let queue : ac.current_queue_size < 2 ^ 62 =
        omega (arith, b.queue_most, ordered.queue_small) in
      let rate : ac.current_rate_limit < 2 ^ 62 = omega (arith, b.rate_most, ordered.rate_small) in
      let (q, q') =
        at_least_lem ac.config.min_queue_size ac.current_queue_size _ b.queue_least queue
          (rates.word _) (rates.shrinks ac.current_queue_size queue) in
      let (r, r') =
        at_least_lem ac.config.min_rate_limit ac.current_rate_limit _ b.rate_least rate
          (rates.word _) (rates.shrinks ac.current_rate_limit rate) in
      record {
        latency_slots = b.latency_slots;
        success_slots = b.success_slots;
        in_window = b.in_window;
        queue_least = q;
        queue_most = omega (arith, q', b.queue_most);
        rate_least = r;
        rate_most = omega (arith, r', b.rate_most);
      }

  increase-IsBounded :
      (ac : AdaptiveController F)
      → IsOrdered ac.config
      → AreRates ac.config
      → IsBounded ac
      → IsBounded (increase fl ac)
  unfolding increase scaled
  increase-IsBounded ac ordered rates b =
      let queue : ac.current_queue_size < 2 ^ 62 =
        omega (arith, b.queue_most, ordered.queue_small) in
      let rate : ac.current_rate_limit < 2 ^ 62 = omega (arith, b.rate_most, ordered.rate_small) in
      let (q, q') =
        at_most_lem ac.config.max_queue_size ac.current_queue_size _ b.queue_most
          ordered.queue_small (rates.word _) (rates.grows ac.current_queue_size queue) in
      let (r, r') =
        at_most_lem ac.config.max_rate_limit ac.current_rate_limit _ b.rate_most ordered.rate_small
          (rates.word _) (rates.grows ac.current_rate_limit rate) in
      record {
        latency_slots = b.latency_slots;
        success_slots = b.success_slots;
        in_window = b.in_window;
        queue_least = omega (arith, q, b.queue_least);
        queue_most = q';
        rate_least = omega (arith, r, b.rate_least);
        rate_most = r';
      }

  -- The limits move by one of the two ways or stay.
  adjust_limits-ways :
      (t : Totals F) (ac : AdaptiveController F)
      → (adjust_limits fl t ac ≡ ac)
        ⊎ ((adjust_limits fl t ac ≡ decrease fl ac) ⊎ (adjust_limits fl t ac ≡ increase fl ac))
  unfolding adjust_limits
  adjust_limits-ways t ac = three_ways _ _ _ ac (decrease fl ac) (increase fl ac)

  record Follows (ac ac' : AdaptiveController F) : Type 0 where
    same_config : ac'.config ≡ ac.config
    bounded : IsBounded ac'

  adjust_limits-Follows :
      (t : Totals F) (ac : AdaptiveController F)
      → IsOrdered ac.config
      → AreRates ac.config
      → IsBounded ac
      → Follows ac (adjust_limits fl t ac)
  unfolding decrease increase
  adjust_limits-Follows t ac ordered rates b = elim (adjust_limits-ways t ac) [
    | inl stays ↦ subst (Follows ac) (sym stays) (record { same_config = refl; bounded = b })
    | inr (inl down) ↦
        subst (Follows ac) (sym down)
          (record { same_config = refl; bounded = decrease-IsBounded ac ordered rates b })
    | inr (inr up) ↦
        subst (Follows ac) (sym up)
          (record { same_config = refl; bounded = increase-IsBounded ac ordered rates b })
  ]

  step-Follows :
      (op : AdaptiveOp) (ac : AdaptiveController F)
      → IsOrdered ac.config
      → AreRates ac.config
      → IsBounded ac
      → (ac' : AdaptiveController F) × (step op ac ≡ some ac') × Follows ac ac'
  unfolding step record_latency record_success adjust
  step-Follows (record_latency_op ms) ac ordered rates b =
      let inside : ltb ac.index (length ac.latencies) ≡ true =
        lt→ltb ac.index (length ac.latencies) (omega (arith, b.in_window, b.latency_slots)) in
      (
        record ac { latencies = set ac.latencies ac.index ms },
        rw (step, record_latency, inside) refl,
        record {
          same_config = refl;
          bounded = record {
            latency_slots = length-set ac.latencies ac.index ms ∙ b.latency_slots;
            success_slots = b.success_slots;
            in_window = b.in_window;
            queue_least = b.queue_least;
            queue_most = b.queue_most;
            rate_least = b.rate_least;
            rate_most = b.rate_most;
          };
        },
      )
  step-Follows (record_success_op false) ac ordered rates b =
      (ac, refl, record { same_config = refl; bounded = b })
  step-Follows (record_success_op true) ac ordered rates b =
      let (rate, found) =
        get_elem?-within ac.success_rates ac.index (omega (arith, b.in_window, b.success_slots)) in
      let raised = add rate (lit 1 1) in
      (
        record ac { success_rates = set ac.success_rates ac.index raised },
        rw (step, record_success, found) refl,
        record {
          same_config = refl;
          bounded = record {
            latency_slots = b.latency_slots;
            success_slots = length-set ac.success_rates ac.index raised ∙ b.success_slots;
            in_window = b.in_window;
            queue_least = b.queue_least;
            queue_most = b.queue_most;
            rate_least = b.rate_least;
            rate_most = b.rate_most;
          };
        },
      )
  step-Follows adjust_op ac ordered rates b =
      let index = (ac.index + 1) % ac.config.window_size in
      let totals : Totals F =
        sum_window fl ac.latencies ac.success_rates
          (record { total_latency = 0; total_success = lit 0 1; count = 0 }) in
      let moved : AdaptiveController F = record ac {
        index = index;
        latencies = set ac.latencies index 0;
        success_rates = set ac.success_rates index (lit 0 1);
      } in
      let has_slots : eqb ac.config.window_size 0 ≡ false = ground (arith, ordered.window) in
      let bounded : IsBounded moved = record {
        latency_slots = length-set ac.latencies index 0 ∙ b.latency_slots;
        success_slots = length-set ac.success_rates index (lit 0 1) ∙ b.success_slots;
        in_window = mod-lt (ac.index + 1) {m = ac.config.window_size} ordered.window;
        queue_least = b.queue_least;
        queue_most = b.queue_most;
        rate_least = b.rate_least;
        rate_most = b.rate_most;
      } in
      let after = adjust_limits-Follows totals moved ordered rates bounded in
      (
        adjust_limits fl totals moved,
        rw (step, adjust, has_slots) refl,
        record { same_config = after.same_config; bounded = after.bounded },
      )

  run-IsBounded :
      (ops : List AdaptiveOp) (ac : AdaptiveController F)
      → IsOrdered ac.config
      → AreRates ac.config
      → IsBounded ac
      → (ac' : AdaptiveController F) × (run ops ac ≡ some ac') × Follows ac ac'
  unfolding run
  run-IsBounded [] ac ordered rates b = (ac, refl, record { same_config = refl; bounded = b })
  run-IsBounded (op ∷ ops) ac ordered rates b =
      let (ac', stepped, f) = step-Follows op ac ordered rates b in
      let (ac'', runs, g) =
        run-IsBounded ops ac' (subst IsOrdered (sym f.same_config) ordered)
          (subst AreRates (sym f.same_config) rates) f.bounded in
      (
        ac'',
        rw (run, stepped) runs,
        record { same_config = g.same_config ∙ f.same_config; bounded = g.bounded },
      )

  -- From the start, with a window, with minimums that are at most the maximums, bounds that are not
  -- negative and below 2 ^ 62, and rates that move a limit below 2 ^ 62 the way that they are named
  -- for: whatever is recorded and however often the limits are adjusted, nothing panics, the slots
  -- stay those of the window, and both limits stay within their bounds.
  pub run-new-IsBounded :
      (config : AdaptiveConfig F) (ops : List AdaptiveOp)
      → IsOrdered config
      → AreRates config
      → (ac : AdaptiveController F) × (run ops (new_adaptive_controller fl config) ≡ some ac)
        × (ac.config ≡ config)
        × IsBounded ac
  unfolding new_adaptive_controller
  run-new-IsBounded config ops ordered rates =
      let (q, q') =
        middle_lem config.min_queue_size config.max_queue_size ordered.queue_order
          ordered.queue_small in
      let (r, r') =
        middle_lem config.min_rate_limit config.max_rate_limit ordered.rate_order
          ordered.rate_small in
      let (ac, runs, f) =
        run-IsBounded ops (new_adaptive_controller fl config) ordered rates (record {
          latency_slots = length-replicate config.window_size 0;
          success_slots = length-replicate config.window_size (lit 0 1);
          in_window = ordered.window;
          queue_least = q;
          queue_most = q';
          rate_least = r;
          rate_most = r';
        }) in
      (ac, runs, f.same_config, f.bounded)
