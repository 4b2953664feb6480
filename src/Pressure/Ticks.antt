-- ===== src/Pressure/Ticks.antt =====
-- What the ticks of the evaluation loop lead to.
use true_now.Base.{
  ℕ, zero, suc, ◌-◌, ◌^◌, ◌≤◌, ◌<◌, ◌≡◌, refl, sym, ap, ◌∙◌, false, Option, none, some, List, [],
  ◌∷◌, ◌++◌, ltb, eqb, eqb_iff, length, length-append, append_assoc, append_nil, empty_of_length,
  drop-append, length-replicate, drop, length-drop, replicate, arith, Bool-cases, inl, inr, ◌⊎◌,
  subst,
}
use true_now.Base.Word.{slt}
use true_now.Base.Float.{Float64}
use true_now.Pressure.Config.{BackpressureLevel}
use true_now.Pressure.{
  BackpressureCoordinator, keep_recent, get_smoothed_level, calculate_level, window_size, set_level,
  tick,
}
use true_now.Pressure.Smoothing.{occurrences-replicate, get_smoothed_level-occurrences}

module _ {ℓ} {A : Type ℓ} where
  replicate_snoc : (k : ℕ) (a : A) → replicate k a ++ (a ∷ []) ≡ replicate (suc k) a
  replicate_snoc zero a = refl
  replicate_snoc (suc k) a = ap (λ l. a ∷ l) (replicate_snoc k a)

smoothed-replicate :
    (level : BackpressureLevel) (k : ℕ) → get_smoothed_level (replicate (suc k) level) ≡ level
smoothed-replicate level k =
    let (some_, most) =
      get_smoothed_level-occurrences level (replicate (suc k) level) (omega arith) in
    occurrences-replicate (get_smoothed_level (replicate (suc k) level)) level (suc k) some_

-- A history that ends in the same level a number of times, within a window.
record EndsIn (level : BackpressureLevel) (k w : ℕ) (history : List BackpressureLevel)
    : Type 0 where
  older : List BackpressureLevel
  ends : history ≡ older ++ replicate k level
  within : length history ≤ w

keep_recent-EndsIn :
    (level : BackpressureLevel) (k w : ℕ) (history : List BackpressureLevel)
    → EndsIn level k w history
    → k < w
    → w < 2 ^ 63
    → (recent : List BackpressureLevel) × (keep_recent w (history ++ (level ∷ [])) ≡ some recent)
      × EndsIn level (suc k) w recent
unfolding keep_recent
keep_recent-EndsIn level k w history e more small =
    let positive : slt w 0 ≡ false = ground (arith, small) in
    let longer = history ++ (level ∷ []) in
    let count = length-append history (level ∷ []) in
    let grown : longer ≡ e.older ++ replicate (suc k) level =
      ap (λ h. h ++ (level ∷ [])) e.ends
      ∙ append_assoc e.older (replicate k level) (level ∷ [])
      ∙ ap (λ r. e.older ++ r) (replicate_snoc k level) in
    elim (Bool-cases (ltb w (length longer))) [
      | inr f ↦ (
        longer,
        rw (keep_recent, positive, f) refl,
        record { older = e.older; ends = grown; within = ground (arith, f) },
      )
      | inl t ↦
          let m = length longer - w in
          let total = ap length grown ∙ length-append e.older (replicate (suc k) level) in
          let tail = length-replicate (suc k) level in
          let enough : m ≤ length e.older = omega (arith, total, tail, more) in
          (
            drop m longer,
            rw (keep_recent, positive, t) refl,
            record {
              older = drop m e.older;
              ends = ap (drop m) grown ∙ drop-append m e.older (replicate (suc k) level) enough;
              within = omega (arith, length-drop m longer);
            },
          )
    ]

module _ (fl : Float64) where
  open fl use {F}

  -- Ticks one after another, with no other call in between.
  pub ticks : ℕ → BackpressureCoordinator F → Option (BackpressureCoordinator F)
  ticks zero bc = some bc
  ticks (suc k) bc = elim (ticks k bc) [
    | none ↦ none
    | some bc' ↦ elim (tick fl bc') [ none ↦ none | some ticked ↦ some ticked.0 ]
  ]

  calculate_level-same :
      (bc bc' : BackpressureCoordinator F)
      → bc'.config ≡ bc.config
      → bc'.service_states ≡ bc.service_states
      → calculate_level fl bc' ≡ calculate_level fl bc
  unfolding calculate_level
  calculate_level-same bc bc' config states = rw (calculate_level, config, states) refl

  set_level_lem :
      (level : BackpressureLevel) (bc : BackpressureCoordinator F)
      → let bc' = (set_level fl level bc).0 in
        (bc'.current_level ≡ level)
        × (bc'.config ≡ bc.config)
        × (bc'.service_states ≡ bc.service_states)
        × (bc'.level_history ≡ bc.level_history)
  unfolding set_level
  set_level_lem level bc = elim (Bool-cases (eqb level bc.current_level)) [
    | inl t ↦ rw (set_level, t) (sym ((eqb_iff level bc.current_level).0 t), refl, refl, refl)
    | inr f ↦ rw (set_level, f) (refl, refl, refl, refl)
  ]

  record Settles (k : ℕ) (bc bc' : BackpressureCoordinator F) : Type 0 where
    same_config : bc'.config ≡ bc.config
    same_states : bc'.service_states ≡ bc.service_states
    history : EndsIn (calculate_level fl bc) k (window_size fl bc) bc'.level_history
    smoothed : (k ≡ 0) ⊎ (bc'.current_level ≡ get_smoothed_level bc'.level_history)

  tick-Settles :
      (k : ℕ) (bc bc' : BackpressureCoordinator F)
      → k < window_size fl bc
      → window_size fl bc < 2 ^ 63
      → Settles k bc bc'
      → (bc'' : BackpressureCoordinator F) × (told : Option (BackpressureLevel × BackpressureLevel))
        × (tick fl bc' ≡ some (bc'', told))
        × Settles (suc k) bc bc''
  unfolding tick
  tick-Settles k bc bc' more small s =
      let w = window_size fl bc in
      let level = calculate_level fl bc in
      let same = calculate_level-same bc bc' s.same_config s.same_states in
      let (recent, kept, ends) =
        keep_recent-EndsIn level k w bc'.level_history s.history more small in
      let bcr : BackpressureCoordinator F = record bc' { level_history = recent } in
      let result = set_level fl (get_smoothed_level recent) bcr in
      let (now, config, states, history) = set_level_lem (get_smoothed_level recent) bcr in
      let windows : window_size fl bc' ≡ w = rw (s.same_config) refl in
      let ticked : tick fl bc' ≡ some result = rw (tick, same, windows, kept) refl in
      (
        result.0,
        result.1,
        ticked,
        record {
          same_config = config ∙ s.same_config;
          same_states = states ∙ s.same_states;
          history = subst (EndsIn level (suc k) w) (sym history) ends;
          smoothed = inr (now ∙ ap get_smoothed_level (sym history));
        },
      )

  ticks-Settles :
      (k : ℕ) (bc : BackpressureCoordinator F)
      → k ≤ window_size fl bc
      → window_size fl bc < 2 ^ 63
      → length bc.level_history ≤ window_size fl bc
      → (bc' : BackpressureCoordinator F) × (ticks k bc ≡ some bc') × Settles k bc bc'
  unfolding ticks
  ticks-Settles zero bc few small short = (
    bc,
    refl,
    record {
      same_config = refl;
      same_states = refl;
      history = record {
        older = bc.level_history;
        ends = sym (append_nil bc.level_history);
        within = short;
      };
      smoothed = inl refl;
    },
  )
  ticks-Settles (suc k) bc few small short =
      let (bc', before, s) = ticks-Settles k bc (omega (arith, few)) small short in
      let (bc'', told, ticked, s') = tick-Settles k bc bc' (omega (arith, few)) small s in
      (bc'', rw (ticks, before, ticked) refl, s')

  -- When as many ticks as the smoothing window holds follow each other and no service is updated in
  -- between, the ticks go through, the current level is then the one that the services' states give,
  -- and the history is no longer than the window (which holds at least one tick and less than 2 ^ 63,
  -- and no less than the history at the start).
  pub ticks-calculate_level :
      (k : ℕ) (bc : BackpressureCoordinator F)
      → window_size fl bc ≡ suc k
      → suc k < 2 ^ 63
      → length bc.level_history ≤ suc k
      → (bc' : BackpressureCoordinator F) × (ticks (suc k) bc ≡ some bc')
        × (bc'.current_level ≡ calculate_level fl bc)
        × (length bc'.level_history ≤ suc k)
  ticks-calculate_level k bc window small short =
      let level = calculate_level fl bc in
      let (bc', runs, s) =
        ticks-Settles (suc k) bc (omega (arith, window)) (omega (arith, window, small))
          (omega (arith, window, short)) in
      let older = s.history.older in
      let total = ap length s.history.ends ∙ length-append older (replicate (suc k) level) in
      let gone =
        empty_of_length older
          (omega (arith, total, length-replicate (suc k) level, s.history.within, window)) in
      let all : bc'.level_history ≡ replicate (suc k) level =
        s.history.ends ∙ ap (λ l. l ++ replicate (suc k) level) gone in
      elim s.smoothed [
        | inl never ↦ absurd (omega (arith, never))
        | inr now ↦ (
          bc',
          runs,
          now ∙ ap get_smoothed_level all ∙ smoothed-replicate level k,
          omega (arith, s.history.within, window),
        )
      ]
