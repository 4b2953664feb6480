-- ===== src/Detector/Window.antt =====
-- The rolling window of each shard's metrics.
use true_now.Base.{
  ℕ, ◌-◌, ◌≡◌, refl, sym, ap, ap₂, ◌∙◌, List, [], ◌∷◌, ◌++◌, if◌then◌else◌, ltb, eqb, eqb_iff,
  nat_eq, length, append_assoc, append_nil, latest, latest-latest, arith, Bool-cases, inl, inr,
}
use true_now.Base.Word.{Word}
use true_now.Base.Float.{Float64}
use true_now.Base.Map.{lookup, lookup-insert}
use true_now.Detector.Types.{ShardMetrics, RebalancerConfig, HotspotDetector}
use true_now.Detector.{new_hotspot_detector, history_of, add_to_history, update_metrics}

-- The metrics that updates give for a shard, in their order.
pub submitted : {F : Type 0} → ℕ → List (Word × ℕ × ShardMetrics F) → List (ShardMetrics F)
submitted shard [] = []
submitted shard ((now, s, metrics) ∷ updates) =
    let rest = submitted shard updates in if eqb s shard then metrics ∷ rest else rest

latest_twice {ℓ} : {A : Type ℓ} (n : ℕ) (xs : List A) → latest n (latest n xs) ≡ latest n xs
latest_twice n xs =
    sym (ap (latest n) (append_nil (latest n xs)))
    ∙ latest-latest n xs []
    ∙ ap (latest n) (append_nil xs)

module _ {F : Type 0} where
  add_to_history-latest :
      (size : ℕ) (metrics : ShardMetrics F) (history : List (ShardMetrics F))
      → add_to_history size metrics history ≡ latest size (history ++ (metrics ∷ []))
  unfolding add_to_history
  add_to_history-latest size metrics history =
      let longer = history ++ (metrics ∷ []) in
      elim (Bool-cases (ltb size (length longer))) [
        | inl t ↦ rw (add_to_history, t) refl
        | inr f ↦
            let none_out : length longer - size ≡ 0 = ground (arith, f) in
            rw (add_to_history, f, none_out) refl
      ]

module _ (fl : Float64) where
  open fl use {F}

  -- Updates one after another.
  pub update_all :
      (F → F) → List (Word × ℕ × ShardMetrics F) → HotspotDetector F → HotspotDetector F
  update_all sqrt [] d = d
  update_all sqrt ((now, s, metrics) ∷ updates) d =
      update_all sqrt updates (update_metrics fl sqrt now s metrics d)

  update_metrics-history :
      (sqrt : F → F) (now : Word) (s shard : ℕ) (metrics : ShardMetrics F) (d : HotspotDetector F)
      → let d' = update_metrics fl sqrt now s metrics d in
        (d'.history_size ≡ d.history_size)
        × (history_of shard d' ≡ (
            if eqb s shard
            then latest d.history_size (history_of s d ++ (metrics ∷ []))
            else history_of shard d))
  unfolding update_metrics history_of
  update_metrics-history sqrt now s shard metrics d = elim (Bool-cases (eqb s shard)) [
    | inl t ↦ (
      refl,
      rw (update_metrics, history_of, lookup-insert, t)
          (add_to_history-latest d.history_size metrics (history_of s d)),
    )
    | inr f ↦ (refl, rw (update_metrics, history_of, lookup-insert, f) refl)
  ]

  update_all-history :
      (sqrt : F → F) (shard : ℕ) (updates : List (Word × ℕ × ShardMetrics F))
      (d : HotspotDetector F)
      → latest d.history_size (history_of shard d) ≡ history_of shard d
      → history_of shard (update_all sqrt updates d)
        ≡ latest d.history_size (history_of shard d ++ submitted shard updates)
  unfolding update_all submitted
  update_all-history sqrt shard [] d kept =
      sym (ap (latest d.history_size) (append_nil (history_of shard d)) ∙ kept)
  update_all-history sqrt shard ((now, s, metrics) ∷ updates) d kept =
      let d' = update_metrics fl sqrt now s metrics d in
      let (size, history) = update_metrics-history sqrt now s shard metrics d in
      elim (Bool-cases (eqb s shard)) [
        | inl t ↦
            let n = d.history_size in
            let h = history_of shard d in
            let rest = submitted shard updates in
            let same = (eqb_iff s shard).0 t in
            let longer : history_of shard d' ≡ latest n (h ++ (metrics ∷ [])) =
              history ∙ rw (t, same) refl in
            let kept' : latest d'.history_size (history_of shard d') ≡ history_of shard d' =
              ap₂ latest size longer ∙ latest_twice n (h ++ (metrics ∷ [])) ∙ sym longer in
            rw (submitted, t)
              (update_all-history sqrt shard updates d' kept'
                ∙ ap₂ (λ j l. latest j (l ++ rest)) size longer
                ∙ latest-latest n (h ++ (metrics ∷ [])) rest
                ∙ ap (latest n) (append_assoc h (metrics ∷ []) rest))
        | inr f ↦
            let n = d.history_size in
            let rest = submitted shard updates in
            let same : history_of shard d' ≡ history_of shard d = history ∙ rw f refl in
            rw (submitted, f)
              (update_all-history sqrt shard updates d' (ap₂ latest size same ∙ kept ∙ sym same)
                ∙ ap₂ (λ j l. latest j (l ++ rest)) size same)
      ]

  -- After any updates from the start, the history of a shard is what was submitted for it, in order,
  -- the last sixty of it when it was more.
  pub history_of-update_all :
      (sqrt : F → F) (shard : ℕ) (updates : List (Word × ℕ × ShardMetrics F))
      (config : RebalancerConfig F)
      → history_of shard (update_all sqrt updates (new_hotspot_detector config))
        ≡ latest 60 (submitted shard updates)
  unfolding new_hotspot_detector history_of lookup
  history_of-update_all sqrt shard updates config =
      update_all-history sqrt shard updates (new_hotspot_detector config) refl
