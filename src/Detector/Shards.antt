-- ===== src/Detector/Shards.antt =====
-- Which shards an analysis lists as hot and as cold.
use true_now.Base.{
  ℕ, ◌≡◌, refl, sym, ap, ap₂, ◌∙◌, Bool, true, false, not, ◌&&◌, ◌||◌, Option, none, some, List, [],
  ◌∷◌, ◌++◌, eqb, eqb_iff, nat_eq, length, empty_of_length, Bool-cases, inl, inr, arith,
}
use true_now.Base.Word.{Word}
use true_now.Base.Float.{Float64}
use true_now.Base.Map.{Map, lookup, not-contains}
use true_now.Base.Keys.{HasUniqueKeys}
use true_now.Detector.Types.{ShardMetrics, HotspotDetector}
use true_now.Detector.Analysis.{
  Listed, collect_latest, list_shard, list_shards, nothing_collected, nothing_listed,
  distribution_of, analyze_distribution,
}
use true_now.Detector.Latest.{
  newest_in, average_rate, collect_latest-fits, collect_latest-CollectsAll,
}

abbrev pub is_member : ℕ → List ℕ → Bool
is_member shard [] = false
is_member shard (s ∷ shards) = eqb s shard || is_member shard shards

is_member-append :
    (shard s : ℕ) (shards : List ℕ)
    → is_member shard (shards ++ (s ∷ [])) ≡ (is_member shard shards || eqb s shard)
is_member-append shard s [] = ground arith
is_member-append shard s (x ∷ shards) = ground (arith, is_member-append shard s shards)

joins_here :
    (listed here rest all first found : Bool)
    → here ≡ true
    → rest ≡ false
    → first ≡ (listed || (here && found))
    → all ≡ (first || rest)
    → all ≡ (listed || found)
joins_here listed here rest all first found h r f a = ground (arith, h, r, f, a)

joins_later :
    (listed here rest all first found : Bool)
    → here ≡ false
    → first ≡ (listed || (here && found))
    → all ≡ (first || rest)
    → all ≡ (listed || rest)
joins_later listed here rest all first found h f a = ground (arith, h, f, a)

module _ (fl : Float64) where
  open fl use {F, div, lt, of_int64}

  -- A shard is hot, or cold, by the ratio of its rate to the average.
  abbrev pub is_hot : HotspotDetector F → F → Option (ShardMetrics F) → Bool
  is_hot d average none = false
  is_hot d average (some m) = lt d.config.hot_shard_threshold (div m.requests_per_second average)

  abbrev pub is_cold : HotspotDetector F → F → Option (ShardMetrics F) → Bool
  is_cold d average none = false
  is_cold d average (some m) =
      not (lt d.config.hot_shard_threshold (div m.requests_per_second average))
      && lt (div m.requests_per_second average) d.config.cold_shard_threshold

  list_shard_lem :
      (d : HotspotDetector F) (average : F) (shard s : ℕ) (metrics : ShardMetrics F) (l : Listed F)
      → let l' = list_shard fl d average s metrics l in
        (is_member shard l'.hot_shards
          ≡ (is_member shard l.hot_shards || (eqb s shard && is_hot d average (some metrics))))
        × (is_member shard l'.cold_shards
            ≡ (is_member shard l.cold_shards || (eqb s shard && is_cold d average (some metrics))))
  unfolding list_shard
  list_shard_lem d average shard s metrics l =
      let ratio = div metrics.requests_per_second average in
      elim (Bool-cases (lt d.config.hot_shard_threshold ratio)) [
        | inl t ↦
            rw (list_shard, t) (ground (arith, is_member-append shard s l.hot_shards), ground arith)
        | inr f ↦ elim (Bool-cases (lt ratio d.config.cold_shard_threshold)) [
          | inl u ↦
              rw (list_shard, f, u)
                (ground arith, ground (arith, is_member-append shard s l.cold_shards))
          | inr v ↦ rw (list_shard, f, v) (ground arith, ground arith)
        ]
      ]

  list_shards_lem :
      (d : HotspotDetector F) (average : F) (shard : ℕ) (m : Map ℕ (ShardMetrics F)) (l : Listed F)
      → HasUniqueKeys m
      → let l' = list_shards fl d average m l in
        (is_member shard l'.hot_shards
          ≡ (is_member shard l.hot_shards || is_hot d average (lookup shard m)))
        × (is_member shard l'.cold_shards
            ≡ (is_member shard l.cold_shards || is_cold d average (lookup shard m)))
  unfolding list_shards lookup
  list_shards_lem d average shard [] l unique = (ground arith, ground arith)
  list_shards_lem d average shard ((s, metrics) ∷ m) l unique =
      let (hot, cold) = list_shard_lem d average shard s metrics l in
      let (hots, colds) =
        list_shards_lem d average shard m (list_shard fl d average s metrics l) unique.1 in
      elim (Bool-cases (eqb s shard)) [
        | inl t ↦
            let same = (eqb_iff s shard).0 t in
            let gone : lookup shard m ≡ none = not-contains shard m (rw same at unique.0) in
            rw (list_shards, lookup, t)
              (
                joins_here _ _ _ _ _ _ t (ap (is_hot d average) gone) hot hots,
                joins_here _ _ _ _ _ _ t (ap (is_cold d average) gone) cold colds,
              )
        | inr f ↦
            rw (list_shards, lookup, f)
              (joins_later _ _ _ _ _ _ f hot hots, joins_later _ _ _ _ _ _ f cold colds)
      ]

  -- In an analysis of a detector whose map of histories has one entry for a key: a shard is in the hot
  -- list just when its latest rate, that of the last metrics of its history, divided by the average of
  -- the latest rates of all shards that have metrics, is over the threshold for hot shards; and in the
  -- cold list just when it is not over that one and is under the threshold for cold shards. A shard
  -- without metrics is in neither.
  pub analyze_distribution_lem :
      (sqrt abs : F → F) (now later : Word) (d : HotspotDetector F) (shard : ℕ)
      → HasUniqueKeys d.metrics_history
      → let dist = (analyze_distribution fl sqrt abs now later d).1 in
        let metrics = newest_in fl shard d.metrics_history in
        (is_member shard dist.hot_shards ≡ is_hot d (average_rate fl d) metrics)
        × (is_member shard dist.cold_shards ≡ is_cold d (average_rate fl d) metrics)
  unfolding analyze_distribution distribution_of lookup
  analyze_distribution_lem sqrt abs now later d shard unique =
      let latest = collect_latest fl d.metrics_history (nothing_collected fl) in
      let (keys, fits) =
        collect_latest-fits fl d.metrics_history (nothing_collected fl) tt (omega arith) in
      let all = collect_latest-CollectsAll fl d unique in
      elim (Bool-cases (eqb (length latest.rps_values) 0)) [
        | inl t ↦
            let empty = empty_of_length latest.shard_metrics (ground (arith, t, fits)) in
            let missing : newest_in fl shard d.metrics_history ≡ none =
              sym (all.metrics shard) ∙ rw empty refl in
            rw (analyze_distribution, t, missing) (refl, refl)
        | inr f ↦
            let average : div latest.total_rps (of_int64 (length latest.rps_values))
                ≡ average_rate fl d =
              rw (all.rates, all.total) refl in
            let listed =
              list_shards_lem d (div latest.total_rps (of_int64 (length latest.rps_values))) shard
                latest.shard_metrics (nothing_listed fl) keys in
            rw (analyze_distribution, f)
              (
                listed.0 ∙ ap₂ (is_hot d) average (all.metrics shard),
                listed.1 ∙ ap₂ (is_cold d) average (all.metrics shard),
              )
      ]
