-- ===== src/Detector/Latest.antt =====
-- What the first loop of an analysis collects: the latest metrics of each shard, and their rates.
use true_now.Base.{
  ℕ, ◌+◌, ◌-◌, ◌≤◌, ◌≡◌, refl, sym, ap, ◌∙◌, Option, none, some, List, [], ◌∷◌, ◌++◌, eqb, eqb_iff,
  nat_eq, length, length-append, get_elem?, append_nil, append_assoc, Bool-cases, Option-cases, inl,
  inr, arith,
}
use true_now.Base.Float.{Float64}
use true_now.Base.Map.{Map, lookup, insert, not-contains, lookup-insert}
use true_now.Base.Keys.{HasUniqueKeys, insert-HasUniqueKeys}
use true_now.Detector.Types.{ShardMetrics, HotspotDetector}
use true_now.Detector.{last_of}
use true_now.Detector.Analysis.{Latest, collect_latest, nothing_collected}

length-insert : {V : Type 0} (k : ℕ) (v : V) (m : Map ℕ V) → length (insert k v m) ≤ length m + 1
unfolding insert
length-insert k v [] = omega arith
length-insert k v ((i, w) ∷ m) = ground (arith, length-insert k v m)

module _ (fl : Float64) where
  open fl use {F, lit, add, div, of_int64}

  pub collect_latest-fits :
      (m : Map ℕ (List (ShardMetrics F))) (l : Latest F)
      → HasUniqueKeys l.shard_metrics
      → length l.shard_metrics ≤ length l.rps_values
      → let l' = collect_latest fl m l in
        HasUniqueKeys l'.shard_metrics × (length l'.shard_metrics ≤ length l'.rps_values)
  unfolding collect_latest
  collect_latest-fits [] l unique fits = (unique, fits)
  collect_latest-fits ((shard, history) ∷ m) l unique fits = elim (Option-cases (last_of history)) [
    | inl nothing ↦ rw (collect_latest, nothing) (collect_latest-fits m l unique fits)
    | inr (latest, found) ↦
        let longer = length-append l.rps_values (latest.requests_per_second ∷ []) in
        let grown = length-insert shard latest l.shard_metrics in
        rw (collect_latest, found)
          (collect_latest-fits m _ (insert-HasUniqueKeys shard latest l.shard_metrics unique)
            (omega (arith, longer, grown, fits)))
  ]

  -- The metrics of a shard that came in last.
  pub newest : List (ShardMetrics F) → Option (ShardMetrics F)
  newest history = get_elem? history (length history - 1)

  abbrev newest_of : Option (List (ShardMetrics F)) → Option (ShardMetrics F)
  newest_of none = none
  newest_of (some history) = newest history

  pub newest_in : ℕ → Map ℕ (List (ShardMetrics F)) → Option (ShardMetrics F)
  newest_in shard m = newest_of (lookup shard m)

  abbrev with_rate : Option (ShardMetrics F) → List F → List F
  with_rate none rates = rates
  with_rate (some metrics) rates = metrics.requests_per_second ∷ rates

  -- The latest rates of the shards that have metrics, in the order of the map.
  pub latest_rates : Map ℕ (List (ShardMetrics F)) → List F
  latest_rates [] = []
  latest_rates ((shard, history) ∷ m) = with_rate (newest history) (latest_rates m)

  abbrev pub sum_from : F → List F → F
  sum_from total [] = total
  sum_from total (rate ∷ rates) = sum_from (add total rate) rates

  -- The average of the latest rates.
  abbrev pub average_rate : HotspotDetector F → F
  average_rate d =
      let rates = latest_rates d.metrics_history in
      div (sum_from (lit 0 1) rates) (of_int64 (length rates))

  last_of-newest : (history : List (ShardMetrics F)) → last_of history ≡ newest history
  unfolding last_of newest
  last_of-newest [] = refl
  last_of-newest (m ∷ []) = refl
  last_of-newest (m ∷ m' ∷ history) = ground (arith, last_of-newest (m' ∷ history))

  -- A value that is there takes the place of another.
  abbrev or_else : {A : Type 0} → Option A → Option A → Option A
  or_else none other = other
  or_else (some a) other = some a

  record Collected (m : Map ℕ (List (ShardMetrics F))) (l l' : Latest F) : Type 0 where
    rates : l'.rps_values ≡ l.rps_values ++ latest_rates m
    total : l'.total_rps ≡ sum_from l.total_rps (latest_rates m)

  collect_latest-Collected :
      (m : Map ℕ (List (ShardMetrics F))) (l : Latest F) → Collected m l (collect_latest fl m l)
  unfolding collect_latest latest_rates
  collect_latest-Collected [] l = record { rates = sym (append_nil l.rps_values); total = refl }
  collect_latest-Collected ((shard, history) ∷ m) l = elim (Option-cases (newest history)) [
    | inl nothing ↦
        let e : last_of history ≡ none = last_of-newest history ∙ nothing in
        let rest = collect_latest-Collected m l in
        record {
          rates = rw (e, collect_latest, nothing, latest_rates) rest.rates;
          total = rw (e, collect_latest, nothing, latest_rates) rest.total;
        }
    | inr (latest, found) ↦
        let e : last_of history ≡ some latest = last_of-newest history ∙ found in
        let rest = collect_latest-Collected m (record {
          shard_metrics = insert shard latest l.shard_metrics;
          total_rps = add l.total_rps latest.requests_per_second;
          total_bps = add l.total_bps latest.bytes_per_second;
          rps_values = l.rps_values ++ (latest.requests_per_second ∷ []);
        }) in
        record {
          rates =
              rw (e, collect_latest, found, latest_rates)
                (rest.rates ∙ append_assoc l.rps_values (latest.requests_per_second ∷ []) _);
          total = rw (e, collect_latest, found, latest_rates) rest.total;
        }
  ]

  collect_latest-lookup :
      (shard : ℕ) (m : Map ℕ (List (ShardMetrics F))) (l : Latest F)
      → HasUniqueKeys m
      → lookup shard (collect_latest fl m l).shard_metrics
        ≡ or_else (newest_in shard m) (lookup shard l.shard_metrics)
  unfolding collect_latest lookup newest_in
  collect_latest-lookup shard [] l unique = refl
  collect_latest-lookup shard ((s, history) ∷ m) l unique = elim (Option-cases (newest history)) [
    | inl nothing ↦
        let e : last_of history ≡ none = last_of-newest history ∙ nothing in
        let rest = collect_latest-lookup shard m l unique.1 in
        elim (Bool-cases (eqb s shard)) [
          | inl t ↦
              let gone : lookup shard m ≡ none =
                not-contains shard m (rw ((eqb_iff s shard).0 t) at unique.0) in
              rw (e, collect_latest, t, lookup, nothing) (rw (gone, newest_in) at rest)
          | inr f ↦ rw (e, collect_latest, f, lookup) rest
        ]
    | inr (latest, found) ↦
        let e : last_of history ≡ some latest = last_of-newest history ∙ found in
        let rest =
          collect_latest-lookup shard m
            (record {
              shard_metrics = insert s latest l.shard_metrics;
              total_rps = add l.total_rps latest.requests_per_second;
              total_bps = add l.total_bps latest.bytes_per_second;
              rps_values = l.rps_values ++ (latest.requests_per_second ∷ []);
            })
            unique.1 in
        let put = lookup-insert s shard latest l.shard_metrics in
        elim (Bool-cases (eqb s shard)) [
          | inl t ↦
              let gone : lookup shard m ≡ none =
                not-contains shard m (rw ((eqb_iff s shard).0 t) at unique.0) in
              rw (e, collect_latest, t, lookup, found)
                ((rw (gone, newest_in) at rest) ∙ put ∙ rw t refl)
          | inr f ↦
              rw (e, collect_latest, f, lookup)
                (rest ∙ ap (or_else (newest_in shard m)) (put ∙ rw f refl))
        ]
  ]

  or_else-none : {A : Type 0} (a : Option A) → or_else a none ≡ a
  or_else-none none = refl
  or_else-none (some a) = refl

  -- What the loop collects of a detector.
  pub record CollectsAll (d : HotspotDetector F) (l : Latest F) : Type 0 where
    pub rates : l.rps_values ≡ latest_rates d.metrics_history
    pub total : l.total_rps ≡ sum_from (lit 0 1) (latest_rates d.metrics_history)
    pub metrics : (shard : ℕ) → lookup shard l.shard_metrics ≡ newest_in shard d.metrics_history

  pub collect_latest-CollectsAll :
      (d : HotspotDetector F)
      → HasUniqueKeys d.metrics_history
      → CollectsAll d (collect_latest fl d.metrics_history (nothing_collected fl))
  unfolding lookup
  collect_latest-CollectsAll d unique =
      let c = collect_latest-Collected d.metrics_history (nothing_collected fl) in
      record {
        rates = c.rates;
        total = c.total;
        metrics = λ shard.
            collect_latest-lookup shard d.metrics_history (nothing_collected fl) unique
            ∙ or_else-none (newest_in shard d.metrics_history);
      }
