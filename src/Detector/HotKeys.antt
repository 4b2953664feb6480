-- ===== src/Detector/HotKeys.antt =====
-- The keys that take more than their share of a shard (DetectHotKeys).
use true_now.Base.{
  ◌≡◌, refl, sym, ap, ◌∙◌, String, Bool, true, false, Option, none, some, List, [], ◌∷◌, ◌||◌,
  if◌then◌else◌, eqb, ◌==◌, string_eq, length, Bool-cases, inl, inr, arith,
}
use true_now.Base.Float.{Float64}
use true_now.Base.Map.{Map, lookup, not-contains}
use true_now.Base.Keys.{HasUniqueKeys}
use true_now.Base.Sort.{sort, insert_sorted}
use true_now.Detector.Types.{HotKey}

module _ (fl : Float64) where
  open fl use {F, lit, add, div, lt, eq}

  unfoldable pub sum_values : Map String F → F → F
  sum_values [] total = total
  sum_values ((key, rps) ∷ metrics) total = sum_values metrics (add total rps)

  unfoldable pub keys_over : F → F → Map String F → List (HotKey F)
  keys_over threshold total [] = []
  keys_over threshold total ((key, rps) ∷ metrics) =
      let rest = keys_over threshold total metrics in
      let percent = div rps total in
      if lt threshold percent
      then record { key = key; requests_per_second = rps; percent_of_shard = percent } ∷ rest
      else rest

  abbrev pub busier : HotKey F → HotKey F → Bool
  busier a b = lt b.requests_per_second a.requests_per_second

  -- An empty list stands for nil as well.
  unfoldable pub detect_hot_keys : F → Map String F → List (HotKey F)
  unfolding sum_values keys_over sort
  detect_hot_keys threshold metrics =
      if eqb (length metrics) 0
      then []
      else let total = sum_values metrics (lit 0 1) in
        if eq total (lit 0 1) then [] else sort busier (keys_over threshold total metrics)

  abbrev pub is_listed : String → List (HotKey F) → Bool
  is_listed key [] = false
  is_listed key (hk ∷ hks) = hk.key == key || is_listed key hks

  -- Whether a key takes more than its share of the total.
  abbrev pub is_over : F → F → Option F → Bool
  is_over threshold total none = false
  is_over threshold total (some rps) =
      if eq total (lit 0 1) then false else lt threshold (div rps total)

  is_listed-insert_sorted :
      (key : String) (hk : HotKey F) (hks : List (HotKey F))
      → is_listed key (insert_sorted busier hk hks) ≡ (hk.key == key || is_listed key hks)
  unfolding insert_sorted
  is_listed-insert_sorted key hk [] = refl
  is_listed-insert_sorted key hk (other ∷ hks) = elim (Bool-cases (busier other hk)) [
    | inl t ↦ rw (insert_sorted, t) (ground (arith, is_listed-insert_sorted key hk hks))
    | inr f ↦ rw (insert_sorted, f) refl
  ]

  is_listed-sort :
      (key : String) (hks : List (HotKey F)) → is_listed key (sort busier hks) ≡ is_listed key hks
  unfolding sort
  is_listed-sort key [] = refl
  is_listed-sort key (hk ∷ hks) =
      is_listed-insert_sorted key hk (sort busier hks)
      ∙ ap (λ b. hk.key == key || b) (is_listed-sort key hks)

  is_listed-keys_over :
      (key : String) (threshold total : F) (metrics : Map String F)
      → eq total (lit 0 1) ≡ false
      → HasUniqueKeys metrics
      → is_listed key (keys_over threshold total metrics)
        ≡ is_over threshold total (lookup key metrics)
  unfolding keys_over lookup
  is_listed-keys_over key threshold total [] busy unique = refl
  is_listed-keys_over key threshold total ((name, rps) ∷ metrics) busy unique =
      let rest = is_listed-keys_over key threshold total metrics busy unique.1 in
      elim (Bool-cases (name == key)) [
        | inl t ↦
            let same = (string_eq.beq_iff name key).0 t in
            let gone : lookup key metrics ≡ none = not-contains key metrics (rw same at unique.0) in
            let absent : is_listed key (keys_over threshold total metrics) ≡ false =
              rw gone at rest in
            elim (Bool-cases (lt threshold (div rps total))) [
              | inl u ↦ rw (keys_over, u, lookup, t, busy, u) refl
              | inr v ↦ rw (keys_over, v, lookup, t, busy, v) absent
            ]
        | inr f ↦ elim (Bool-cases (lt threshold (div rps total))) [
          | inl u ↦ rw (keys_over, u, lookup, f) rest
          | inr v ↦ rw (keys_over, v, lookup, f) rest
        ]
      ]

  is_over-idle :
      (threshold total : F) (rps : Option F)
      → eq total (lit 0 1) ≡ true
      → is_over threshold total rps ≡ false
  is_over-idle threshold total none idle = refl
  is_over-idle threshold total (some rps) idle = rw idle refl

  -- The keys that are reported are those that the shard has whose share of the total rate is over the
  -- threshold, none if that total is 0.
  pub detect_hot_keys_lem :
      (key : String) (threshold : F) (metrics : Map String F)
      → HasUniqueKeys metrics
      → is_listed key (detect_hot_keys threshold metrics)
        ≡ is_over threshold (sum_values metrics (lit 0 1)) (lookup key metrics)
  unfolding detect_hot_keys lookup
  detect_hot_keys_lem key threshold [] unique = refl
  detect_hot_keys_lem key threshold ((name, rps) ∷ metrics) unique =
      let all = (name, rps) ∷ metrics in
      let total = sum_values all (lit 0 1) in
      let filled : eqb (length all) 0 ≡ false = ground arith in
      elim (Bool-cases (eq total (lit 0 1))) [
        | inl t ↦
            rw (detect_hot_keys, filled, t) (sym (is_over-idle threshold total (lookup key all) t))
        | inr f ↦
            rw (detect_hot_keys, filled, f)
              (is_listed-sort key (keys_over threshold total all)
                ∙ is_listed-keys_over key threshold total all f unique)
      ]
