-- ===== src/Shedder/Laws.antt =====
-- Which requests are shed, and how they are counted.
use true_now.Base.{
  ℕ, ◌+◌, ◌%◌, ◌^◌, ◌≤◌, ◌<◌, ◌≡◌, ◌∙◌, refl, Bool, true, false, if◌then◌else◌, List, [], ◌∷◌,
  arith, length, Bool-cases, inl, inr,
}
use true_now.Base.Word.{add64}
use true_now.Base.Float.{Float64}
use true_now.Backpressure.{Priority, low, normal, high, critical}
use true_now.Shedder.{
  LoadShedder, adjusted_probability, priority_shed, decide, shed_by, should_shed,
}

-- With one random number below 10,000, and a probability of at most 10,000, shedding by priority
-- sheds a request of high priority only if it sheds one of normal priority, and that only if it sheds
-- one of low priority.
priority_shed_order :
    {F : Type 0} (r : ℕ) (ls : LoadShedder F)
    → r < 10_000
    → ls.shed_probability ≤ 10_000
    → ((if priority_shed r high ls then priority_shed r normal ls else true) ≡ true)
      × ((if priority_shed r normal ls then priority_shed r low ls else true) ≡ true)
unfolding priority_shed adjusted_probability
priority_shed_order r ls below whole = (ground arith, ground arith)

module _ (fl : Float64) where
  -- Requests one after another, each with its random numbers: the decisions.
  pub shed_all : List (ℕ × fl.F × Priority) → LoadShedder fl.F → LoadShedder fl.F × List Bool
  shed_all [] ls = (ls, [])
  shed_all ((r, x, p) ∷ requests) ls =
      let (ls₁, shed) = should_shed fl r x p ls in
      let (ls₂, sheds) = shed_all requests ls₁ in (ls₂, shed ∷ sheds)

  -- How many of the decisions are to shed, and how many of these are on critical requests.
  abbrev pub trues : List Bool → ℕ
  trues [] = 0
  trues (true ∷ bs) = 1 + trues bs
  trues (false ∷ bs) = trues bs

  abbrev pub critical_shed : List (ℕ × fl.F × Priority) → List Bool → ℕ
  critical_shed ((r, x, critical) ∷ requests) (true ∷ bs) = 1 + critical_shed requests bs
  critical_shed (q ∷ requests) (b ∷ bs) = critical_shed requests bs
  critical_shed _ _ = 0

  -- What one decision does to the counters.
  abbrev Counts : LoadShedder fl.F → LoadShedder fl.F × Bool → Type 0
  Counts ls (ls', shed) =
      (ls'.total_requests ≡ ls.total_requests)
      × (ls'.shedded_requests ≡ (if shed then add64 ls.shedded_requests 1 else ls.shedded_requests))

  shed_by-Counts :
      (p : Priority) (r : ℕ) (x : fl.F) (ls : LoadShedder fl.F) → Counts ls (shed_by fl p r x ls)
  unfolding shed_by
  shed_by-Counts critical r x ls = (refl, refl)
  shed_by-Counts low r x ls = elim (Bool-cases (decide fl ls.strategy r x low ls)) [
    | inl t ↦ rw (t, shed_by) (refl, refl)
    | inr f ↦ rw (f, shed_by) (refl, refl)
  ]
  shed_by-Counts normal r x ls = elim (Bool-cases (decide fl ls.strategy r x normal ls)) [
    | inl t ↦ rw (t, shed_by) (refl, refl)
    | inr f ↦ rw (f, shed_by) (refl, refl)
  ]
  shed_by-Counts high r x ls = elim (Bool-cases (decide fl ls.strategy r x high ls)) [
    | inl t ↦ rw (t, shed_by) (refl, refl)
    | inr f ↦ rw (f, shed_by) (refl, refl)
  ]

  critical_kept :
      (r : ℕ) (x : fl.F) (p : Priority) (requests : List (ℕ × fl.F × Priority)) (shed : Bool)
      (bs : List Bool) (ls : LoadShedder fl.F)
      → (shed_by fl p r x ls).1 ≡ shed
      → critical_shed ((r, x, p) ∷ requests) (shed ∷ bs) ≡ critical_shed requests bs
  unfolding shed_by
  critical_kept r x critical requests true bs ls e = absurd (cc e)
  critical_kept r x critical requests false bs ls e = refl
  critical_kept r x low requests true bs ls e = refl
  critical_kept r x low requests false bs ls e = refl
  critical_kept r x normal requests true bs ls e = refl
  critical_kept r x normal requests false bs ls e = refl
  critical_kept r x high requests true bs ls e = refl
  critical_kept r x high requests false bs ls e = refl

  trues_cons : (b : Bool) (bs : List Bool) → trues (b ∷ bs) ≡ (if b then 1 else 0) + trues bs
  trues_cons true bs = refl
  trues_cons false bs = omega arith

  -- Whatever the strategy and the random numbers are, of any requests no critical one is shed, and
  -- the shedder counts the requests and those that it sheds, modulo 2 ^ 64.
  pub shed_all_counts :
      (requests : List (ℕ × fl.F × Priority)) (ls : LoadShedder fl.F)
      → let (ls', sheds) = shed_all requests ls in
        (critical_shed requests sheds ≡ 0)
        × (ls'.total_requests % 2 ^ 64 ≡ (ls.total_requests + length requests) % 2 ^ 64)
        × (ls'.shedded_requests % 2 ^ 64 ≡ (ls.shedded_requests + trues sheds) % 2 ^ 64)
  unfolding shed_all should_shed
  shed_all_counts [] ls = (refl, omega arith, omega arith)
  shed_all_counts ((r, x, p) ∷ requests) ls =
      let counted = record ls { total_requests = add64 ls.total_requests 1 } in
      let step = shed_by fl p r x counted in
      let one = shed_by-Counts p r x counted in
      let rest = shed_all_counts requests step.0 in
      let bs = (shed_all requests step.0).1 in
      (
        critical_kept r x p requests step.1 bs counted refl ∙ rest.0,
        omega (arith, one.0, rest.1),
        ground (arith, one.1, rest.2, trues_cons step.1 bs),
      )
