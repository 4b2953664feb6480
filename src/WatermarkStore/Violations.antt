-- ===== src/WatermarkStore/Violations.antt =====
-- The violations of the freshness objectives (checkSLOViolation).
use true_now.Base.{
  ℕ, suc, ◌/◌, ◌≤◌, nat_eq, ◌≡◌, inl, inr, refl, String, Bool, true, false, ◌&&◌, none, some, List,
  [], ◌∷◌, if◌then◌else◌, ◌==◌, string_eq, arith, Bool-cases,
}
use true_now.Base.Word.{Word, slt, time_sub}
use true_now.Base.Map.{Map, lookup}
use true_now.WatermarkStore.Types.{SloViolation, FreshnessConfig}
use true_now.WatermarkStore.TableKey.{table_key}

-- `d.Milliseconds()` of a duration that is not negative.
abbrev pub milliseconds : Word → Word
milliseconds d = d / 1_000_000

abbrev pub is_of : String → String → SloViolation → Bool
is_of namespace table v = v.namespace == namespace && v.table == table

abbrev default_freshness_config : String → String → FreshnessConfig
default_freshness_config namespace table = record {
  namespace = namespace;
  table = table;
  target_freshness_p50 = 0;
  target_freshness_p95 = 0;
  target_freshness_p99 = 30_000;
  alert_threshold = 60_000;
  critical_threshold = 120_000;
}

unfoldable pub config_of : String → String → Map String FreshnessConfig → FreshnessConfig
config_of namespace table configs = elim (lookup (table_key namespace table) configs) [
  | none ↦ default_freshness_config namespace table
  | some config ↦ config
]

-- The first violation of the table is brought up to date; there is a new one if there is none.
unfoldable pub raise_violation :
    Word → String → String → Word → Word → String → List SloViolation → List SloViolation
raise_violation now namespace table target freshness severity [] =
    record {
      namespace = namespace;
      table = table;
      slo_target = target;
      actual_freshness = freshness;
      violation_start = now;
      duration = 0;
      severity = severity;
    }
    ∷ []
raise_violation now namespace table target freshness severity (v ∷ vs) =
    let rest = raise_violation now namespace table target freshness severity vs in
    if is_of namespace table v
    then record v {
      actual_freshness = freshness;
      duration = milliseconds (time_sub now v.violation_start);
      severity = severity;
    }
      ∷ vs
    else v ∷ rest

unfoldable pub clear_violation : String → String → List SloViolation → List SloViolation
clear_violation namespace table [] = []
clear_violation namespace table (v ∷ vs) =
    let rest = clear_violation namespace table vs in
    if is_of namespace table v then rest else v ∷ rest

-- For a table with the given freshness.
unfoldable pub check_slo_violation :
    Word
    → String
    → String
    → Word
    → Map String FreshnessConfig
    → List SloViolation
    → List SloViolation
unfolding config_of raise_violation clear_violation
check_slo_violation now namespace table p99 configs violations =
    let config = config_of namespace table configs in
    if slt config.target_freshness_p99 p99
    then raise_violation now namespace table config.target_freshness_p99 p99
        (if slt config.critical_threshold p99 then "critical" else "warning") violations
    else clear_violation namespace table violations

-- How many violations a table has.
abbrev pub count_of : String → String → List SloViolation → ℕ
count_of namespace table [] = 0
count_of namespace table (v ∷ vs) =
    if is_of namespace table v
    then suc (count_of namespace table vs)
    else count_of namespace table vs

same_table :
    (a b n t : String) (v : SloViolation) → (a == n && b == t) ≡ true → is_of a b v ≡ is_of n t v
same_table a b n t v h = ground (arith, string_eq.beq_iff a n, string_eq.beq_iff b t, h)

other_table :
    (a b n t : String) (v : SloViolation)
    → (a == n && b == t) ≡ false
    → is_of n t v ≡ true
    → is_of a b v ≡ false
other_table a b n t v h own = ground (
  arith,
  string_eq.beq_iff a n,
  string_eq.beq_iff b t,
  string_eq.beq_iff v.namespace n,
  string_eq.beq_iff v.table t,
  string_eq.beq_iff v.namespace a,
  string_eq.beq_iff v.table b,
  h,
  own,
)

module _ (a b n t : String) where
  count_of-clear_violation :
      (vs : List SloViolation)
      → count_of a b (clear_violation n t vs) ≡ (if a == n && b == t then 0 else count_of a b vs)
  unfolding clear_violation
  count_of-clear_violation [] = ground arith
  count_of-clear_violation (v ∷ vs) = elim (Bool-cases (is_of n t v)) [
    | inl h ↦ rw h (ground (arith, count_of-clear_violation vs, other_table a b n t v, h))
    | inr h ↦ rw h (ground (arith, count_of-clear_violation vs, same_table a b n t v, h))
  ]

  count_same :
      (vs : List SloViolation) → (a == n && b == t) ≡ true → count_of a b vs ≡ count_of n t vs
  count_same [] same = refl
  count_same (v ∷ vs) same = rw (same_table a b n t v same, count_same vs same) refl

  count_of-raise_violation :
      (now : Word) (target fresh : Word) (severity : String) (vs : List SloViolation)
      → count_of n t vs ≤ 1
      → count_of a b (raise_violation now n t target fresh severity vs)
        ≡ (if a == n && b == t then 1 else count_of a b vs)
  unfolding raise_violation
  count_of-raise_violation now target fresh severity [] few = ground (
    arith,
    string_eq.beq_iff a n,
    string_eq.beq_iff n a,
    string_eq.beq_iff b t,
    string_eq.beq_iff t b,
  )
  count_of-raise_violation now target fresh severity (v ∷ vs) few =
      elim (Bool-cases (is_of n t v)) [
        | inl h ↦
            rw h
              (ground (arith, few, count_same vs, same_table a b n t v, other_table a b n t v, h))
        | inr h ↦ rw h (
            ground (
              arith,
              few,
              count_of-raise_violation now target fresh severity vs,
              same_table a b n t v,
              other_table a b n t v,
              h,
            ))
      ]

  -- A table with at most one violation has exactly one afterwards if its freshness is over the target
  -- of its objective, and none otherwise; the number for any other table stays as it is.
  pub check_slo_violation_lem :
      (now p99 : Word) (configs : Map String FreshnessConfig) (violations : List SloViolation)
      → count_of n t violations ≤ 1
      → let target = (config_of n t configs).target_freshness_p99 in
        count_of a b (check_slo_violation now n t p99 configs violations)
        ≡ (if a == n && b == t then (if slt target p99 then 1 else 0) else count_of a b violations)
  unfolding check_slo_violation
  check_slo_violation_lem now p99 configs violations few =
      let config = config_of n t configs in
      let severity = if slt config.critical_threshold p99 then "critical" else "warning" in
      elim (Bool-cases (slt config.target_freshness_p99 p99)) [
        | inl h ↦
            rw h
              (count_of-raise_violation now config.target_freshness_p99 p99 severity violations few)
        | inr h ↦ rw h (count_of-clear_violation violations)
      ]
