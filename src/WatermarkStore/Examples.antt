-- ===== src/WatermarkStore/Examples.antt =====
-- Keys and violations of the table "events" of "shop".
use true_now.Base.{[], ◌∷◌, ◌≡◌, arith, refl}
use true_now.Base.Map.{lookup}
use true_now.WatermarkStore.Types.{SloViolation}
use true_now.WatermarkStore.TableKey.{table_key, split_table_key, split_table_key-table_key}
use true_now.WatermarkStore.Violations.{
  config_of, check_slo_violation, count_of, check_slo_violation_lem,
}

split_table_key-table_key_example :
    split_table_key (table_key "shop" "events") ≡ "shop" ∷ "events" ∷ []
split_table_key-table_key_example = split_table_key-table_key "shop" "events" refl refl refl refl

abbrev old_violation : SloViolation
old_violation = record {
  namespace = "shop";
  table = "events";
  slo_target = 30_000;
  actual_freshness = 40_000;
  violation_start = 0;
  duration = 0;
  severity = "warning";
}

-- The violation is brought up to date, and not doubled.
check_slo_violation_lem_example :
    count_of "shop" "events" (check_slo_violation 9 "shop" "events" 130_000 [] (old_violation ∷ []))
    ≡ 1
unfolding config_of lookup
check_slo_violation_lem_example =
    check_slo_violation_lem "shop" "events" "shop" "events" 9 130_000 [] (old_violation ∷ [])
      (omega arith)
