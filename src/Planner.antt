-- ===== src/Planner.antt =====
-- The planner of the query API (services/query-api/internal/planner/planner.go), from the fields of a
-- request: how these are read from an arbitrary value is left out.
mod Tests
use true_now.Base.{
  ℕ, ◌*◌, String, Bool, true, false, List, [], ◌∷◌, if◌then◌else◌, ltb, leb, eqb, length,
}
use true_now.Base.Word.{Word, sle, sub64, mul64, sdiv, second}
use true_now.Base.Map.{Map}
use true_now.Base.Sort.{sort}
use true_now.Base.Fnv.{fnv1a}

-- `A` stands for the values of filters.
pub record QueryRequest (A : Type 0) : Type 0 where
  pub namespace : String
  pub table : String
  pub start_time : Word
  pub end_time : Word
  pub group_by : List String
  pub metrics : List String
  pub filters : Map String A

pub data Resolution : Type 0 where
  resolution_1s : Resolution
  resolution_10s : Resolution
  resolution_1m : Resolution

-- The cache key is kept as the hash that its text is made of.
pub record QueryPlan (A : Type 0) : Type 0 where
  pub start_time : Word
  pub end_time : Word
  pub namespace : String
  pub table : String
  pub group_by : List String
  pub metrics : List String
  pub filters : Map String A
  pub resolution : Resolution
  pub shards : List ℕ
  pub parallel : Bool
  pub predicate_pushdown : Bool
  pub projection_pushdown : Bool
  pub use_bloom_filter : Bool
  pub cache_key : Word
  pub timeout : Word

unfoldable pub resolution_of : Word → Resolution
resolution_of time_range =
    if sle time_range 3_600_000_000
    then resolution_1s
    else (if sle time_range 21_600_000_000 then resolution_10s else resolution_1m)

unfoldable pub is_1s : Resolution → Bool
is_1s resolution_1s = true
is_1s resolution_10s = false
is_1s resolution_1m = false

unfoldable pub per_slot : Resolution → Word → Word
per_slot resolution_1s slots = slots
per_slot resolution_10s slots = sdiv slots 10
per_slot resolution_1m slots = sdiv slots 60

module _ {A : Type 0} where
  unfoldable pub get_shards_for_query : QueryRequest A → List ℕ
  get_shards_for_query req = 0 ∷ 1 ∷ []

  -- The hash of the bytes of "query".
  unfoldable pub generate_cache_key : QueryRequest A → Word
  generate_cache_key req = fnv1a (b'q' ∷ b'u' ∷ b'e' ∷ b'r' ∷ b'y' ∷ [])

  unfoldable pub optimize : QueryPlan A → QueryPlan A
  unfolding is_1s
  optimize plan = record plan {
    shards = sort ltb plan.shards;
    predicate_pushdown = true;
    projection_pushdown = true;
    use_bloom_filter = is_1s plan.resolution;
    timeout = if ltb 10 (length plan.shards) then 30 * second else 10 * second;
  }

  unfoldable pub plan_query : QueryRequest A → QueryPlan A
  unfolding resolution_of get_shards_for_query generate_cache_key optimize
  plan_query req =
      let shards = get_shards_for_query req in
      optimize (record {
        start_time = req.start_time;
        end_time = req.end_time;
        namespace = req.namespace;
        table = req.table;
        group_by = req.group_by;
        metrics = req.metrics;
        filters = req.filters;
        resolution = resolution_of (sub64 req.end_time req.start_time);
        shards = shards;
        parallel = ltb 1 (length shards);
        predicate_pushdown = false;
        projection_pushdown = false;
        use_bloom_filter = false;
        cache_key = generate_cache_key req;
        timeout = 0;
      })

  unfoldable pub cost : QueryPlan A → Word
  unfolding per_slot
  cost plan =
      mul64 (per_slot plan.resolution (sdiv (sub64 plan.end_time plan.start_time) 1_000))
        (length plan.shards)
