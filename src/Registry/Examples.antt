-- ===== src/Registry/Examples.antt =====
-- The registry on two instances, one of which moves to another service.
use true_now.Base.{ℕ, String, some, List, [], ◌∷◌, ◌≡◌, if◌then◌else◌, eqb}
use true_now.Registry.Types.{Instance, default_registry_config}
use true_now.Registry.State.{InMemoryRegistry, new_in_memory_registry}
use true_now.Registry.Index.{IsIndexed}
use true_now.Registry.Run.{
  RegistryOp, register_op, update_op, update_status_op, deregister_op, watch_op, cleanup_op, run,
  run-new-IsIndexed,
}

abbrev object : String → String → Instance ℕ
object id service = record {
  id = id;
  service_name = service;
  host = "localhost";
  port = 8080;
  status = "starting";
  start_time = 0;
  last_health_check = 0;
  metrics = [];
  pid = 1;
  labels = [];
}

abbrev objects : ℕ → Instance ℕ
objects p =
    if eqb p 1
    then object "a" "gateway"
    else (if eqb p 2 then object "b" "gateway" else object "a" "query")

abbrev calls : List (RegistryOp ℕ)
calls =
    watch_op "*"
    ∷ register_op 1 (some 1)
    ∷ register_op 2 (some 2)
    ∷ update_op 3 (some 3)
    ∷ update_status_op 4 "b" "running"
    ∷ deregister_op 5 "b"
    ∷ cleanup_op 6
    ∷ []

run-new-IsIndexed_example :
    (r : InMemoryRegistry ℕ) × (run calls (new_in_memory_registry default_registry_config objects)
      ≡ some r)
    × IsIndexed r
run-new-IsIndexed_example = run-new-IsIndexed default_registry_config objects calls
