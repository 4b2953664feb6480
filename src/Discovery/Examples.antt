-- ===== src/Discovery/Examples.antt =====
-- A service with three instances, of which two are healthy.
use true_now.Base.{
  ℕ, ◌+◌, ◌%◌, true, false, some, none, [], ◌∷◌, ◌≡◌, refl, eqb, not, get_elem?, inr, arith,
}
use mathlib.Core.List.{Mem, reverse, reverse_perm}
use mathlib.Core.List.Perm
use true_now.Discovery.{
  ServiceInstance, LocalDiscovery, counter_of, get_healthy_instance, healthy_of, pointers, members,
  watch, close,
}
use true_now.Base.Map.{lookup}
use true_now.Discovery.Balance.{
  healthy_count, healthy_in, after_calls, get_healthy_instance-after_calls,
}
use true_now.Discovery.Watchers.{then_cancel, close-watch-cancel}

abbrev objects : ℕ → ServiceInstance
objects p = record {
  id = "x";
  host = "localhost";
  port = 80;
  healthy = not (eqb p 2);
  last_seen = 0;
}

abbrev three : LocalDiscovery
three = record {
  store = objects;
  instances = ("query", ("a", 1) ∷ ("b", 2) ∷ ("c", 3) ∷ []) ∷ [];
  round_robin = ("query", 4) ∷ [];
  watchers = [];
  channels = λ ch. record { sent = []; closed = false };
  made = 0;
  closed = false;
}

-- Two calls, of which the first goes through the map backwards, and then one more that does.
get_healthy_instance-after_calls_example :
    let orders = reverse ∷ (λ ps. ps) ∷ [] in
    let index = (counter_of "query" three + 2 + 1) % healthy_count "query" three in
    let (d', answer) = get_healthy_instance reverse "query" (after_calls orders "query" three) in
    (p : ℕ) × (answer ≡ inr p)
    × (get_elem? (healthy_in reverse "query" three) index ≡ some p)
    × Mem p (pointers (members "query" three))
    × ((three.store p).healthy ≡ true)
    × (counter_of "query" d' ≡ counter_of "query" three + 2 + 1)
unfolding healthy_of pointers members counter_of lookup
get_healthy_instance-after_calls_example =
    get_healthy_instance-after_calls (reverse ∷ (λ ps. ps) ∷ []) reverse "query" three
      (reverse_perm, (Perm.refl, tt)) reverse_perm refl (omega arith) (omega arith)

close-watch-cancel_example : then_cancel "query" 0 (close (watch "query" three).0) ≡ none
close-watch-cancel_example = close-watch-cancel "query" three refl
