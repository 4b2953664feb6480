-- ===== src/Discovery.antt =====
-- The gateway's service discovery (services/gateway/internal/discovery/discovery.go). An operation
-- runs alone, under the lock. An instance is an object that its caller shares: a pointer is a number
-- in a store. A watcher's channel is a number too, and the two goroutines of `Watch` are the steps
-- `deliver` and `cancel`.
pub mod Balance
pub mod Watchers
mod Examples
use true_now.Base.{
  ℕ, ◌+◌, ◌%◌, String, Bool, true, false, not, ◌||◌, Option, none, some, List, [], ◌∷◌, ◌++◌,
  if◌then◌else◌, ltb, eqb, ◌==◌, nat_eq, string_eq, length, get_elem?, ◌⊎◌, inl, inr,
}
use true_now.Base.Word.{Word, add64}
use true_now.Base.Map.{Map, lookup, insert, delete, contains}

pub record ServiceInstance : Type 0 where
  pub id : String
  pub host : String
  pub port : Word
  pub healthy : Bool
  pub last_seen : Word

pub record WatcherChannel : Type 0 where
  pub sent : List (List ℕ)
  pub closed : Bool

pub record LocalDiscovery : Type 0 where
  pub store : ℕ → ServiceInstance
  pub instances : Map String (Map String ℕ)
  pub round_robin : Map String Word
  pub watchers : Map String (List ℕ)
  pub channels : ℕ → WatcherChannel
  pub made : ℕ
  pub closed : Bool

pub data DiscoveryErr : Type 0 where
  discovery_closed : DiscoveryErr
  no_instances : String → DiscoveryErr
  no_healthy_instances : String → DiscoveryErr
  no_healthy_available : DiscoveryErr
  out_of_range : DiscoveryErr

unfoldable pub new_local_discovery : (ℕ → ServiceInstance) → LocalDiscovery
new_local_discovery store = record {
  store = store;
  instances = [];
  round_robin = [];
  watchers = [];
  channels = λ ch. record { sent = []; closed = false };
  made = 0;
  closed = false;
}

unfoldable pub pointers : Map String ℕ → List ℕ
pointers [] = []
pointers ((id, p) ∷ m) = p ∷ pointers m

unfoldable pub members : String → LocalDiscovery → Map String ℕ
members service d = elim (lookup service d.instances) [ none ↦ [] | some m ↦ m ]

-- A `range` over a map takes another order at each call: `order` rearranges the entries for one call.
unfoldable pub get_instances : (List ℕ → List ℕ) → String → LocalDiscovery → DiscoveryErr ⊎ List ℕ
unfolding pointers members
get_instances order service d =
    if d.closed then inl discovery_closed else inr (order (pointers (members service d)))

unfoldable pub healthy_of : (ℕ → ServiceInstance) → List ℕ → List ℕ
healthy_of store [] = []
healthy_of store (p ∷ ps) =
    let rest = healthy_of store ps in if (store p).healthy then p ∷ rest else rest

unfoldable pub counter_of : String → LocalDiscovery → Word
counter_of service d = elim (lookup service d.round_robin) [ none ↦ 0 | some c ↦ c ]

-- The element at an index; `out_of_range` stands for the panic of an index past the end.
unfoldable pub at : List ℕ → ℕ → DiscoveryErr ⊎ ℕ
at ps index = elim (get_elem? ps index) [ none ↦ inl out_of_range | some p ↦ inr p ]

unfoldable pub next_healthy : String → List ℕ → LocalDiscovery → LocalDiscovery × (DiscoveryErr ⊎ ℕ)
unfolding counter_of at
next_healthy service healthy d =
    if eqb (length healthy) 0
    then (d, inl (no_healthy_instances service))
    else let count = add64 (counter_of service d) 1 in
      (
        record d { round_robin = insert service count d.round_robin },
        at healthy (count % length healthy),
      )

unfoldable pub get_healthy_instance :
    (List ℕ → List ℕ) → String → LocalDiscovery → LocalDiscovery × (DiscoveryErr ⊎ ℕ)
unfolding pointers members healthy_of next_healthy
get_healthy_instance order service d =
    if d.closed
    then (d, inl discovery_closed)
    else if eqb (length (members service d)) 0
    then (d, inl (no_instances service))
    else next_healthy service (healthy_of d.store (order (pointers (members service d)))) d

-- A send that does not wait, on a channel with room for ten; none is the panic of a closed one.
unfoldable pub try_send : ℕ → List ℕ → (ℕ → WatcherChannel) → Option (ℕ → WatcherChannel)
try_send ch ps channels =
    if (channels ch).closed
    then none
    else if ltb (length (channels ch).sent) 10
    then some (λ c.
      if eqb c ch
      then record (channels ch) { sent = (channels ch).sent ++ (ps ∷ []) }
      else channels c)
    else some channels

unfoldable pub send_all : List ℕ → List ℕ → (ℕ → WatcherChannel) → Option (ℕ → WatcherChannel)
unfolding try_send
send_all [] ps channels = some channels
send_all (ch ∷ chs) ps channels = elim (try_send ch ps channels) [
  | none ↦ none
  | some channels' ↦ send_all chs ps channels'
]

unfoldable pub watching : String → LocalDiscovery → List ℕ
watching service d = elim (lookup service d.watchers) [ none ↦ [] | some chs ↦ chs ]

unfoldable pub notify_watchers : String → LocalDiscovery → Option LocalDiscovery
unfolding watching send_all pointers members
notify_watchers service d =
    elim (send_all (watching service d) (pointers (members service d)) d.channels) [
      | none ↦ none
      | some channels ↦ some (record d { channels = channels })
    ]

abbrev pub write : ℕ → ServiceInstance → (ℕ → ServiceInstance) → ℕ → ServiceInstance
write p i store q = if eqb q p then i else store q

-- The answer of an operation that went through, if its notifications did.
abbrev pub done : Option LocalDiscovery → Option (LocalDiscovery × Option DiscoveryErr)
done none = none
done (some d) = some (d, none)

unfoldable pub register_instance :
    Word → String → ℕ → LocalDiscovery → Option (LocalDiscovery × Option DiscoveryErr)
unfolding members notify_watchers
register_instance now service p d =
    if d.closed
    then some (d, some discovery_closed)
    else done (
        notify_watchers service (record d {
          store = write p (record (d.store p) { last_seen = now }) d.store;
          instances = insert service (insert (d.store p).id p (members service d)) d.instances;
        }))

unfoldable pub deregister_instance :
    String → String → LocalDiscovery → Option (LocalDiscovery × Option DiscoveryErr)
unfolding members notify_watchers
deregister_instance service id d =
    if d.closed
    then some (d, some discovery_closed)
    else if contains service d.instances
    then done (
        notify_watchers service
          (record d { instances = insert service (delete id (members service d)) d.instances }))
    else some (d, none)

set_health :
    Word → String → Bool → Option ℕ → LocalDiscovery → Option (LocalDiscovery × Option DiscoveryErr)
unfolding notify_watchers
set_health now service healthy none d = some (d, none)
set_health now service healthy (some p) d = done (
    notify_watchers service (record d {
      store = write p (record (d.store p) { healthy = healthy; last_seen = now }) d.store;
    }))

unfoldable pub update_health :
    Word → String → String → Bool → LocalDiscovery → Option (LocalDiscovery × Option DiscoveryErr)
unfolding members set_health
update_health now service id healthy d =
    if d.closed
    then some (d, some discovery_closed)
    else set_health now service healthy (lookup id (members service d)) d

-- A new watcher, with what its goroutine is to send first.
unfoldable pub watch : String → LocalDiscovery → LocalDiscovery × (DiscoveryErr ⊎ (ℕ × List ℕ))
unfolding watching pointers members
watch service d = if d.closed then (d, inl discovery_closed) else (
  record d {
    watchers = insert service (watching service d ++ (d.made ∷ [])) d.watchers;
    channels = λ c. if eqb c d.made then record { sent = []; closed = false } else d.channels c;
    made = d.made + 1;
  },
  inr (d.made, pointers (members service d)),
)

-- The first goroutine of a watcher, when the channel has room; with a full channel it waits.
unfoldable pub deliver : ℕ → List ℕ → LocalDiscovery → Option LocalDiscovery
unfolding try_send
deliver ch ps d = elim (try_send ch ps d.channels) [
  | none ↦ none
  | some channels ↦ some (record d { channels = channels })
]

unfoldable pub without : ℕ → List ℕ → List ℕ
without ch [] = []
without ch (w ∷ ws) = let rest = without ch ws in if eqb w ch then rest else w ∷ rest

unfoldable pub remove_watcher : String → ℕ → LocalDiscovery → LocalDiscovery
unfolding watching without
remove_watcher service ch d =
    if contains service d.watchers
    then record d { watchers = insert service (without ch (watching service d)) d.watchers }
    else d

-- `close(ch)`; none is the panic of a channel that is closed already.
unfoldable pub close_channel : ℕ → (ℕ → WatcherChannel) → Option (ℕ → WatcherChannel)
close_channel ch channels =
    if (channels ch).closed
    then none
    else some (λ c. if eqb c ch then record (channels ch) { closed = true } else channels c)

-- What a goroutine of a watcher does when its context is done.
unfoldable pub cancel : String → ℕ → LocalDiscovery → Option LocalDiscovery
unfolding remove_watcher close_channel
cancel service ch d = elim (close_channel ch d.channels) [
  | none ↦ none
  | some channels ↦ some (record (remove_watcher service ch d) { channels = channels })
]

unfoldable pub close_list : List ℕ → (ℕ → WatcherChannel) → Option (ℕ → WatcherChannel)
unfolding close_channel
close_list [] channels = some channels
close_list (ch ∷ chs) channels = elim (close_channel ch channels) [
  | none ↦ none
  | some channels' ↦ close_list chs channels'
]

unfoldable pub close_watchers :
    Map String (List ℕ) → (ℕ → WatcherChannel) → Option (ℕ → WatcherChannel)
unfolding close_list
close_watchers [] channels = some channels
close_watchers ((service, chs) ∷ m) channels = elim (close_list chs channels) [
  | none ↦ none
  | some channels' ↦ close_watchers m channels'
]

unfoldable pub close : LocalDiscovery → Option LocalDiscovery
unfolding close_watchers
close d = if d.closed then some d else elim (close_watchers d.watchers d.channels) [
  | none ↦ none
  | some channels ↦ some (record d { closed = true; channels = channels })
]

-- `RandomLoadBalancer.GetInstance`; the random number below the count is given by `intn`.
unfoldable pub get_instance :
    (List ℕ → List ℕ) → (ℕ → ℕ) → String → LocalDiscovery → DiscoveryErr ⊎ ℕ
unfolding get_instances healthy_of at
get_instance order intn service d = elim (get_instances order service d) [
  | inl err ↦ inl err
  | inr ps ↦
      let healthy = healthy_of d.store ps in
      if eqb (length healthy) 0
      then inl no_healthy_available
      else at healthy (intn (length healthy))
]
