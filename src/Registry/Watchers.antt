-- ===== src/Registry/Watchers.antt =====
-- The watchers of the registry (Watch, sendEvent and Close of
-- services/autoscaler/pkg/registry/memory.go). A watcher is a number; its channel holds 100 events.
use true_now.Base.{
  ℕ, String, Bool, true, false, none, some, List, [], ◌∷◌, ◌++◌, if◌then◌else◌, ltb, eqb, nat_eq,
  string_eq, length,
}
use true_now.Base.Map.{Map, lookup}
use true_now.Registry.Types.{RegistryEvent}

pub record WatcherChannel : Type 0 where
  pub ch : List RegistryEvent
  pub closed : Bool

abbrev pub Channels : Type 0
Channels = ℕ → WatcherChannel

unfoldable pub put_channel : ℕ → WatcherChannel → Channels → Channels
put_channel w c channels v = if eqb w v then c else channels v

-- An event goes to the channel of an open watcher unless that is full.
unfoldable pub deliver : RegistryEvent → ℕ → Channels → Channels
unfolding put_channel
deliver event w channels =
    let c = channels w in
    if c.closed
    then channels
    else (if ltb (length c.ch) 100
        then put_channel w (record c { ch = c.ch ++ (event ∷ []) }) channels
        else channels)

unfoldable pub deliver_all : RegistryEvent → List ℕ → Channels → Channels
unfolding deliver
deliver_all event [] channels = channels
deliver_all event (w ∷ ws) channels = deliver_all event ws (deliver event w channels)

unfoldable pub watchers_of : String → Map String (List ℕ) → List ℕ
watchers_of service watchers = elim (lookup service watchers) [ none ↦ [] | some ws ↦ ws ]

-- To the watchers of the service, and then to those of "*".
unfoldable pub send : RegistryEvent → Map String (List ℕ) → Channels → Channels
unfolding deliver_all watchers_of
send event watchers channels =
    deliver_all event (watchers_of "*" watchers)
      (deliver_all event (watchers_of event.service_name watchers) channels)

unfoldable pub close_channel : ℕ → Channels → Channels
unfolding put_channel
close_channel w channels = put_channel w (record (channels w) { closed = true }) channels

unfoldable pub close_list : List ℕ → Channels → Channels
unfolding close_channel
close_list [] channels = channels
close_list (w ∷ ws) channels = close_list ws (close_channel w channels)

unfoldable pub close_all : Map String (List ℕ) → Channels → Channels
unfolding close_list
close_all [] channels = channels
close_all ((service, ws) ∷ watchers) channels = close_all watchers (close_list ws channels)

-- The list without its first entry `w`.
unfoldable pub remove_first : ℕ → List ℕ → List ℕ
remove_first w [] = []
remove_first w (v ∷ vs) = if eqb v w then vs else v ∷ remove_first w vs

unfoldable pub has_watcher : ℕ → List ℕ → Bool
has_watcher w [] = false
has_watcher w (v ∷ vs) = if eqb v w then true else has_watcher w vs
