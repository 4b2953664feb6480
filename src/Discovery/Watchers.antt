-- ===== src/Discovery/Watchers.antt =====
-- The channels of watchers: what is left of them when the discovery is closed.
use true_now.Base.{
  ℕ, ◌≡◌, refl, ap, ◌∙◌, String, Bool, true, false, Option, none, some, List, [], ◌∷◌, ◌++◌, eqb,
  ◌==◌, string_eq, beq_self, inl, inr, ◌||◌, arith, Bool-cases, Option-cases,
}
use true_now.Base.Map.{Map, lookup, lookup-insert}
use true_now.Discovery.{
  WatcherChannel, LocalDiscovery, watching, watch, close_channel, close_list, close_watchers, close,
  cancel,
}

-- A channel is closed in what an operation leaves, if it leaves anything.
abbrev IsShut : ℕ → Option (ℕ → WatcherChannel) → Type 0
IsShut ch none = Unit {0}
IsShut ch (some channels) = (channels ch).closed ≡ true

abbrev has : ℕ → List ℕ → Bool
has ch [] = false
has ch (w ∷ ws) = eqb w ch || has ch ws

has-append : (ch : ℕ) (ws : List ℕ) → has ch (ws ++ (ch ∷ [])) ≡ true
has-append ch [] = ground arith
has-append ch (w ∷ ws) = ground (arith, has-append ch ws)

close_channel-IsShut :
    (ch c : ℕ) (channels : ℕ → WatcherChannel)
    → (eqb c ch || (channels ch).closed) ≡ true
    → IsShut ch (close_channel c channels)
unfolding close_channel
close_channel-IsShut ch c channels h = elim (Bool-cases (channels c).closed) [
  | inl t ↦ rw (close_channel, t) tt
  | inr f ↦ rw (close_channel, f) (ground (arith, h))
]

close_list-IsShut :
    (ch : ℕ) (ws : List ℕ) (channels : ℕ → WatcherChannel)
    → (has ch ws || (channels ch).closed) ≡ true
    → IsShut ch (close_list ws channels)
unfolding close_list
close_list-IsShut ch [] channels h = h
close_list-IsShut ch (w ∷ ws) channels h = elim (Option-cases (close_channel w channels)) [
  | inl panics ↦ rw (close_list, panics) tt
  | inr (channels', closes) ↦
      let more : (has ch ws || (channels' ch).closed) ≡ true = elim (Bool-cases (has ch ws)) [
        | inl t ↦ ground (arith, t)
        | inr f ↦
            let shut : (channels' ch).closed ≡ true =
              rw closes at (close_channel-IsShut ch w channels (ground (arith, h, f))) in
            ground (arith, shut)
      ] in
      rw (close_list, closes) (close_list-IsShut ch ws channels' more)
]

close_watchers-IsShut :
    (ch : ℕ) (m : Map String (List ℕ)) (channels : ℕ → WatcherChannel)
    → (channels ch).closed ≡ true
    → IsShut ch (close_watchers m channels)
unfolding close_watchers
close_watchers-IsShut ch [] channels h = h
close_watchers-IsShut ch ((service, ws) ∷ m) channels h =
    elim (Option-cases (close_list ws channels)) [
      | inl panics ↦ rw (close_watchers, panics) tt
      | inr (channels', closes) ↦
          let shut : (channels' ch).closed ≡ true =
            rw closes at (close_list-IsShut ch ws channels (ground (arith, h))) in
          rw (close_watchers, closes) (close_watchers-IsShut ch m channels' shut)
    ]

close_watchers-listed :
    (ch : ℕ) (service : String) (ws : List ℕ) (m : Map String (List ℕ))
    (channels : ℕ → WatcherChannel)
    → lookup service m ≡ some ws
    → has ch ws ≡ true
    → IsShut ch (close_watchers m channels)
unfolding close_watchers lookup
close_watchers-listed ch service ws [] channels found h = absurd (cc found)
close_watchers-listed ch service ws ((name, chs) ∷ m) channels found h =
    elim (Option-cases (close_list chs channels)) [
      | inl panics ↦ rw (close_watchers, panics) tt
      | inr (channels', closes) ↦ elim (Bool-cases (name == service)) [
        | inl same ↦
            let held : some chs ≡ some ws = rw (lookup, same) at found in
            let has_it : has ch chs ≡ true = ground (arith, held, h) in
            let shut : (channels' ch).closed ≡ true =
              rw closes at (close_list-IsShut ch chs channels (ground (arith, has_it))) in
            rw (close_watchers, closes) (close_watchers-IsShut ch m channels' shut)
        | inr other ↦
            rw (close_watchers, closes)
              (close_watchers-listed ch service ws m channels' (rw (lookup, other) at found) h)
      ]
    ]

-- A watcher's context that is done after the discovery was closed.
abbrev pub then_cancel : String → ℕ → Option LocalDiscovery → Option LocalDiscovery
then_cancel service ch none = none
then_cancel service ch (some d) = cancel service ch d

cancel_when_shut :
    (service : String) (ch : ℕ) (d : LocalDiscovery)
    → (d.channels ch).closed ≡ true
    → cancel service ch d ≡ none
unfolding cancel close_channel
cancel_when_shut service ch d shut = rw (cancel, close_channel, shut) refl

close_panics :
    (d : LocalDiscovery)
    → d.closed ≡ false
    → close_watchers d.watchers d.channels ≡ none
    → close d ≡ none
unfolding close
close_panics d open_ panics = rw (close, open_, panics) refl

close_succeeds :
    (d : LocalDiscovery) (channels : ℕ → WatcherChannel)
    → d.closed ≡ false
    → close_watchers d.watchers d.channels ≡ some channels
    → close d ≡ some (record d { closed = true; channels = channels })
unfolding close
close_succeeds d channels open_ closes = rw (close, open_, closes) refl

close-cancel :
    (service : String) (ch : ℕ) (ws : List ℕ) (d : LocalDiscovery)
    → d.closed ≡ false
    → lookup service d.watchers ≡ some ws
    → has ch ws ≡ true
    → then_cancel service ch (close d) ≡ none
close-cancel service ch ws d open_ listed held =
    elim (Option-cases (close_watchers d.watchers d.channels)) [
      | inl panics ↦ ap (then_cancel service ch) (close_panics d open_ panics)
      | inr (channels, closes) ↦
          let shut : (channels ch).closed ≡ true =
            rw closes at (close_watchers-listed ch service ws d.watchers d.channels listed held) in
          ap (then_cancel service ch) (close_succeeds d channels open_ closes)
          ∙ cancel_when_shut service ch (record d { closed = true; channels = channels }) shut
    ]

-- Whatever watchers an open discovery has: a watcher that is made on it, whose discovery is then
-- closed and whose context is done after that, ends in a panic.
pub close-watch-cancel :
    (service : String) (d : LocalDiscovery)
    → d.closed ≡ false
    → then_cancel service d.made (close (watch service d).0) ≡ none
unfolding watch
close-watch-cancel service d open_ =
    let ws = watching service d ++ (d.made ∷ []) in
    close-cancel service d.made ws (watch service d).0 (rw (watch, open_) refl)
      (rw (watch, open_) (rw (lookup-insert, beq_self service) refl))
      (has-append d.made (watching service d))
