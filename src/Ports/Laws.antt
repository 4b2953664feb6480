-- ===== src/Ports/Laws.antt =====
-- Which port a call of `Allocate` gives.
use true_now.Base.{
  ℕ, zero, suc, ◌+◌, ◌-◌, ◌≤◌, ◌<◌, ◌≡◌, ◌⊎◌, inl, inr, refl, sym, ap, ◌∙◌, Bool, true, false, not,
  ◌&&◌, ◌||◌, Option, none, some, if◌then◌else◌, eqb, nat_eq, arith, Bool-cases,
}
use true_now.Base.Map.{lookup, lookup-insert}
use true_now.Ports.{
  PortAllocator, no_available_ports, is_allocated, take_port, find_port, taken, allocate,
}

-- None of `count` ports from `port` on is free.
abbrev pub all_taken : (ℕ → Bool) → PortAllocator → ℕ → ℕ → Bool
all_taken available p port zero = true
all_taken available p port (suc count) =
    (is_allocated port p || not (available port)) && all_taken available p (suc port) count

by_tests :
    (held up : Bool) (rest : Option ℕ) (port : ℕ)
    → (if held then rest else (if up then some port else rest))
      ≡ (if held || not up then rest else some port)
by_tests true up rest port = refl
by_tests false true rest port = refl
by_tests false false rest port = refl

none_left :
    (available : ℕ → Bool) (p : PortAllocator) (port : ℕ) → find_port available p port zero ≡ none
unfolding find_port
none_left available p port = refl

held : Option Bool → Bool
held none = false
held (some b) = b

is_allocated_lem : (q : ℕ) (p : PortAllocator) → is_allocated q p ≡ held (lookup q p.allocated)
unfolding is_allocated held
is_allocated_lem q p =
    elim (lookup q p.allocated)
      as (λ o. elim o as (λ x. Bool) [ none ↦ false | some b ↦ b ] ≡ held o) [
        | none ↦ refl
        | some b ↦ refl
      ]

is_allocated-take_port :
    (m q : ℕ) (p : PortAllocator) → is_allocated q (take_port m p) ≡ (eqb m q || is_allocated q p)
unfolding take_port held
is_allocated-take_port m q p =
    is_allocated_lem q (take_port m p)
    ∙ ap held (lookup-insert m q true p.allocated)
    ∙ elim (Bool-cases (eqb m q)) [ inl t ↦ rw t refl | inr f ↦ rw f (sym (is_allocated_lem q p)) ]

find_port_step :
    (available : ℕ → Bool) (p : PortAllocator) (port left : ℕ)
    → find_port available p port (suc left) ≡ (
        if is_allocated port p || not (available port)
        then find_port available p (suc port) left
        else some port)
unfolding find_port
find_port_step available p port left =
    by_tests (is_allocated port p) (available port) (find_port available p (suc port) left) port

find_port_lem :
    (available : ℕ → Bool) (p : PortAllocator) (port left : ℕ)
    → ((find_port available p port left ≡ none) × (all_taken available p port left ≡ true))
      ⊎ ((n : ℕ) × (m : ℕ) × (m ≡ port + n)
          × (find_port available p port left ≡ some m)
          × (n < left)
          × (all_taken available p port n ≡ true)
          × (is_allocated m p ≡ false)
          × (available m ≡ true))
find_port_lem available p port zero = inl (none_left available p port, refl)
find_port_lem available p port (suc left) =
    elim (Bool-cases (is_allocated port p || not (available port))) [
      | inl busy ↦ elim (find_port_lem available p (suc port) left) [
        | inl (e, all) ↦ inl (find_port_step available p port left ∙ rw busy e, rw busy all)
        | inr (n, m, is_m, e, bound, all, free, up) ↦ inr (
          suc n,
          m,
          omega (arith, is_m),
          find_port_step available p port left ∙ rw busy e,
          omega (arith, bound),
          rw busy all,
          free,
          up,
        )
      ]
      | inr open_ ↦ inr (
        0,
        port,
        omega arith,
        find_port_step available p port left ∙ rw open_ refl,
        omega arith,
        refl,
        ground (arith, open_),
        ground (arith, open_),
      )
    ]

-- `Allocate` either refuses, when every port of the range is allocated or cannot be bound, and changes
-- nothing; or it gives the lowest port of the range that is not allocated and can be bound. That port,
-- and no other, is allocated then that was not before.
pub allocate_lem :
    (available : ℕ → Bool) (p : PortAllocator) (q : ℕ)
    → let count = suc p.max_port - p.min_port in
      ((allocate available p ≡ (p, inl (no_available_ports p.min_port p.max_port)))
        × (all_taken available p p.min_port count ≡ true))
      ⊎ ((n : ℕ) × (m : ℕ) × (m ≡ p.min_port + n)
          × ((allocate available p).1 ≡ inr m)
          × (m ≤ p.max_port)
          × (all_taken available p p.min_port n ≡ true)
          × (is_allocated m p ≡ false)
          × (available m ≡ true)
          × (is_allocated q (allocate available p).0 ≡ (eqb m q || is_allocated q p)))
unfolding allocate taken
allocate_lem available p q =
    elim (find_port_lem available p p.min_port (suc p.max_port - p.min_port)) [
      | inl (e, all) ↦ inl (rw e refl, all)
      | inr (n, m, is_m, e, bound, all, free, up) ↦ inr (
        n,
        m,
        is_m,
        rw e refl,
        omega (arith, is_m, bound),
        all,
        free,
        up,
        rw e (is_allocated-take_port m q p),
      )
    ]
