-- ===== src/Ports/Examples.antt =====
-- A range of three ports, of which the first is allocated and the second cannot be bound.
use true_now.Base.{
  ℕ, ◌+◌, ◌≤◌, ◌≡◌, ◌⊎◌, inl, inr, Bool, true, false, not, ◌||◌, [], ◌∷◌, eqb, nat_eq,
}
use true_now.Ports.{PortAllocator, no_available_ports, is_allocated, allocate}
use true_now.Ports.Laws.{all_taken, allocate_lem}

abbrev ports : PortAllocator
ports = record { min_port = 8_000; max_port = 8_002; allocated = (8_000, true) ∷ [] }

abbrev can_bind : ℕ → Bool
can_bind port = not (eqb port 8_001)

allocate_lem_example :
    ((allocate can_bind ports ≡ (ports, inl (no_available_ports 8_000 8_002)))
      × (all_taken can_bind ports 8_000 3 ≡ true))
    ⊎ ((n : ℕ) × (m : ℕ) × (m ≡ 8_000 + n)
        × ((allocate can_bind ports).1 ≡ inr m)
        × (m ≤ 8_002)
        × (all_taken can_bind ports 8_000 n ≡ true)
        × (is_allocated m ports ≡ false)
        × (can_bind m ≡ true)
        × (is_allocated 8_002 (allocate can_bind ports).0
            ≡ (eqb m 8_002 || is_allocated 8_002 ports)))
allocate_lem_example = allocate_lem can_bind ports 8_002
