-- ===== src/Ports.antt =====
-- The port allocator of the autoscaler (services/autoscaler/pkg/controller/port.go). An operation runs
-- alone. Ports are numbers from 0 on; which of them can be bound is an argument of each call.
pub mod Laws
mod Examples
use true_now.Base.{
  ℕ, zero, suc, ◌+◌, ◌-◌, Bool, true, false, not, ◌&&◌, ◌||◌, Option, none, some, List, [], ◌∷◌,
  if◌then◌else◌, ltb, eqb, nat_eq, length, ◌⊎◌, inl, inr,
}
use true_now.Base.Word.{Word, add64, sub64}
use true_now.Base.Map.{Map, lookup, insert, delete}

pub record PortAllocator : Type 0 where
  pub min_port : ℕ
  pub max_port : ℕ
  pub allocated : Map ℕ Bool

pub data PortErr : Type 0 where
  no_available_ports : ℕ → ℕ → PortErr
  outside_range : ℕ → ℕ → ℕ → PortErr
  already_allocated : ℕ → PortErr
  not_available : ℕ → PortErr

unfoldable pub new_port_allocator : ℕ → ℕ → PortAllocator
new_port_allocator min_port max_port = record {
  min_port = min_port;
  max_port = max_port;
  allocated = [];
}

unfoldable pub is_allocated : ℕ → PortAllocator → Bool
is_allocated port p = elim (lookup port p.allocated) [ none ↦ false | some b ↦ b ]

unfoldable pub take_port : ℕ → PortAllocator → PortAllocator
take_port port p = record p { allocated = insert port true p.allocated }

-- The first free port from `port` on, of the next `left` ones.
unfoldable pub find_port : (ℕ → Bool) → PortAllocator → ℕ → ℕ → Option ℕ
unfolding is_allocated
find_port available p port zero = none
find_port available p port (suc left) =
    let rest = find_port available p (suc port) left in
    if is_allocated port p then rest else (if available port then some port else rest)

taken : PortAllocator → Option ℕ → PortAllocator × (PortErr ⊎ ℕ)
unfolding take_port
taken p none = (p, inl (no_available_ports p.min_port p.max_port))
taken p (some port) = (take_port port p, inr port)

unfoldable pub allocate : (ℕ → Bool) → PortAllocator → PortAllocator × (PortErr ⊎ ℕ)
unfolding find_port taken
allocate available p = taken p (find_port available p p.min_port (suc p.max_port - p.min_port))

unfoldable pub allocate_specific : (ℕ → Bool) → ℕ → PortAllocator → PortAllocator × Option PortErr
unfolding is_allocated take_port
allocate_specific available port p =
    if ltb port p.min_port || ltb p.max_port port
    then (p, some (outside_range port p.min_port p.max_port))
    else if is_allocated port p
    then (p, some (already_allocated port))
    else if not (available port)
    then (p, some (not_available port))
    else (take_port port p, none)

unfoldable pub release : ℕ → PortAllocator → PortAllocator
release port p = record p { allocated = delete port p.allocated }

unfoldable pub ports_of : Map ℕ Bool → List ℕ
ports_of [] = []
ports_of ((port, b) ∷ m) = port ∷ ports_of m

unfoldable pub get_allocated : PortAllocator → List ℕ
unfolding ports_of
get_allocated p = ports_of p.allocated

unfoldable pub reset : PortAllocator → PortAllocator
reset p = record p { allocated = [] }

-- The range's length without the allocated ports, as an `int`.
unfoldable pub get_available_count : PortAllocator → Word
get_available_count p = sub64 (add64 (sub64 p.max_port p.min_port) 1) (length p.allocated)
