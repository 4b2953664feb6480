-- ===== src/RingBuffer.antt =====
-- The ring buffer of the hot tier (services/hot-tier/internal/ringbuffer/lockfree.go). An operation
-- runs alone, so that a compare-and-swap succeeds at once. The bits of a float64 stand for it, and
-- the sketches of a group, which the buffer makes and copies but never updates, are left out. `none`
-- is the panic of an index out of bounds.
pub mod Mask
pub mod Writes
pub mod Reads
mod Examples
use true_now.Base.{
  ℕ, zero, suc, ◌+◌, ◌-◌, ◌*◌, ◌/◌, ◌%◌, ◌^◌, min, String, Bool, true, false, not, ◌&&◌, Option,
  none, some, List, [], ◌∷◌, ◌++◌, if◌then◌else◌, ◌==◌, nat_eq, string_eq, eqb, ltb, leb, length,
  get_elem?, set, replicate,
}
use Prim.Native.Nat.{bit_and, bit_or}
use true_now.Base.Word.{Word, add64, sub64}
use true_now.Base.Float.{Float64}
use true_now.Base.Map.{Map, lookup, insert}

pub record AggregateGroup (F : Type 0) : Type 0 where
  pub sum : F
  pub count : Word
  pub min_value : F
  pub max_value : F

pub record Slot (F : Type 0) : Type 0 where
  pub timestamp : Word
  pub groups : Map String (AggregateGroup F)
  pub version : Word

pub record RingBuffer (F : Type 0) : Type 0 where
  pub head : Word
  pub tail : Word
  pub buffer : List (Slot F)
  pub capacity : Word
  pub mask : Word
  pub slot_size : Word
  pub writes : Word
  pub reads : Word
  pub overwrites : Word

pub record TimeSeriesPoint (F : Type 0) : Type 0 where
  pub timestamp : Word
  pub group_key : String
  pub value : F

unfoldable pub smear : Word → Word
smear v =
    let v₁ = bit_or v (v / 2) in
    let v₂ = bit_or v₁ (v₁ / 4) in
    let v₃ = bit_or v₂ (v₂ / 16) in
    let v₄ = bit_or v₃ (v₃ / 2 ^ 8) in let v₅ = bit_or v₄ (v₄ / 2 ^ 16) in bit_or v₅ (v₅ / 2 ^ 32)

-- The next power of two of a number that is none.
unfoldable pub round_capacity : Word → Word
unfolding smear
round_capacity capacity =
    if eqb (bit_and capacity (sub64 capacity 1)) 0
    then capacity
    else add64 (smear (sub64 capacity 1)) 1

abbrev pub empty_slot : {F : Type 0} → Slot F
empty_slot = record { timestamp = 0; groups = []; version = 0 }

unfoldable pub new_ring_buffer : {F : Type 0} → Word → Word → RingBuffer F
unfolding round_capacity
new_ring_buffer capacity slot_size =
    let c = round_capacity capacity in
    record {
      head = 0;
      tail = 0;
      buffer = replicate c empty_slot;
      capacity = c;
      mask = sub64 c 1;
      slot_size = slot_size;
      writes = 0;
      reads = 0;
      overwrites = 0;
    }

abbrev pub new_group : {F : Type 0} → F → AggregateGroup F
new_group value = record { sum = value; count = 1; min_value = value; max_value = value }

-- The slot at a position, none if there is no such index.
unfoldable pub slot_at : {F : Type 0} → Word → RingBuffer F → Option (Slot F)
slot_at position rb = get_elem? rb.buffer (bit_and position rb.mask)

-- The copy of a slot has the same contents.
unfoldable pub read : {F : Type 0} → Word → RingBuffer F → Option (RingBuffer F × Option (Slot F))
unfolding slot_at
read position rb =
    if ltb position rb.tail
    then some (rb, none)
    else if leb rb.head position
    then some (rb, none)
    else elim (slot_at position rb) [
      | none ↦ none
      | some slot ↦ some (record rb { reads = add64 rb.reads 1 }, some slot)
    ]

unfoldable pub slots_from : {F : Type 0} → Word → ℕ → RingBuffer F → Option (List (Slot F))
unfolding slot_at
slots_from position zero rb = some []
slots_from position (suc left) rb =
    let rest = slots_from (suc position) left rb in
    elim (slot_at position rb) [
      | none ↦ none
      | some slot ↦ elim rest [ none ↦ none | some slots ↦ some (slot ∷ slots) ]
    ]

unfoldable pub read_range :
    {F : Type 0} → Word → Word → RingBuffer F → Option (RingBuffer F × List (Slot F))
unfolding slots_from
read_range start_pos end_pos rb =
    let first = if ltb start_pos rb.tail then rb.tail else start_pos in
    let last = if ltb rb.head end_pos then rb.head else end_pos in
    if leb last first then some (rb, []) else elim (slots_from first (last - first) rb) [
      | none ↦ none
      | some slots ↦ some (record rb { reads = add64 rb.reads (length slots) }, slots)
    ]

-- The points of each timestamp, in the order in which a range over the map takes them.
unfoldable pub add_point :
    {F : Type 0}
    → TimeSeriesPoint F
    → Map Word (List (TimeSeriesPoint F))
    → Map Word (List (TimeSeriesPoint F))
add_point point batches =
    insert point.timestamp
      (elim (lookup point.timestamp batches) [ none ↦ point ∷ [] | some ps ↦ ps ++ (point ∷ []) ])
      batches

unfoldable pub batches_of :
    {F : Type 0}
    → List (TimeSeriesPoint F)
    → Map Word (List (TimeSeriesPoint F))
    → Map Word (List (TimeSeriesPoint F))
unfolding add_point
batches_of [] batches = batches
batches_of (point ∷ points) batches = batches_of points (add_point point batches)

module _ (fl : Float64) where
  open fl use {F, lit, add, le}

  unfoldable pub update_aggregates : F → AggregateGroup F → AggregateGroup F
  update_aggregates value g = record g {
    sum = add g.sum value;
    count = add64 g.count 1;
    min_value = if le g.min_value value then g.min_value else value;
    max_value = if le value g.max_value then g.max_value else value;
  }

  unfoldable pub add_value : F → Option (AggregateGroup F) → AggregateGroup F
  unfolding update_aggregates
  add_value value none = new_group value
  add_value value (some g) = update_aggregates value g

  -- A slot that is overwritten loses its groups first.
  unfoldable pub write_slot : Bool → Word → String → F → Slot F → Slot F
  unfolding add_value
  write_slot full timestamp key value slot =
      let groups : Map String (AggregateGroup F) = if full then [] else slot.groups in
      record {
        timestamp = timestamp;
        groups = insert key (add_value value (lookup key groups)) groups;
        version = add64 slot.version 1;
      }

  unfoldable pub write : Word → String → F → RingBuffer F → Option (RingBuffer F)
  unfolding slot_at write_slot
  write timestamp key value rb =
      let pos = rb.head in
      let full = leb rb.capacity pos && leb rb.capacity (sub64 pos rb.tail) in
      elim (slot_at pos rb) [
        | none ↦ none
        | some slot ↦ some (record rb {
          head = add64 rb.head 1;
          tail = if full then add64 (sub64 pos rb.capacity) 1 else rb.tail;
          overwrites = if full then add64 rb.overwrites 1 else rb.overwrites;
          buffer = set rb.buffer (bit_and pos rb.mask) (write_slot full timestamp key value slot);
          writes = add64 rb.writes 1;
        })
      ]

  zero_group : AggregateGroup F
  zero_group = record { sum = lit 0 1; count = 0; min_value = lit 0 1; max_value = lit 0 1 }

  -- A group that a batch makes starts at zeros, its least value included.
  unfoldable pub add_points :
      List (TimeSeriesPoint F) → Map String (AggregateGroup F) → Map String (AggregateGroup F)
  unfolding zero_group update_aggregates
  add_points [] groups = groups
  add_points (point ∷ points) groups = add_points points (
      insert point.group_key
        (update_aggregates point.value
          (elim (lookup point.group_key groups) [ none ↦ zero_group | some g ↦ g ]))
        groups)

  unfoldable pub write_batches :
      Map Word (List (TimeSeriesPoint F)) → RingBuffer F → Option (RingBuffer F)
  unfolding slot_at add_points
  write_batches [] rb = some rb
  write_batches ((timestamp, points) ∷ batches) rb = elim (slot_at rb.head rb) [
    | none ↦ none
    | some slot ↦ write_batches batches (record rb {
      head = add64 rb.head 1;
      buffer = set rb.buffer (bit_and rb.head rb.mask) (record {
        timestamp = timestamp;
        groups = add_points points slot.groups;
        version = add64 slot.version 1;
      });
    })
  ]

  unfoldable pub batch_write : List (TimeSeriesPoint F) → RingBuffer F → Option (RingBuffer F)
  unfolding batches_of write_batches
  batch_write points rb = elim (write_batches (batches_of points []) rb) [
    | none ↦ none
    | some rb' ↦ some (record rb' { writes = add64 rb'.writes (length points) })
  ]
