-- ===== src/RingBuffer/Examples.antt =====
-- Three writes to a ring of two slots: the last two are there.
use true_now.Base.{ℕ, ◌≡◌, ◌^◌, ◌≤◌, refl, arith, some, List, [], ◌∷◌}
use true_now.Base.Word.{add64}
use true_now.Base.Float.{whole_float}
use true_now.RingBuffer.{Slot, RingBuffer, new_ring_buffer, read}
use true_now.RingBuffer.Writes.{Entry, Holds}
use true_now.RingBuffer.Reads.{write_all, read-write_all}

abbrev entries : List (Entry ℕ)
entries = (1, "a", 10) ∷ (2, "b", 20) ∷ (3, "a", 30) ∷ []

two_slots : 2 ^ 1 ≤ 2 ^ 63
two_slots = omega arith

read-write_all_example :
    (rb : RingBuffer ℕ) × (s : Slot ℕ) × (write_all whole_float 1 two_slots entries
        (new_ring_buffer (2 ^ 1) 64)
      ≡ some rb)
    × (read 2 rb ≡ some (record rb { reads = add64 rb.reads 1 }, some s))
    × Holds s (3, "a", 30)
read-write_all_example =
    read-write_all whole_float 1 two_slots 64 entries 2 (3, "a", 30) (omega arith) refl
      (omega arith)
