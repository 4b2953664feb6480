-- ===== src/RingBuffer/Writes.antt =====
-- What can be read after writes: the last ones, as many as there are slots.
use true_now.Base.{
  ℕ, suc, ◌+◌, ◌-◌, ◌%◌, ◌^◌, ◌≤◌, ◌<◌, ◌≡◌, ◌≢◌, inl, inr, refl, sym, ap, subst, ◌∙◌, arith,
  String, Bool, ◌&&◌, some, [], ◌∷◌, if◌then◌else◌, nat_eq, string_eq, eqb, leb, length, get_elem?,
  set, length-set, get_elem?-set_self, get_elem?-set_ne, Bool-cases,
}
use Prim.Native.Nat.{bit_and}
use native.Mathlib.Nat.{mod-lt, mod-eq_of_lt, add-mod_right}
use true_now.Base.Word.{Word, add64, sub64}
use true_now.Base.Float.{Float64}
use true_now.Base.Map.{lookup, insert}
use true_now.RingBuffer.Mask.{pow_pos, bit_and_mask, mod_apart}
use true_now.RingBuffer.{Slot, RingBuffer, new_group, slot_at, write, write_slot, add_value}

-- A write: its timestamp, its group and its value.
abbrev pub Entry : Type 0 → Type 0
Entry F = Word × String × F

-- The slot of one write.
abbrev pub Holds : {F : Type 0} → Slot F → Entry F → Type 0
Holds s e = (s.timestamp ≡ e.0) × (s.groups ≡ (e.1, new_group (e.2)) ∷ [])

module _ (fl : Float64) (k : ℕ) (small : 2 ^ k ≤ 2 ^ 63) where
  open fl use {F}

  -- After the first `n` writes of a log.
  pub record IsRing (log : ℕ → Entry F) (n : ℕ) (rb : RingBuffer F) : Type 0 where
    pub capacity : rb.capacity ≡ 2 ^ k
    pub mask : rb.mask ≡ 2 ^ k - 1
    pub size : length rb.buffer ≡ 2 ^ k
    pub head : rb.head ≡ n
    pub tail : rb.tail ≡ n - 2 ^ k
    pub written :
        (p : ℕ)
        → p < n
        → n ≤ p + 2 ^ k
        → (s : Slot F) × (get_elem? rb.buffer (p % 2 ^ k) ≡ some s) × Holds s (log p)
    pub fresh :
        (j : ℕ)
        → n ≤ j
        → j < 2 ^ k
        → (s : Slot F) × (get_elem? rb.buffer j ≡ some s) × (s.groups ≡ [])

  pub at_remainder :
      (log : ℕ → Entry F) (n : ℕ) (rb : RingBuffer F)
      → IsRing log n rb
      → (p : ℕ) → slot_at p rb ≡ get_elem? rb.buffer (p % 2 ^ k)
  unfolding slot_at
  at_remainder log n rb v p =
      ap (λ m. get_elem? rb.buffer (bit_and p m)) v.mask
      ∙ ap (get_elem? rb.buffer) (bit_and_mask p k)

  abbrev is_full : RingBuffer F → Bool
  is_full rb = leb rb.capacity rb.head && leb rb.capacity (sub64 rb.head rb.tail)

  is_full_lem :
      (log : ℕ → Entry F) (n : ℕ) (rb : RingBuffer F)
      → IsRing log n rb
      → n < 2 ^ 64
      → is_full rb ≡ leb (2 ^ k) n
  is_full_lem log n rb v bound =
      rw (v.capacity, v.head, v.tail) (ground (arith, small, bound, pow_pos k))

  -- The slot that is written next, with the groups that a write leaves in it.
  next_slot :
      (log : ℕ → Entry F) (n : ℕ) (rb : RingBuffer F)
      → IsRing log n rb
      → (s : Slot F) × (get_elem? rb.buffer (n % 2 ^ k) ≡ some s)
        × ((if leb (2 ^ k) n then [] else s.groups) ≡ [])
  next_slot log n rb v = elim (Bool-cases (leb (2 ^ k) n)) [
    | inl full ↦
        let behind : n - 2 ^ k < n = ground (arith, full, pow_pos k) in
        let (s, found, _) = v.written (n - 2 ^ k) behind (omega arith) in
        let back : n - 2 ^ k + 2 ^ k ≡ n = ground (arith, full) in
        let same = ap (λ x. x % 2 ^ k) (sym back) ∙ add-mod_right (n - 2 ^ k) (2 ^ k) in
        rw full (s, ap (get_elem? rb.buffer) same ∙ found, refl)
    | inr room ↦
        let inside : n < 2 ^ k = ground (arith, room) in
        let (s, found, empty) = v.fresh n (omega arith) inside in
        rw room (s, ap (get_elem? rb.buffer) (mod-eq_of_lt inside) ∙ found, empty)
  ]

  written_slot :
      (full : Bool) (e : Entry F) (s : Slot F)
      → (if full then [] else s.groups) ≡ []
      → Holds (write_slot fl full (e.0) (e.1) (e.2) s) e
  unfolding write_slot add_value lookup insert
  written_slot full e s empty =
      (refl, ap (λ m. insert (e.1) (add_value fl (e.2) (lookup (e.1) m)) m) empty)

  -- The ring with a slot written.
  abbrev put_slot : Bool → ℕ → Word → Slot F → RingBuffer F → RingBuffer F
  put_slot full idx tail s rb = record rb {
    head = add64 rb.head 1;
    tail = tail;
    overwrites = if full then add64 rb.overwrites 1 else rb.overwrites;
    buffer = set rb.buffer idx s;
    writes = add64 rb.writes 1;
  }

  write_found :
      (e : Entry F) (rb : RingBuffer F) (s : Slot F)
      → slot_at rb.head rb ≡ some s
      → write fl (e.0) (e.1) (e.2) rb
        ≡ some (
            put_slot
              (is_full rb)
              (bit_and rb.head rb.mask)
              (if is_full rb then add64 (sub64 rb.head rb.capacity) 1 else rb.tail)
              (write_slot fl (is_full rb) (e.0) (e.1) (e.2) s)
              rb)
  unfolding write
  write_found e rb s found = rw (found, write) refl

  put_slot-IsRing :
      (log : ℕ → Entry F) (n : ℕ) (rb : RingBuffer F) (full : Bool) (idx : ℕ) (tail : Word)
      (s : Slot F)
      → IsRing log n rb
      → n < 2 ^ 64 - 1
      → idx ≡ n % 2 ^ k
      → tail ≡ suc n - 2 ^ k
      → Holds s (log n)
      → IsRing log (suc n) (put_slot full idx tail s rb)
  put_slot-IsRing log n rb full idx tail s v bound at tail_ holds =
      let inside : idx < length rb.buffer =
        omega (arith, at, v.size, mod-lt n {m = 2 ^ k} (pow_pos k)) in
      record {
        capacity = v.capacity;
        mask = v.mask;
        size = length-set rb.buffer idx s ∙ v.size;
        head = omega (arith, v.head, bound);
        tail = tail_;
        written = λ p before near. elim (Bool-cases (eqb p n)) [
          | inl last ↦
              let is_n : p ≡ n = ground (arith, last) in
              (
                s,
                ap (get_elem? (set rb.buffer idx s)) (ap (λ x. x % 2 ^ k) is_n ∙ sym at)
                    ∙ get_elem?-set_self rb.buffer idx s inside,
                subst (λ x. Holds s (log x)) (sym is_n) holds,
              )
          | inr older ↦
              let earlier : p < n = ground (arith, before, older) in
              let (s', found, holds') = v.written p earlier (omega (arith, near)) in
              let apart : idx ≢ p % 2 ^ k = λ same.
                mod_apart (2 ^ k) p n (pow_pos k) earlier (omega (arith, near)) (sym same ∙ at) in
              (s', get_elem?-set_ne rb.buffer s apart ∙ found, holds')
        ];
        fresh = λ j later room.
            let (s', found, empty) = v.fresh j (omega (arith, later)) room in
            let is_n : n % 2 ^ k ≡ n = mod-eq_of_lt (omega (arith, later, room)) in
            let apart : idx ≢ j = λ same. absurd (omega (arith, same, at, is_n, later)) in
            (s', get_elem?-set_ne rb.buffer s apart ∙ found, empty);
      }

  pub step-IsRing :
      (log : ℕ → Entry F) (n : ℕ) (rb : RingBuffer F)
      → IsRing log n rb
      → n < 2 ^ 64 - 1
      → let e = log n in
        (rb' : RingBuffer F) × (write fl (e.0) (e.1) (e.2) rb ≡ some rb') × IsRing log (suc n) rb'
  step-IsRing log n rb v bound =
      let (s, found, empty) = next_slot log n rb v in
      let is_full_ = is_full_lem log n rb v (omega (arith, bound)) in
      let at : bit_and rb.head rb.mask ≡ n % 2 ^ k = rw (v.head, v.mask) (bit_and_mask n k) in
      let here : slot_at rb.head rb ≡ some s =
        at_remainder log n rb v rb.head
        ∙ ap (λ x. get_elem? rb.buffer (x % 2 ^ k)) v.head
        ∙ found in
      let tail_ : (if is_full rb then add64 (sub64 rb.head rb.capacity) 1 else rb.tail)
          ≡ suc n - 2 ^ k =
        rw (is_full_, v.head, v.capacity, v.tail) (ground (arith, small, bound, pow_pos k)) in
      (
        _,
        write_found (log n) rb s here,
        put_slot-IsRing log n rb (is_full rb) _ _ _ v bound at tail_ (
            written_slot (is_full rb) (log n) s
              (ap (λ b. if b then [] else s.groups) is_full_ ∙ empty)),
      )
