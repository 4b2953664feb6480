-- ===== src/Coordinator/Transition.antt =====
-- What validation accepts, and what a transition does.
use true_now.Base.{
  ℕ, ◌+◌, ◌≤◌, ◌≡◌, ◌↔◌, refl, Bool, true, false, Option, none, some, List, [], ◌∷◌, arith,
  if◌then◌else◌, nat_eq, inl, inr, ltb, Sum-cases, Option-cases, Bool-cases, All,
}
use true_now.Base.Word.{Word}
use true_now.Base.Map.{Map, contains}
use true_now.Coordinator.{ShardAssignment, EpochConfig, ShardCoordinator}
use true_now.Coordinator.Epoch.{
  mem, mark_all, check_assignments, check_mapping, validate_epoch, notify, activate,
  transition_to_epoch,
}
use true_now.Coordinator.Ownership.{count, held}

-- No virtual shard is held twice, and each that is mapped is mapped to a shard of the epoch.
pub record IsConsistent (e : EpochConfig) : Type 0 where
  pub once : (v : ℕ) → held v e.assignments ≤ 1
  pub mapped : All (λ entry. contains entry.1 e.assignments ≡ true) e.virtual_to_physical

mem-count : (v : ℕ) (xs : List ℕ) → mem v xs ≡ (if ltb 0 (count v xs) then true else false)
unfolding mem
mem-count v [] = refl
mem-count v (x ∷ xs) = ground (arith, mem-count v xs)

-- What is seen after an accepted slice, with each virtual shard seen once at most.
mark_all-inr :
    (seen vs after : List ℕ)
    → ((v : ℕ) → count v seen ≤ 1)
    → mark_all seen vs ≡ inr after
    → (v : ℕ) → (count v after ≡ count v seen + count v vs) × (count v after ≤ 1)
unfolding mark_all
mark_all-inr seen [] after once e v = ground (arith, once v)
mark_all-inr seen (x ∷ vs) after once e v = elim (Bool-cases (mem x seen)) [
  | inl twice ↦ absurd (cc (rw (twice, mark_all) at e))
  | inr first ↦
      let rest : mark_all (x ∷ seen) vs ≡ inr after = ground arith in
      let once' : (w : ℕ) → count w (x ∷ seen) ≤ 1 =
        λ w. ground (arith, mem-count x seen, once w) in
      ground (arith, mark_all-inr (x ∷ seen) vs after once' rest v)
]

mark_all-exists :
    (seen vs : List ℕ)
    → ((v : ℕ) → count v seen + count v vs ≤ 1)
    → (after : List ℕ) × (mark_all seen vs ≡ inr after)
unfolding mark_all
mark_all-exists seen [] once = (seen, refl)
mark_all-exists seen (x ∷ vs) once =
    let (after, e) = mark_all-exists (x ∷ seen) vs (λ v. ground (arith, once v)) in
    (after, ground (arith, mem-count x seen, once x))

check_assignments-none :
    (seen : List ℕ) (m : Map ℕ ShardAssignment)
    → ((v : ℕ) → count v seen ≤ 1)
    → check_assignments seen m ≡ none
    → (v : ℕ) → count v seen + held v m ≤ 1
unfolding check_assignments
check_assignments-none seen [] once e v = omega (arith, once v)
check_assignments-none seen ((id, a) ∷ m) once e v =
    elim (Sum-cases (mark_all seen a.virtual_shards)) [
      | inl (err, f) ↦ absurd (cc (rw (f, check_assignments) at e))
      | inr (after, f) ↦
          let marked = mark_all-inr seen a.virtual_shards after once f in
          let rest : check_assignments after m ≡ none = rw (f, check_assignments) at e in
          omega (arith, marked v, check_assignments-none after m (λ w. (marked w).1) rest v)
    ]

none-check_assignments :
    (seen : List ℕ) (m : Map ℕ ShardAssignment)
    → ((v : ℕ) → count v seen + held v m ≤ 1)
    → check_assignments seen m ≡ none
unfolding check_assignments
none-check_assignments seen [] once = refl
none-check_assignments seen ((id, a) ∷ m) once =
    let (after, f) = mark_all-exists seen a.virtual_shards (λ v. omega (arith, once v)) in
    let seen_once : (v : ℕ) → count v seen ≤ 1 = λ v. omega (arith, once v) in
    rw (f, check_assignments)
      (none-check_assignments after m
        (λ v. omega (arith, once v, mark_all-inr seen a.virtual_shards after seen_once f v)))

check_mapping_iff :
    (m : Map ℕ ShardAssignment) (v2p : Map ℕ ℕ)
    → (check_mapping m v2p ≡ none) ↔ All (λ entry. contains entry.1 m ≡ true) v2p
unfolding check_mapping
check_mapping_iff m [] = (λ _. tt, λ _. refl)
check_mapping_iff m ((v, p) ∷ v2p) = ground (arith, check_mapping_iff m v2p)

-- `validateEpoch` accepts an epoch exactly if no virtual shard is held twice by its assignments
-- and every virtual shard that is mapped is mapped to one of its shards, whether that shard holds it
-- or not, and whether any shard does.
pub validate_epoch_iff : (e : EpochConfig) → (validate_epoch e ≡ none) ↔ IsConsistent e
unfolding validate_epoch
validate_epoch_iff e = (sound, complete)
  where
    sound : validate_epoch e ≡ none → IsConsistent e
    sound h = elim (Option-cases (check_assignments [] e.assignments)) [
      | inl ok_ ↦ record {
        once = λ v. omega (arith, check_assignments-none [] e.assignments (λ w. omega arith) ok_ v);
        mapped =
            (check_mapping_iff e.assignments e.virtual_to_physical).0
              (rw (ok_, validate_epoch) at h);
      }
      | inr (err, bad) ↦ absurd (cc (rw (bad, validate_epoch) at h))
    ]

    complete : IsConsistent e → validate_epoch e ≡ none
    complete c =
        rw (none-check_assignments [] e.assignments (λ v. omega (arith, c.once v)), validate_epoch)
          ((check_mapping_iff e.assignments e.virtual_to_physical).1 c.mapped)

-- `err == nil`
abbrev pub is_none {ℓ} : {A : Type ℓ} → Option A → Bool
is_none none = true
is_none (some a) = false

-- A transition enters the new epoch, if it is consistent and the callback has nothing against it:
-- then the counter is its number and the coordinator's assignments are its assignments. In each
-- other case it returns an error and changes nothing.
pub transition_to_epoch_lem :
    (now : Word) (e : EpochConfig) (c : ShardCoordinator)
    → let (c', err) = transition_to_epoch now e c in
      ((err ≡ none) ↔ (IsConsistent e × (notify c.on_epoch_change e ≡ none)))
      × (c' ≡ (
          if is_none err
          then record c {
            current_epoch = record e { activated_at = some now };
            epoch_counter = e.epoch;
            assignments = e.assignments;
          }
          else c))
unfolding transition_to_epoch activate
transition_to_epoch_lem now e c =
    let v = validate_epoch_iff e in
    elim (Option-cases (validate_epoch e)) [
      | inl ok_ ↦
          rw (ok_, transition_to_epoch)
            (elim (Option-cases (notify c.on_epoch_change e)) [
              | inl fine ↦
                  rw (fine, transition_to_epoch) (((λ _. (v.0 ok_, refl)), (λ _. refl)), refl)
              | inr (err, no_) ↦
                  rw (no_, transition_to_epoch)
                    (((λ h. absurd (cc h)), (λ h. absurd (cc h.1))), refl)
            ])
      | inr (err, bad) ↦
          rw (bad, transition_to_epoch)
            (((λ h. absurd (cc h)), (λ h. absurd (cc (bad, v.1 h.0)))), refl)
    ]
