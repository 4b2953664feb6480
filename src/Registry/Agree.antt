-- ===== src/Registry/Agree.antt =====
-- When an index by service agrees with a map of instances, in terms of what lookups find.
use true_now.Base.{
  ℕ, String, false, Option, none, some, ◌≡◌, refl, sym, ap, subst, ◌∙◌, inl, inr, if◌then◌else◌,
  ◌==◌, nat_eq, string_eq, Bool-cases,
}
use true_now.Registry.Types.{Instance}

-- A lookup after a write of `o` at `k`.
abbrev pub at_key : String → Option ℕ → String → Option ℕ → Option ℕ
at_key k o j old = if k == j then o else old

module _ {F : Type 0} (store : ℕ → Instance F) where
  -- What the index should have for a service and an identifier.
  abbrev pub expected : String → Option ℕ → Option ℕ
  expected service none = none
  expected service (some p) = if (store p).service_name == service then some p else none

  -- Every instance stands under its own identifier, and the index has it under its service, alone.
  pub record Agrees (find : String → Option ℕ) (mem : String → String → Option ℕ) : Type 0 where
    pub ids : (id : String) (p : ℕ) → find id ≡ some p → (store p).id ≡ id
    pub index : (service id : String) → mem service id ≡ expected service (find id)

  module _ {find : String → Option ℕ} {mem : String → String → Option ℕ} (v : Agrees find mem) where
    -- A write of an instance to both, when no other service has its identifier.
    pub put-Agrees :
        (p : ℕ) (find' : String → Option ℕ) (mem' : String → String → Option ℕ)
        → let i = store p in
          ((t : String) → (i.service_name == t) ≡ false → mem t i.id ≡ none)
          → ((j : String) → find' j ≡ at_key i.id (some p) j (find j))
          → ((t j : String)
              → mem' t j ≡ (
                  if i.service_name == t
                  then at_key i.id (some p) j (mem i.service_name j)
                  else mem t j))
          → Agrees find' mem'
    put-Agrees p find' mem' alone finds indexes =
        let i = store p in
        record {
          ids = λ j q h. elim (Bool-cases (i.id == j)) [
            | inl same ↦
                let is_p : find' j ≡ some p = finds j ∙ rw same refl in
                let named : i.id ≡ j = (string_eq.beq_iff i.id j).0 same in cc (h, is_p, named)
            | inr other ↦ v.ids j q (sym (finds j ∙ rw other refl) ∙ h)
          ];
          index = λ t j. elim (Bool-cases (i.service_name == t)) [
            | inl here ↦ elim (Bool-cases (i.id == j)) [
              | inl same ↦ rw (finds j, indexes t j, same, here) refl
              | inr other ↦
                  rw (finds j, indexes t j, other, here)
                    (subst (λ x. mem x j ≡ expected t (find j))
                      (sym ((string_eq.beq_iff i.service_name t).0 here)) (v.index t j))
            ]
            | inr away ↦ elim (Bool-cases (i.id == j)) [
              | inl same ↦
                  rw (finds j, indexes t j, same, away)
                    (subst (λ x. mem t x ≡ none) ((string_eq.beq_iff i.id j).0 same) (alone t away))
              | inr other ↦ rw (finds j, indexes t j, other, away) (v.index t j)
            ]
          ];
        }

    -- The removal of an instance from both.
    pub drop-Agrees :
        (id : String) (p : ℕ) (find' : String → Option ℕ) (mem' : String → String → Option ℕ)
        → let s = (store p).service_name in
          find id ≡ some p
          → ((j : String) → find' j ≡ at_key id none j (find j))
          → ((t j : String) → mem' t j ≡ (if s == t then at_key id none j (mem s j) else mem t j))
          → Agrees find' mem'
    drop-Agrees id p find' mem' here finds indexes =
        let s = (store p).service_name in
        record {
          ids = λ j q h. elim (Bool-cases (id == j)) [
            | inl same ↦ let gone : find' j ≡ none = finds j ∙ rw same refl in absurd (cc (h, gone))
            | inr other ↦ v.ids j q (sym (finds j ∙ rw other refl) ∙ h)
          ];
          index = λ t j. elim (Bool-cases (s == t)) [
            | inl home ↦ elim (Bool-cases (id == j)) [
              | inl same ↦ rw (finds j, indexes t j, same, home) refl
              | inr other ↦
                  rw (finds j, indexes t j, other, home)
                    (subst (λ x. mem x j ≡ expected t (find j))
                      (sym ((string_eq.beq_iff s t).0 home)) (v.index t j))
            ]
            | inr away ↦ elim (Bool-cases (id == j)) [
              | inl same ↦
                  rw (finds j, indexes t j, same, away)
                    (subst (λ x. mem t x ≡ none) ((string_eq.beq_iff id j).0 same)
                      (v.index t id ∙ ap (expected t) here ∙ rw away refl))
              | inr other ↦ rw (finds j, indexes t j, other, away) (v.index t j)
            ]
          ];
        }

-- A change of the store that keeps identifiers and services.
abbrev pub KeepsNames : {F : Type 0} → (ℕ → Instance F) → (ℕ → Instance F) → Type 0
KeepsNames before after =
    (p : ℕ) → ((after p).id ≡ (before p).id) × ((after p).service_name ≡ (before p).service_name)

module _ {F : Type 0} (before after : ℕ → Instance F) (same : KeepsNames before after) where
  expected_kept :
      (service : String) (o : Option ℕ) → expected after service o ≡ expected before service o
  expected_kept service none = refl
  expected_kept service (some p) = ap (λ x. if x == service then some p else none) ((same p).1)

  pub kept-Agrees :
      (find : String → Option ℕ) (mem : String → String → Option ℕ)
      → Agrees before find mem
      → Agrees after find mem
  kept-Agrees find mem v = record {
    ids = λ id p h. (same p).0 ∙ v.ids id p h;
    index = λ s id. v.index s id ∙ sym (expected_kept s (find id));
  }
