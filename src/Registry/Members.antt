-- ===== src/Registry/Members.antt =====
-- Which instance the index has for a service and an identifier, after writes and removals.
use true_now.Base.{
  ℕ, String, Bool, true, false, Option, none, some, [], ◌∷◌, ◌≡◌, refl, sym, ap, ◌∙◌, subst, inl,
  inr, if◌then◌else◌, eqb, ◌==◌, nat_eq, string_eq, length, arith, Bool-cases, Option-cases,
}
use true_now.Base.Map.{Map, lookup, insert, delete, lookup-insert, lookup-delete}
use true_now.Registry.State.{members, add_member, remove_member}

-- The instance of a service by its identifier.
abbrev pub member : String → String → Map String (Map String ℕ) → Option ℕ
member service id services = lookup id (members service services)

abbrev or_empty : Option (Map String ℕ) → Map String ℕ
or_empty none = []
or_empty (some m) = m

members_lem :
    (s : String) (services : Map String (Map String ℕ))
    → members s services ≡ or_empty (lookup s services)
unfolding members
members_lem s services =
    elim (lookup s services)
      as (λ o. elim o as (λ x. Map String ℕ) [ none ↦ [] | some m ↦ m ] ≡ or_empty o) [
        | none ↦ refl
        | some m ↦ refl
      ]

or_empty_if :
    (b : Bool) (x y : Option (Map String ℕ))
    → or_empty (if b then x else y) ≡ (if b then or_empty x else or_empty y)
or_empty_if true x y = refl
or_empty_if false x y = refl

members-insert :
    (s : String) (m : Map String ℕ) (services : Map String (Map String ℕ)) (t : String)
    → members t (insert s m services) ≡ (if s == t then m else members t services)
members-insert s m services t =
    members_lem t (insert s m services)
    ∙ ap or_empty (lookup-insert s t m services)
    ∙ or_empty_if (s == t) (some m) (lookup t services)
    ∙ ap (λ x. if s == t then m else x) (sym (members_lem t services))

members-delete :
    (s : String) (services : Map String (Map String ℕ)) (t : String)
    → members t (delete s services) ≡ (if s == t then [] else members t services)
members-delete s services t =
    members_lem t (delete s services)
    ∙ ap or_empty (lookup-delete s t services)
    ∙ or_empty_if (s == t) none (lookup t services)
    ∙ ap (λ x. if s == t then [] else x) (sym (members_lem t services))

-- The index after a service's members are replaced by others.
member-changed :
    (s : String) (m : Map String ℕ) (services after : Map String (Map String ℕ)) (t j : String)
    → members t after ≡ (if s == t then m else members t services)
    → member t j after ≡ (if s == t then lookup j m else member t j services)
member-changed s m services after t j same = elim (Bool-cases (s == t)) [
  | inl here ↦ rw (same, here) refl
  | inr other ↦ rw (same, other) refl
]

pub member-add_member :
    (s id : String) (p : ℕ) (services : Map String (Map String ℕ)) (t j : String)
    → member t j (add_member s id p services)
      ≡ (if s == t then (if id == j then some p else member s j services) else member t j services)
unfolding add_member
member-add_member s id p services t j =
    let m = insert id p (members s services) in
    member-changed s m services (insert s m services) t j (members-insert s m services t)
    ∙ ap (λ x. if s == t then x else member t j services)
        (lookup-insert id j p (members s services))

lookup_empty : (m : Map String ℕ) (j : String) → eqb (length m) 0 ≡ true → lookup j m ≡ none
unfolding lookup
lookup_empty [] j h = refl
lookup_empty (e ∷ m) j h = absurd (ground arith)

lookup_nil : (j : String) → lookup {V = ℕ} j [] ≡ none
unfolding lookup
lookup_nil j = refl

pub member_absent :
    (s : String) (services : Map String (Map String ℕ)) (j : String)
    → lookup s services ≡ none
    → member s j services ≡ none
member_absent s services j h = ap (lookup j) (members_lem s services ∙ ap or_empty h) ∙ lookup_nil j

absent_member :
    (s id : String) (services : Map String (Map String ℕ)) (j : String)
    → lookup s services ≡ none
    → member s j services ≡ (if id == j then none else member s j services)
absent_member s id services j h =
    let none_ = member_absent s services j h in
    elim (Bool-cases (id == j)) [ inl t ↦ rw t none_ | inr f ↦ rw f refl ]

pub add_member_found :
    (s id : String) (p : ℕ) (services : Map String (Map String ℕ)) (m : Map String ℕ)
    → lookup s services ≡ some m
    → insert s (insert id p m) services ≡ add_member s id p services
unfolding add_member
add_member_found s id p services m h =
    ap (λ x. insert s (insert id p x) services) (sym (members_lem s services ∙ ap or_empty h))

remove_none :
    (s id : String) (services : Map String (Map String ℕ))
    → lookup s services ≡ none
    → remove_member s id services ≡ services
unfolding remove_member
remove_none s id services h = rw (h, remove_member) refl

remove_some :
    (s id : String) (services : Map String (Map String ℕ)) (m : Map String ℕ)
    → lookup s services ≡ some m
    → remove_member s id services ≡ (
        if eqb (length (delete id m)) 0 then delete s services else insert s (delete id m) services)
unfolding remove_member
remove_some s id services m h = rw (h, remove_member) refl

-- Whether the service is dropped or not, its members are those without the identifier.
members-remove :
    (s id : String) (services : Map String (Map String ℕ)) (m : Map String ℕ) (j : String)
    (t : String)
    → lookup s services ≡ some m
    → member t j (remove_member s id services)
      ≡ (if s == t then lookup j (delete id m) else member t j services)
members-remove s id services m j t h = elim (Bool-cases (eqb (length (delete id m)) 0)) [
  | inl last ↦
      ap (member t j) (remove_some s id services m h ∙ rw last refl)
      ∙ member-changed s [] services (delete s services) t j (members-delete s services t)
      ∙ ap (λ x. if s == t then x else member t j services)
          (lookup_nil j ∙ sym (lookup_empty (delete id m) j last))
  | inr more ↦
      ap (member t j) (remove_some s id services m h ∙ rw more refl)
      ∙ member-changed s (delete id m) services (insert s (delete id m) services) t j
          (members-insert s (delete id m) services t)
]

pub member-remove_member :
    (s id : String) (services : Map String (Map String ℕ)) (t j : String)
    → member t j (remove_member s id services)
      ≡ (if s == t then (if id == j then none else member s j services) else member t j services)
member-remove_member s id services t j = elim (Option-cases (lookup s services)) [
  | inl absent ↦ ap (member t j) (remove_none s id services absent) ∙ elim (Bool-cases (s == t)) [
    | inl same ↦ rw same (
        subst (λ x. member x j services ≡ (if id == j then none else member s j services))
          ((string_eq.beq_iff s t).0 same) (absent_member s id services j absent))
    | inr other ↦ rw other refl
  ]
  | inr (m, found) ↦
      members-remove s id services m j t found
      ∙ ap (λ x. if s == t then x else member t j services)
          (lookup-delete id j m
            ∙ ap (λ x. if id == j then none else lookup j x)
                (sym (members_lem s services ∙ ap or_empty found)))
]
