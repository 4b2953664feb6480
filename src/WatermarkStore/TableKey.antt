-- ===== src/WatermarkStore/TableKey.antt =====
-- The text that stands for a table, and how it is taken apart.
use true_now.Base.{
  String, Bool, false, List, [], ◌∷◌, ◌≡◌, refl, sym, ap, ◌∙◌, ◌||◌, if◌then◌else◌, ◌==◌, string_eq,
  arith, eqb,
}
use Prim.Native.Char.{Char, code}
use Prim.Native.String.{◌++◌ as concat}
use text.Mathlib.TextLemmas.{append_assoc, append-nil, nil-append, cons-append}

abbrev pub is_dot : Char → Bool
is_dot c = eqb (code c) b'.'

-- `namespace + "." + table`
unfoldable pub table_key : String → String → String
table_key namespace table = concat namespace (concat "." table)

-- The parts between dots that are not empty, from the text to come and the part so far.
unfoldable pub split_from : String → String → List String
split_from String.[] current = if current == "" then [] else current ∷ []
split_from (String.◌∷◌ c s) current =
    let next = split_from s "" in
    let more = split_from s (concat current (String.◌∷◌ c String.[])) in
    if is_dot c then (if current == "" then next else current ∷ next) else more

unfoldable pub split_table_key : String → List String
unfolding split_from
split_table_key key = split_from key ""

abbrev pub has_dot : String → Bool
has_dot String.[] = false
has_dot (String.◌∷◌ c s) = is_dot c || has_dot s

split_plain :
    (c : Char) (s current : String)
    → is_dot c ≡ false
    → split_from (String.◌∷◌ c s) current ≡ split_from s (concat current (String.◌∷◌ c String.[]))
unfolding split_from
split_plain c s current h = rw h refl

split_from-append :
    (s rest current : String)
    → has_dot s ≡ false
    → split_from (concat s rest) current ≡ split_from rest (concat current s)
unfolding split_from
split_from-append String.[] rest current h =
    ap (λ x. split_from x current) (nil-append rest)
    ∙ ap (split_from rest) (sym (append-nil current))
split_from-append (String.◌∷◌ c s) rest current h =
    let plain : is_dot c ≡ false = ground (arith, h) in
    let others : has_dot s ≡ false = ground (arith, h) in
    let one = String.◌∷◌ c String.[] in
    ap (λ x. split_from x current) (cons-append c s rest)
    ∙ split_plain c (concat s rest) current plain
    ∙ split_from-append s rest (concat current one) others
    ∙ ap (split_from rest) (
        append_assoc current one s
        ∙ ap (concat current) (cons-append c String.[] s ∙ ap (String.◌∷◌ c) (nil-append s)))

split_at_dot :
    (s current : String)
    → (current == "") ≡ false
    → split_from (concat "." s) current ≡ current ∷ split_from s ""
unfolding split_from
split_at_dot s current h =
    ap (λ x. split_from x current)
      (cons-append "." String.[] s ∙ ap (String.◌∷◌ ".") (nil-append s))
    ∙ rw h refl

split_last : (s : String) → (s == "") ≡ false → has_dot s ≡ false → split_from s "" ≡ s ∷ []
unfolding split_from
split_last s some_ h =
    ap (λ x. split_from x "") (sym (append-nil s))
    ∙ split_from-append s "" "" h
    ∙ ap (split_from "") (nil-append s)
    ∙ rw some_ refl

-- The key of a namespace and a table is taken apart into these two, if neither of them is empty or
-- has a dot.
pub split_table_key-table_key :
    (namespace table : String)
    → (namespace == "") ≡ false
    → (table == "") ≡ false
    → has_dot namespace ≡ false
    → has_dot table ≡ false
    → split_table_key (table_key namespace table) ≡ namespace ∷ table ∷ []
unfolding split_table_key table_key
split_table_key-table_key namespace table some_namespace some_table plain plain_table =
    split_from-append namespace (concat "." table) "" plain
    ∙ ap (split_from (concat "." table)) (nil-append namespace)
    ∙ split_at_dot table namespace some_namespace
    ∙ ap (λ x. namespace ∷ x) (split_last table some_table plain_table)
