-- ===== src/Java/Symbols.antt =====
-- nodes/remediation.py: symbols, `package.Class#member`, and the Java text that stands for them.
-- Texts are lists of code points.
use execution_accelerator.Prelude.{
  ℕ, Bool, true, false, ◌&&◌, ◌||◌, Option, none, some, List, [], ◌∷◌, ◌++◌, codes, contains, eqb,
  if◌then◌else◌,
}

-- `text.split(c, maxsplit=1)`, and `none` where the character is missing
unfoldable pub split_first : ℕ → List ℕ → Option (List ℕ × List ℕ)
split_first c [] = none
split_first c (d ∷ ds) =
    if eqb d c
    then some ([], ds)
    else elim (split_first c ds) [ none ↦ none | some (p, q) ↦ some (d ∷ p, q) ]

-- `text.rsplit(c, maxsplit=1)`, and `none` where the character is missing
unfoldable pub split_last : ℕ → List ℕ → Option (List ℕ × List ℕ)
split_last c [] = none
split_last c (d ∷ ds) = elim (split_last c ds) [
  | none ↦ if eqb d c then some ([], ds) else none
  | some (p, q) ↦ some (d ∷ p, q)
]

abbrev pub is_nil : List ℕ → Bool
is_nil [] = true
is_nil (c ∷ cs) = false

abbrev pub non_nil : List ℕ → Option (List ℕ)
non_nil [] = none
non_nil (c ∷ cs) = some (c ∷ cs)

-- `text.rsplit(c, maxsplit=1)[-1]`
abbrev pub last_piece : ℕ → List ℕ → List ℕ
last_piece c text = elim (split_last c text) [ none ↦ text | some (p, q) ↦ q ]

-- `text.split(c, maxsplit=1)[0]`
abbrev pub first_piece : ℕ → List ℕ → List ℕ
first_piece c text = elim (split_first c text) [ none ↦ text | some (p, q) ↦ p ]

abbrev pub init_mark : List ℕ
init_mark = codes "<init>"

abbrev pub rendered_class : List ℕ → Bool → List ℕ
rendered_class class_name qualified = if qualified then class_name else last_piece b'.' class_name

-- The class and the member of a symbol that has both, and whose member is no constructor.
abbrev pub member_parts : Option (List ℕ × List ℕ) → Option (List ℕ × List ℕ)
member_parts none = none
member_parts (some (class_name, member)) =
    if is_nil class_name || is_nil member || contains init_mark member
    then none
    else some (class_name, member)

-- `_render_java_method_call`
unfoldable pub render_java_method_call : List ℕ → Bool → Option (List ℕ)
unfolding split_first
render_java_method_call symbol qualified = elim (member_parts (split_first b'#' symbol)) [
  | none ↦ none
  | some (class_name, member) ↦
      some (rendered_class class_name qualified ++ (b'.' ∷ (member ++ (b'(' ∷ []))))
]

abbrev reference_of : List ℕ → List ℕ → Option (List ℕ × List ℕ) → Option (List ℕ)
reference_of rendered member none = some (rendered ++ (codes "::" ++ member))
reference_of rendered member (some (qualifier, method_name)) =
    if is_nil qualifier || is_nil method_name
    then none
    else some (rendered ++ (b'.' ∷ (qualifier ++ (codes "::" ++ method_name))))

-- `_render_java_method_reference`
unfoldable pub render_java_method_reference : List ℕ → Bool → Option (List ℕ)
unfolding split_first split_last
render_java_method_reference symbol qualified = elim (member_parts (split_first b'#' symbol)) [
  | none ↦ none
  | some (class_name, member) ↦
      reference_of (rendered_class class_name qualified) member (split_last b'.' member)
]

-- `_render_java_field_reference`
unfoldable pub render_java_field_reference : List ℕ → Bool → Option (List ℕ)
unfolding split_first
render_java_field_reference symbol qualified = elim (member_parts (split_first b'#' symbol)) [
  | none ↦ none
  | some (class_name, member) ↦
      if contains (codes "(") member
      then none
      else some (rendered_class class_name qualified ++ (b'.' ∷ member))
]

-- `_parse_java_symbol_class`
unfoldable pub parse_java_symbol_class : List ℕ → Option (List ℕ)
unfolding split_first
parse_java_symbol_class symbol = elim (split_first b'#' symbol) [
  | none ↦ none
  | some (class_name, member) ↦ non_nil class_name
]

-- `_parse_java_method_name`
unfoldable pub parse_java_method_name : List ℕ → Option (List ℕ)
unfolding split_first split_last
parse_java_method_name symbol = elim (split_first b'#' symbol) [
  | none ↦ none
  | some (class_name, member) ↦
      if is_nil member || contains init_mark member
      then none
      else non_nil (first_piece b'(' (last_piece b'.' member))
]

-- `_parse_java_field_name`
unfoldable pub parse_java_field_name : List ℕ → Option (List ℕ)
unfolding split_first split_last
parse_java_field_name symbol = elim (split_first b'#' symbol) [
  | none ↦ none
  | some (class_name, member) ↦
      if is_nil member || contains (codes "(") member || contains init_mark member
      then none
      else non_nil (last_piece b'.' member)
]

-- `text.startswith(prefix)`
unfoldable pub starts_text : List ℕ → List ℕ → Bool
starts_text [] text = true
starts_text (n ∷ ns) [] = false
starts_text (n ∷ ns) (c ∷ cs) = eqb n c && starts_text ns cs

-- What stands before the first place of a text, `text.partition(mark)[0]`, if the text has it.
unfoldable pub before_text : List ℕ → List ℕ → Option (List ℕ)
unfolding starts_text
before_text mark [] = if starts_text mark [] then some [] else none
before_text mark (c ∷ cs) =
    let rest : Option (List ℕ) = elim (before_text mark cs) [
      | none ↦ none
      | some p ↦ some (c ∷ p)
    ] in
    if starts_text mark (c ∷ cs) then some [] else rest

abbrev or_before : Option (List ℕ) → Option (List ℕ) → Option (List ℕ)
or_before (some class_name) other = non_nil class_name
or_before none (some class_name) = non_nil class_name
or_before none none = none

-- `_parse_java_constructor_class`
unfoldable pub parse_java_constructor_class : List ℕ → Option (List ℕ)
unfolding before_text
parse_java_constructor_class symbol =
    or_before (before_text (codes "#<init>") symbol) (before_text (codes ".<init>") symbol)

-- `_render_java_factory_call`
unfoldable pub render_java_factory_call : List ℕ → Bool → Option (List ℕ)
unfolding split_first
render_java_factory_call symbol qualified = elim (member_parts (split_first b'#' symbol)) [
  | none ↦ none
  | some (class_name, member) ↦
      some (rendered_class class_name qualified ++ (b'.' ∷ first_piece b'(' member))
]
