-- ===== src/Java/Parse.antt =====
-- A symbol that is written as `package.Class#member` is read back in its parts.
use execution_accelerator.Prelude.{
  ℕ, ◌≡◌, refl, true, false, none, some, List, [], ◌∷◌, ◌++◌, All, codes, contains, eqb, arith,
}
use execution_accelerator.Java.Symbols.{
  first_piece, init_mark, is_nil, last_piece, member_parts, non_nil, rendered_class,
  parse_java_field_name, parse_java_method_name, parse_java_symbol_class,
  render_java_field_reference, render_java_method_call, split_first, split_last,
}

-- A text without a character.
abbrev pub Without : ℕ → List ℕ → Type 0
Without c = All (λ d. eqb d c ≡ false)

eqb_refl : (c : ℕ) → eqb c c ≡ true
eqb_refl c = ground arith

Without-append : (c : ℕ) (p q : List ℕ) → Without c p → Without c q → Without c (p ++ q)
Without-append c [] q h k = k
Without-append c (d ∷ p) q h k = (h.0, Without-append c p q h.1 k)

split_first-append :
    (c : ℕ) (p q : List ℕ) → Without c p → split_first c (p ++ (c ∷ q)) ≡ some (p, q)
unfolding split_first
split_first-append c [] q h = rw (eqb_refl c) refl
split_first-append c (d ∷ p) q h = rw (h.0, split_first-append c p q h.1) refl

split_first_missing : (c : ℕ) (p : List ℕ) → Without c p → split_first c p ≡ none
unfolding split_first
split_first_missing c [] h = refl
split_first_missing c (d ∷ p) h = rw (h.0, split_first_missing c p h.1) refl

split_last_missing : (c : ℕ) (p : List ℕ) → Without c p → split_last c p ≡ none
unfolding split_last
split_last_missing c [] h = refl
split_last_missing c (d ∷ p) h = rw (split_last_missing c p h.1, h.0) refl

split_last-append : (c : ℕ) (p q : List ℕ) → Without c q → split_last c (p ++ (c ∷ q)) ≡ some (p, q)
unfolding split_last
split_last-append c [] q h = rw (split_last_missing c q h, eqb_refl c) refl
split_last-append c (d ∷ p) q h = rw (split_last-append c p q h) refl

-- A package, a class of it, and a member, none of them empty: the package and the class have no
-- `#`, the class and the member no `.`, and the member no `(` and no `<init>`.
pub record IsMember (package_name class_name member : List ℕ) : Type 0 where
  pub package_plain : Without b'#' package_name
  pub class_plain : Without b'#' class_name
  pub class_simple : Without b'.' class_name
  pub member_simple : Without b'.' member
  pub member_open : Without b'(' member
  pub not_init : contains init_mark member ≡ false
  pub class_there : is_nil class_name ≡ false
  pub member_there : is_nil member ≡ false

-- `package.Class`
abbrev pub qualified_class : List ℕ → List ℕ → List ℕ
qualified_class package_name class_name = package_name ++ (b'.' ∷ class_name)

-- `package.Class#member`
abbrev pub symbol_text : List ℕ → List ℕ → List ℕ → List ℕ
symbol_text package_name class_name member =
    qualified_class package_name class_name ++ (b'#' ∷ member)

last_piece_missing : (c : ℕ) (p : List ℕ) → Without c p → last_piece c p ≡ p
last_piece_missing c p h = rw (split_last_missing c p h, last_piece) refl

first_piece_missing : (c : ℕ) (p : List ℕ) → Without c p → first_piece c p ≡ p
first_piece_missing c p h = rw (split_first_missing c p h, first_piece) refl

non_nil_lem : (p : List ℕ) → is_nil p ≡ false → non_nil p ≡ some p
non_nil_lem [] h = cc
non_nil_lem (c ∷ cs) h = refl

contains_open : (p : List ℕ) → Without b'(' p → contains (codes "(") p ≡ false
unfolding contains
contains_open [] h = refl
contains_open (d ∷ p) h = ground (arith, h.0, contains_open p h.1)

module _ (package_name class_name member : List ℕ)
    (m : IsMember package_name class_name member) where
  symbol_text-split :
      split_first b'#' (symbol_text package_name class_name member)
      ≡ some (qualified_class package_name class_name, member)
  symbol_text-split =
      split_first-append b'#' (qualified_class package_name class_name) member
        (Without-append b'#' package_name (b'.' ∷ class_name) m.package_plain (refl, m.class_plain))

  qualified_class-is_nil : is_nil (qualified_class package_name class_name) ≡ false
  qualified_class-is_nil = not_nil package_name
    where
      not_nil : (p : List ℕ) → is_nil (p ++ (b'.' ∷ class_name)) ≡ false
      not_nil [] = refl
      not_nil (c ∷ cs) = refl

  last_piece-qualified_class :
      last_piece b'.' (qualified_class package_name class_name) ≡ class_name
  last_piece-qualified_class =
      rw (split_last-append b'.' package_name class_name m.class_simple, last_piece) refl

  member_parts-symbol_text :
      member_parts (split_first b'#' (symbol_text package_name class_name member))
      ≡ some (qualified_class package_name class_name, member)
  member_parts-symbol_text =
      rw (symbol_text-split, member_parts)
        (rw (qualified_class-is_nil, m.member_there, m.not_init) refl)

  -- The text of a symbol `package.Class#member` is read back: its class is the qualified class, its
  -- method and its field are the member, and the call and the field reference that stand for it are
  -- the member behind a dot and the qualified or the simple class.
  pub symbol_text-parts :
      let symbol = symbol_text package_name class_name member in
      let full = qualified_class package_name class_name in
      (parse_java_symbol_class symbol ≡ some full)
      × (parse_java_method_name symbol ≡ some member)
      × (parse_java_field_name symbol ≡ some member)
      × (render_java_method_call symbol true ≡ some (full ++ (b'.' ∷ (member ++ (b'(' ∷ [])))))
      × (render_java_method_call symbol false
          ≡ some (class_name ++ (b'.' ∷ (member ++ (b'(' ∷ [])))))
      × (render_java_field_reference symbol true ≡ some (full ++ (b'.' ∷ member)))
      × (render_java_field_reference symbol false ≡ some (class_name ++ (b'.' ∷ member)))
  unfolding parse_java_symbol_class parse_java_method_name parse_java_field_name
      render_java_method_call render_java_field_reference
  symbol_text-parts =
      let last = last_piece_missing b'.' member m.member_simple in
      let first = first_piece_missing b'(' member m.member_open in
      let open_paren = contains_open member m.member_open in
      (
        rw (symbol_text-split, parse_java_symbol_class)
            (non_nil_lem (qualified_class package_name class_name) qualified_class-is_nil),
        rw (symbol_text-split, parse_java_method_name, m.member_there, m.not_init, last, first)
            (non_nil_lem member m.member_there),
        rw (symbol_text-split, parse_java_field_name, m.member_there, open_paren, m.not_init, last)
            (non_nil_lem member m.member_there),
        rw (member_parts-symbol_text, render_java_method_call) refl,
        rw
            (
              member_parts-symbol_text, render_java_method_call, rendered_class,
              last_piece-qualified_class,
            )
            refl,
        rw (member_parts-symbol_text, render_java_field_reference, open_paren) refl,
        rw
            (
              member_parts-symbol_text, render_java_field_reference, open_paren, rendered_class,
              last_piece-qualified_class,
            )
            refl,
      )
