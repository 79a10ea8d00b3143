-- ===== src/Java/Moved.antt =====
-- What the loops over symbol mappings find for a member that has moved, and when they find nothing.
use execution_accelerator.Prelude.{ℕ, ◌≡◌, true, String, List, [], ◌∷◌, ◌++◌, codes, one_of}
use execution_accelerator.Schemas.{CodeChangeTarget, SymbolMappingEntry}
use execution_accelerator.Java.Parse.{IsMember, symbol_text}

-- A target names a symbol.
abbrev pub Names : CodeChangeTarget → String → Type 0
Names target symbol = one_of symbol target.related_symbols ≡ true

-- A mapping moves the member `x` of the class `p.c` to the member `y` of the class `q.d`.
pub record Moves (m : SymbolMappingEntry) (p c x q d y : List ℕ) : Type 0 where
  pub legacy : codes m.legacy_symbol ≡ symbol_text p c x
  pub replacement : codes m.replacement_symbol ≡ symbol_text q d y
  pub legacy_parts : IsMember p c x
  pub replacement_parts : IsMember q d y

-- `class.member`, and `class.member(`
abbrev pub field_text : List ℕ → List ℕ → List ℕ
field_text class_name member = class_name ++ (b'.' ∷ member)

abbrev pub call_text : List ℕ → List ℕ → List ℕ
call_text class_name member = class_name ++ (b'.' ∷ (member ++ (b'(' ∷ [])))
