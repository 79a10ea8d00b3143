-- ===== src/ToughPath/ApiDiff.antt =====
-- tough_path/api_diff.py: what differs between two public interfaces. An interface is a mapping from
-- full names to symbols, in the order in which they were found.
use Prim.Native.Char.{code}
use Prim.Native.String
use execution_accelerator.Prelude.{
  stripped, String, Bool, false, none, some, List, [], ◌∷◌, ◌++◌, concat, is_space, lookup, map,
  text_eq, if◌then◌else◌,
}
use execution_accelerator.Schemas.{CompatibilityChangeType, CompatibilityDiffEntry}

-- One public API element: its full name, its kind and its declaration.
pub record PublicSymbol : Type 0 where
  pub fqn : String
  pub kind : String
  pub signature : String

abbrev pub PublicApi : Type 0
PublicApi = List (String × PublicSymbol)

pub record CompatibilityDiff : Type 0 where
  pub removed : List PublicSymbol
  pub added : List PublicSymbol
  pub changed : List (PublicSymbol × PublicSymbol)

-- `re.sub(r"\s+", " ", text)`, behind a blank or not
abbrev one_space : Bool → String → String
one_space behind_space String.[] = ""
one_space behind_space (String.◌∷◌ c s) =
    let rest = one_space (is_space (code c)) s in
    if is_space (code c)
    then (if behind_space then rest else String.◌++◌ " " rest)
    else String.◌∷◌ c rest

-- `normalized_signature`
unfoldable pub normalized_signature : PublicSymbol → String
unfolding stripped
normalized_signature symbol = stripped (one_space false symbol.signature)

-- The symbols of one interface that the other one does not name.
unfoldable pub missing_symbols : PublicApi → PublicApi → List PublicSymbol
unfolding lookup
missing_symbols other [] = []
missing_symbols other ((fqn, symbol) ∷ rest) =
    let later = missing_symbols other rest in
    elim (lookup fqn other) [ none ↦ symbol ∷ later | some s ↦ later ]

-- The symbols that both interfaces name, with another signature.
unfoldable pub changed_symbols : PublicApi → PublicApi → List (PublicSymbol × PublicSymbol)
unfolding lookup normalized_signature
changed_symbols new [] = []
changed_symbols new ((fqn, old_symbol) ∷ rest) =
    let later = changed_symbols new rest in
    elim (lookup fqn new) [
      | none ↦ later
      | some new_symbol ↦
          if text_eq (normalized_signature old_symbol) (normalized_signature new_symbol)
          then later
          else (old_symbol, new_symbol) ∷ later
    ]

-- The first loop of the source fills `removed` and `changed`, the second one `added`.
unfoldable pub diff_public_apis : PublicApi → PublicApi → CompatibilityDiff
unfolding missing_symbols changed_symbols
diff_public_apis old new = record {
  removed = missing_symbols new old;
  added = missing_symbols old new;
  changed = changed_symbols new old;
}

abbrev removed_entry : PublicSymbol → CompatibilityDiffEntry
removed_entry symbol = record {
  symbol = stripped symbol.fqn;
  change_type = CompatibilityChangeType.removed;
  impact = stripped (concat ("Removed in target version: " ∷ normalized_signature symbol ∷ []));
  guidance = none;
}

abbrev changed_entry : PublicSymbol × PublicSymbol → CompatibilityDiffEntry
changed_entry (old_symbol, new_symbol) = record {
  symbol = stripped old_symbol.fqn;
  change_type = CompatibilityChangeType.modified;
  impact = stripped (
      concat (
        "Signature changed from `"
        ∷ normalized_signature old_symbol
        ∷ "` to `"
        ∷ normalized_signature new_symbol
        ∷ "`."
        ∷ []));
  guidance = none;
}

abbrev added_entry : PublicSymbol → CompatibilityDiffEntry
added_entry symbol = record {
  symbol = stripped symbol.fqn;
  change_type = CompatibilityChangeType.added;
  impact = stripped (concat ("Added in target version: " ∷ normalized_signature symbol ∷ []));
  guidance = none;
}

-- `to_diff_entries`. The schema strips the texts; that it refuses a blank name is left out.
unfoldable pub to_diff_entries : CompatibilityDiff → List CompatibilityDiffEntry
unfolding normalized_signature stripped
to_diff_entries diff =
    map removed_entry diff.removed ++ (map changed_entry diff.changed ++ map added_entry diff.added)
