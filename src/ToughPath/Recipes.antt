-- ===== src/ToughPath/Recipes.antt =====
-- tough_path/recipe_matcher.py: the recipe for a jump from one major version to another
-- (`RecipeRegistry.lookup`). The registry is what `yaml.safe_load` reads, a parameter; so are `str` of
-- a value that is no text, and `int` of a text.
use execution_accelerator.Prelude.{
  stripped, ℕ, ◌+◌, ◌*◌, ◌-◌, String, Bool, false, ◌&&◌, Option, none, some, List, [], ◌∷◌, Outcome,
  ok, raised, codes, concat, eqb, is_digit, strip, text_eq, if◌then◌else◌,
}

-- A value of the registry: an integer, a text, or another value with its `str`. A truth value is the
-- integer 0 or 1; an integer below 0 counts as another value, since no major version is one.
pub data Value : Type 0 where
  integer : ℕ → String → Value
  string : String → Value
  other : String → Value

-- `match`, where it is a mapping
pub record MatchBlock : Type 0 where
  pub group : Option Value
  pub artifact : Option Value
  pub from_major : Option Value
  pub to_major : Option Value

pub record RecipeEntry : Type 0 where
  pub match_block : Option MatchBlock
  pub recipe : Option Value
  pub rationale : Option Value

pub record RecipeMatchInput : Type 0 where
  pub group : String
  pub artifact : String
  pub from_version : String
  pub to_version : String

pub record RecipeMatch : Type 0 where
  pub recipe : String
  pub rationale : String
  pub matched_group : String
  pub matched_artifact : String
  pub matched_from_major : ℕ
  pub matched_to_major : ℕ

-- `str(value)`, and `str("")` for a missing one
abbrev pub text_of : Option Value → String
text_of none = ""
text_of (some (integer n shown)) = shown
text_of (some (string text)) = text
text_of (some (other shown)) = shown

abbrev major_digits : ℕ → List ℕ → ℕ
major_digits n [] = n
major_digits n (c ∷ cs) =
    let more = major_digits (n * 10 + (c - b'0')) cs in if is_digit c then more else n

abbrev major_of : List ℕ → Option ℕ
major_of [] = none
major_of (c ∷ cs) = if is_digit c then some (major_digits 0 (c ∷ cs)) else none

-- `_major_version`
unfoldable pub major_version : String → Option ℕ
unfolding strip
major_version version = major_of (strip (codes version))

-- `_coerce_major`, with the reading of a text as a number
unfoldable pub coerce_major : (String → Option ℕ) → Option Value → Option ℕ
unfolding stripped
coerce_major read_int none = none
coerce_major read_int (some (integer n shown)) = some n
coerce_major read_int (some (string text)) = read_int (stripped text)
coerce_major read_int (some (other shown)) = none

abbrev pub is_major : ℕ → Option ℕ → Bool
is_major major none = false
is_major major (some entry_major) = eqb major entry_major

-- The guards of the loop: whether an entry is for this jump.
unfoldable pub applies : (String → Option ℕ) → RecipeMatchInput → ℕ → ℕ → RecipeEntry → Bool
unfolding coerce_major
applies read_int candidate from_major to_major entry = elim entry.match_block [
  | none ↦ false
  | some block ↦
      text_eq (text_of block.group) candidate.group
      && (text_eq (text_of block.artifact) candidate.artifact
          && (is_major from_major (coerce_major read_int block.from_major)
              && is_major to_major (coerce_major read_int block.to_major)))
]

abbrev or_recipe : String → String → String
or_recipe rationale recipe = if text_eq rationale "" then recipe else rationale

-- What an entry for the jump answers: `RecipeRegistryError` where it has no recipe.
unfoldable pub matched : RecipeMatchInput → ℕ → ℕ → RecipeEntry → Outcome String RecipeMatch
unfolding stripped
matched candidate from_major to_major entry =
    let recipe = stripped (text_of entry.recipe) in
    if text_eq recipe ""
    then raised (
        concat (
          "Registry entry for " ∷ candidate.group ∷ ":" ∷ candidate.artifact
          ∷ " has no 'recipe' field." ∷ []))
    else ok (record {
      recipe = recipe;
      rationale = or_recipe (text_of entry.rationale) recipe;
      matched_group = candidate.group;
      matched_artifact = candidate.artifact;
      matched_from_major = from_major;
      matched_to_major = to_major;
    })

abbrev pub as_option : Outcome String RecipeMatch → Outcome String (Option RecipeMatch)
as_option (ok m) = ok (some m)
as_option (raised e) = raised e

-- The loop over the entries.
unfoldable pub lookup_entries :
    (String → Option ℕ)
    → RecipeMatchInput
    → ℕ
    → ℕ
    → List RecipeEntry
    → Outcome String (Option RecipeMatch)
unfolding applies matched
lookup_entries read_int candidate from_major to_major [] = ok none
lookup_entries read_int candidate from_major to_major (entry ∷ entries) =
    let rest = lookup_entries read_int candidate from_major to_major entries in
    if applies read_int candidate from_major to_major entry
    then as_option (matched candidate from_major to_major entry)
    else rest

abbrev lookup_majors :
    (String → Option ℕ)
    → RecipeMatchInput
    → List RecipeEntry
    → Option ℕ
    → Option ℕ
    → Outcome String (Option RecipeMatch)
lookup_majors read_int candidate entries (some from_major) (some to_major) =
    lookup_entries read_int candidate from_major to_major entries
lookup_majors read_int candidate entries _ _ = ok none

-- `RecipeRegistry.lookup`
unfoldable pub lookup_recipe :
    (String → Option ℕ) → List RecipeEntry → RecipeMatchInput → Outcome String (Option RecipeMatch)
unfolding lookup_entries major_version
lookup_recipe read_int entries candidate =
    lookup_majors read_int candidate entries (major_version candidate.from_version)
      (major_version candidate.to_version)
