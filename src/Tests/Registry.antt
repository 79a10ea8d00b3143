-- ===== src/Tests/Registry.antt =====
-- Recipes for concrete jumps.
use execution_accelerator.Prelude.{
  stripped, ℕ, ◌≡◌, refl, String, none, some, List, [], ◌∷◌, ok, lstrip, strip,
}
use execution_accelerator.ToughPath.Recipes.{
  RecipeEntry, RecipeMatchInput, applies, coerce_major, integer, lookup_entries, lookup_recipe,
  major_version, matched, string,
}
use execution_accelerator.ToughPath.FirstRecipe.{IsFirst, lookup_recipe-IsFirst}

entry_for : String → ℕ → ℕ → RecipeEntry
entry_for recipe from_major to_major = record {
  match_block = some (record {
    group = some (string "org.junit");
    artifact = some (string "junit");
    from_major = some (integer from_major "");
    to_major = some (integer to_major "");
  });
  recipe = some (string recipe);
  rationale = none;
}

registry : List RecipeEntry
registry = entry_for "Two" 1 2 ∷ entry_for "Five" 4 5 ∷ entry_for "Later" 4 5 ∷ []

jump : RecipeMatchInput
jump = record {
  group = "org.junit";
  artifact = "junit";
  from_version = "4.13-RC1";
  to_version = "5.9.0";
}

-- The second entry answers, and its recipe stands for the missing rationale.
jump-answer :
    lookup_recipe (λ text. none) registry jump
    ≡ ok (
        some (record {
          recipe = "Five";
          rationale = "Five";
          matched_group = "org.junit";
          matched_artifact = "junit";
          matched_from_major = 4;
          matched_to_major = 5;
        }))
unfolding lookup_recipe lookup_entries applies coerce_major matched major_version strip lstrip
    stripped registry entry_for jump
jump-answer = refl

jump-from : major_version jump.from_version ≡ some 4
unfolding major_version strip lstrip jump
jump-from = refl

jump-to : major_version jump.to_version ≡ some 5
unfolding major_version strip lstrip jump
jump-to = refl

lookup_recipe-IsFirst_example :
    IsFirst (λ text. none) jump 4 5 registry (lookup_recipe (λ text. none) registry jump)
lookup_recipe-IsFirst_example =
    lookup_recipe-IsFirst (λ text. none) registry jump 4 5 jump-from jump-to
