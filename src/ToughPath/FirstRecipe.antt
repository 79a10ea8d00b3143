-- ===== src/ToughPath/FirstRecipe.antt =====
-- `RecipeRegistry.lookup` answers with the first entry for the jump.
use text.Mathlib.TextEquality.{eq_iff}
use execution_accelerator.Prelude.{
  ℕ, ◌≡◌, ◌≢◌, refl, ap, ◌∙◌, ◌⊎◌, inl, inr, String, true, Bool-cases, Option, none, some, List, [],
  ◌∷◌, ◌++◌, All, Outcome, ok, raised, text_eq, stripped, arith,
}
use execution_accelerator.ToughPath.Recipes.{
  MatchBlock, RecipeEntry, RecipeMatch, RecipeMatchInput, applies, as_option, coerce_major,
  is_major, lookup_entries, lookup_recipe, major_version, matched, text_of,
}

module _ (read_int : String → Option ℕ) (candidate : RecipeMatchInput)
    (from_major to_major : ℕ) where
  -- An entry is for the jump: its group, its artifact and its two major numbers are the jump's.
  abbrev pub IsFor : RecipeEntry → Type 0
  IsFor entry =
      (block : MatchBlock) × (entry.match_block ≡ some block)
      × (text_of block.group ≡ candidate.group)
      × (text_of block.artifact ≡ candidate.artifact)
      × (coerce_major read_int block.from_major ≡ some from_major)
      × (coerce_major read_int block.to_major ≡ some to_major)

  -- An entry answers with its recipe, or fails where that is blank.
  abbrev pub Answers : RecipeEntry → Outcome String (Option RecipeMatch) → Type 0
  Answers entry result =
      ((stripped (text_of entry.recipe) ≡ "") × ((error : String) × (result ≡ raised error)))
      ⊎ ((stripped (text_of entry.recipe) ≢ "")
          × ((answer : RecipeMatch) × (result ≡ ok (some answer))
              × (answer.recipe ≡ stripped (text_of entry.recipe))
              × (answer.matched_group ≡ candidate.group)
              × (answer.matched_artifact ≡ candidate.artifact)
              × (answer.matched_from_major ≡ from_major)
              × (answer.matched_to_major ≡ to_major)))

  -- No entry is for the jump, and there is no recipe; or the first one that is answers.
  abbrev pub IsFirst : List RecipeEntry → Outcome String (Option RecipeMatch) → Type 0
  IsFirst entries result =
      (All (λ e. ¬ IsFor e) entries × (result ≡ ok none))
      ⊎ ((before : List RecipeEntry) × (entry : RecipeEntry) × (behind : List RecipeEntry)
          × (entries ≡ before ++ (entry ∷ behind))
          × All (λ e. ¬ IsFor e) before
          × IsFor entry
          × Answers entry result)

  is_major_lem : (major : ℕ) (found : Option ℕ) → is_major major found ≡ true → found ≡ some major
  is_major_lem major none h = absurd (ground (arith, h))
  is_major_lem major (some n) h = ground (arith, h)

  is_major_refl : (major : ℕ) (found : Option ℕ) → found ≡ some major → is_major major found ≡ true
  is_major_refl major none e = absurd (ground (arith, e))
  is_major_refl major (some n) e = ground (arith, e)

  applies-IsFor :
      (entry : RecipeEntry)
      → applies read_int candidate from_major to_major entry ≡ true
      → IsFor entry
  unfolding applies
  applies-IsFor entry h = there entry.match_block refl
    where
      there : (m : Option MatchBlock) → entry.match_block ≡ m → IsFor entry
      there none e = absurd (ground (arith, rw e at h))
      there (some block) e =
          let fits = rw e at h in
          (
            block,
            e,
            (eq_iff (text_of block.group) candidate.group).0 (ground (arith, fits)),
            (eq_iff (text_of block.artifact) candidate.artifact).0 (ground (arith, fits)),
            is_major_lem from_major (coerce_major read_int block.from_major) (ground (arith, fits)),
            is_major_lem to_major (coerce_major read_int block.to_major) (ground (arith, fits)),
          )

  IsFor-applies :
      (entry : RecipeEntry)
      → IsFor entry
      → applies read_int candidate from_major to_major entry ≡ true
  unfolding applies
  IsFor-applies entry (block, e, group, artifact, from, to) =
      rw
        (
          e,
          (eq_iff (text_of block.group) candidate.group).1 group,
          (eq_iff (text_of block.artifact) candidate.artifact).1 artifact,
          is_major_refl from_major (coerce_major read_int block.from_major) from,
          is_major_refl to_major (coerce_major read_int block.to_major) to,
        )
        refl

  matched-Answers :
      (entry : RecipeEntry)
      → Answers entry (as_option (matched candidate from_major to_major entry))
  unfolding matched
  matched-Answers entry = elim (Bool-cases (text_eq (stripped (text_of entry.recipe)) "")) [
    | inl blank ↦
        let empty = (eq_iff (stripped (text_of entry.recipe)) "").0 blank in
        rw (blank, matched) (inl (empty, (_, refl)))
    | inr filled ↦
        let there : stripped (text_of entry.recipe) ≢ "" =
          λ e. absurd (ground (arith, filled, (eq_iff (stripped (text_of entry.recipe)) "").1 e)) in
        rw (filled, matched) (inr (there, (_, refl, refl, refl, refl, refl, refl)))
  ]

  lookup_entries-IsFirst :
      (entries : List RecipeEntry)
      → IsFirst entries (lookup_entries read_int candidate from_major to_major entries)
  unfolding lookup_entries
  lookup_entries-IsFirst [] = inl (tt, refl)
  lookup_entries-IsFirst (e ∷ entries) =
      elim (Bool-cases (applies read_int candidate from_major to_major e)) [
        | inl this ↦ inr (
          [],
          e,
          entries,
          refl,
          tt,
          applies-IsFor e this,
          rw (this, lookup_entries) (matched-Answers e),
        )
        | inr skipped ↦
            let unfit : ¬ IsFor e = λ f. absurd (ground (arith, skipped, IsFor-applies e f)) in
            let step : lookup_entries read_int candidate from_major to_major (e ∷ entries)
                ≡ lookup_entries read_int candidate from_major to_major entries =
              rw (skipped, lookup_entries) refl in
            elim (lookup_entries-IsFirst entries) [
              | inl (no_entry, answer) ↦ inl ((unfit, no_entry), step ∙ answer)
              | inr (before, entry, behind, split, others, fits, answer) ↦ inr (
                e ∷ before,
                entry,
                behind,
                ap (λ l. e ∷ l) split,
                (unfit, others),
                fits,
                rw step answer,
              )
            ]
      ]

-- For two versions with a major number: if no entry has the group, the artifact and the two major
-- numbers of the jump, there is no recipe; else the first one that has them answers, with its recipe
-- stripped, or with an error where that is blank.
pub lookup_recipe-IsFirst :
    (read_int : String → Option ℕ) (entries : List RecipeEntry) (candidate : RecipeMatchInput)
    (from_major to_major : ℕ)
    → major_version candidate.from_version ≡ some from_major
    → major_version candidate.to_version ≡ some to_major
    → IsFirst read_int candidate from_major to_major entries
        (lookup_recipe read_int entries candidate)
unfolding lookup_recipe
lookup_recipe-IsFirst read_int entries candidate from_major to_major f g =
    rw (f, g) (lookup_entries-IsFirst read_int candidate from_major to_major entries)
