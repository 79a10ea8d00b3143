-- ===== src/Tests/Versions.antt =====
-- Versions and ranges at concrete texts.
use execution_accelerator.Prelude.{
  ℕ, ◌≡◌, ◌≢◌, refl, ◌↔◌, ◌⊎◌, inl, inr, true, false, none, some, List, [], ◌∷◌, Member, any, codes,
  strip, lstrip, String,
}
use execution_accelerator.Version.Parts.{normalize_parts}
use execution_accelerator.Version.Compare.{
  Ordering, compare_ints, compare_part, compare_parts, compare_texts, compare_versions,
}
use execution_accelerator.Version.Order.{compare_versions_preorder, opposite}
use execution_accelerator.Version.Equality.{compare_versions-eq_iff, part_at}
use execution_accelerator.Version.Range.{
  above_upper, below_lower, is_affected, is_fix_version, matches_bounds, matches_range,
  matches_spec, non_empty, parse_segment, segment_bounds, split_comma, split_loop,
  split_union_ranges, starts, ends,
}
use execution_accelerator.Version.Render.{
  Interval, IsPlain, in_interval, parse_segment-render, render,
}
use execution_accelerator.Version.Union.{matches_range-union, render_union}
use execution_accelerator.Version.Select.{insert, pick_lowest_fix_version, sorted}
use execution_accelerator.Version.Lowest.{
  pick_lowest_fix_version-none, pick_lowest_fix_version_lowest,
}

abbrev v : String → List ℕ
v text = codes text

older : compare_versions (v "1.0-rc1") (v "1.0") ≡ Ordering.lt
unfolding compare_versions normalize_parts compare_parts compare_part compare_ints compare_texts
older = refl

numbers_above_words : compare_versions (v "1.0.jre8") (v "1.0.1") ≡ Ordering.lt
unfolding compare_versions normalize_parts compare_parts compare_part compare_ints compare_texts
numbers_above_words = refl

older-AtMost : compare_versions (v "1.0-rc1") (v "1.0") ≢ Ordering.gt
older-AtMost e = cc (older, e)

newer : compare_versions (v "1.0") (v "1.0.1") ≡ Ordering.lt
unfolding compare_versions normalize_parts compare_parts compare_part compare_ints compare_texts
newer = refl

newer-AtMost : compare_versions (v "1.0") (v "1.0.1") ≢ Ordering.gt
newer-AtMost e = cc (newer, e)

compare_versions_preorder_example :
    (compare_versions (v "1.0") (v "1.0-rc1") ≡ opposite (compare_versions (v "1.0-rc1") (v "1.0")))
    × (compare_versions (v "1.0-rc1") (v "1.0-rc1") ≡ Ordering.eq)
    × (compare_versions (v "1.0-rc1") (v "1.0") ≢ Ordering.gt
        → compare_versions (v "1.0") (v "1.0.1") ≢ Ordering.gt
        → (compare_versions (v "1.0-rc1") (v "1.0.1") ≢ Ordering.gt)
          × ((compare_versions (v "1.0-rc1") (v "1.0") ≡ Ordering.lt)
                ⊎ (compare_versions (v "1.0") (v "1.0.1") ≡ Ordering.lt)
              → compare_versions (v "1.0-rc1") (v "1.0.1") ≡ Ordering.lt))
compare_versions_preorder_example = compare_versions_preorder (v "1.0-rc1") (v "1.0") (v "1.0.1")

-- The premises hold: the first is below the second, and the second below the third.
older_below : compare_versions (v "1.0-rc1") (v "1.0.1") ≡ Ordering.lt
older_below =
    let (flip, equal, chain) = compare_versions_preorder_example in
    (chain older-AtMost newer-AtMost).1 (inl older)

compare_versions-eq_iff_example :
    (compare_versions (v "1.0") (v "1.0.0-ga") ≡ Ordering.eq)
    ↔ ((i : ℕ) → part_at (normalize_parts (v "1.0")) i ≡ part_at (normalize_parts (v "1.0.0-ga")) i)
compare_versions-eq_iff_example = compare_versions-eq_iff (v "1.0") (v "1.0.0-ga")

-- `[1.0,1.2)`
abbrev interval : Interval
interval = record {
  lower = v "1.0";
  upper = v "1.2";
  lower_inclusive = true;
  upper_inclusive = false;
}

interval-IsPlain : IsPlain interval
unfolding strip lstrip
interval-IsPlain = record {
  lower_plain = (refl, (refl, (refl, tt)));
  upper_plain = (refl, (refl, (refl, tt)));
  lower_stripped = refl;
  upper_stripped = refl;
}

parse_segment-render_example : parse_segment (render interval) ≡ (
  record { value = non_empty interval.lower; inclusive = true },
  record { value = non_empty interval.upper; inclusive = false },
)
parse_segment-render_example = parse_segment-render interval interval-IsPlain

matches_range-union_example :
    matches_range (v "1.1") (render_union interval (interval ∷ []))
    ≡ any (in_interval (v "1.1")) (interval ∷ interval ∷ [])
matches_range-union_example =
    matches_range-union (v "1.1") interval (interval ∷ [])
      (interval-IsPlain, (interval-IsPlain, tt))

-- The versions that are known, the ones that are affected, and the set of the former.
abbrev known : List (List ℕ)
known = v "1.0" ∷ v "1.3" ∷ v "1.2" ∷ []

abbrev affected : List (List ℕ)
affected = v "[1.0,1.2)" ∷ []

abbrev same_set : List (List ℕ) → List (List ℕ)
same_set vs = vs

same_members : (u : List ℕ) (vs : List (List ℕ)) → Member u (same_set vs) ↔ Member u vs
same_members u vs = (λ m. m, λ m. m)

picked : pick_lowest_fix_version same_set known (v "1.0") affected ≡ some (v "1.2")
unfolding pick_lowest_fix_version sorted insert is_fix_version is_affected matches_range
    matches_spec split_union_ranges split_loop parse_segment segment_bounds starts ends split_comma
    matches_bounds below_lower above_upper strip lstrip compare_versions normalize_parts
    compare_parts compare_part compare_ints compare_texts
picked = refl

pick_lowest_fix_version_lowest_example :
    Member (v "1.2") known
    × (is_fix_version (v "1.2") (v "1.0") affected ≡ true)
    × ((is_fix_version (v "1.3") (v "1.0") affected ≡ false)
        ⊎ (compare_versions (v "1.2") (v "1.3") ≢ Ordering.gt))
pick_lowest_fix_version_lowest_example =
    pick_lowest_fix_version_lowest same_set same_members known (v "1.0") affected (v "1.2")
      (v "1.3") picked (inr (inl refl))

none_picked : pick_lowest_fix_version same_set (v "1.0" ∷ []) (v "1.0") affected ≡ none
unfolding pick_lowest_fix_version sorted insert is_fix_version is_affected matches_range
    matches_spec split_union_ranges split_loop parse_segment segment_bounds starts ends split_comma
    matches_bounds below_lower above_upper strip lstrip compare_versions normalize_parts
    compare_parts compare_part compare_ints compare_texts
none_picked = refl

pick_lowest_fix_version-none_example : is_fix_version (v "1.0") (v "1.0") affected ≡ false
pick_lowest_fix_version-none_example =
    pick_lowest_fix_version-none same_set same_members (v "1.0" ∷ []) (v "1.0") affected none_picked
      (v "1.0") (inl refl)
