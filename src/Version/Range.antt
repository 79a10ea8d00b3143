-- ===== src/Version/Range.antt =====
-- Ranges of versions in services/version_range.py: `_split_union_ranges`, `_parse_segment`,
-- `_matches_bounds`, `_matches_range`, `is_affected`, `is_fix_version`.
use execution_accelerator.Prelude.{
  ◌≡◌, refl, ℕ, zero, suc, Bool, true, false, not, ◌&&◌, ◌||◌, Option, none, some, List, [], ◌∷◌,
  ◌++◌, last?, any, strip, eqb, if◌then◌else◌,
}
use execution_accelerator.Version.Parts.{ℤ, pos, negsuc}
use execution_accelerator.Version.Compare.{Ordering, compare_versions}

-- `_Bound`
pub record Bound : Type 0 where
  pub value : Option (List ℕ)
  pub inclusive : Bool

abbrev pub succ : ℤ → ℤ
succ (pos n) = pos (suc n)
succ (negsuc zero) = pos 0
succ (negsuc (suc n)) = negsuc n

abbrev pub pred : ℤ → ℤ
pred (pos zero) = negsuc 0
pred (pos (suc n)) = pos n
pred (negsuc n) = negsuc (suc n)

abbrev pub is_zero : ℤ → Bool
is_zero (pos zero) = true
is_zero (pos (suc n)) = false
is_zero (negsuc n) = false

abbrev pub is_opening : ℕ → Bool
is_opening c = eqb c b'[' || eqb c b'('

abbrev pub is_closing : ℕ → Bool
is_closing c = eqb c b']' || eqb c b')'

-- The loop of `_split_union_ranges`. `held` is `spec[start : index]`: the text since the last
-- outermost opening bracket, or since the beginning. It returns the segments in order.
unfoldable pub split_loop : List ℕ → ℤ → List ℕ → List (List ℕ)
split_loop [] depth held = []
split_loop (c ∷ cs) depth held =
    let opened = split_loop cs (succ depth) (if is_zero depth then c ∷ [] else held ++ c ∷ []) in
    let closed = split_loop cs (pred depth) (held ++ c ∷ []) in
    let passed = split_loop cs depth (held ++ c ∷ []) in
    if is_opening c
    then opened
    else if is_closing c
    then (if is_zero (pred depth) then (held ++ c ∷ []) ∷ closed else closed)
    else passed

-- `segments or [spec]`
abbrev pub or_whole : List (List ℕ) → List ℕ → List (List ℕ)
or_whole [] spec = spec ∷ []
or_whole (s ∷ ss) spec = s ∷ ss

unfoldable pub split_union_ranges : List ℕ → List (List ℕ)
unfolding split_loop
split_union_ranges spec = or_whole (split_loop spec (pos 0) []) spec

pub split_union_ranges_lem :
    (spec : List ℕ) → split_union_ranges spec ≡ or_whole (split_loop spec (pos 0) []) spec
unfolding split_union_ranges
split_union_ranges_lem spec = refl

-- `text or None`
abbrev pub non_empty : List ℕ → Option (List ℕ)
non_empty [] = none
non_empty (c ∷ cs) = some (c ∷ cs)

unfoldable pub starts : ℕ → List ℕ → Bool
starts c [] = false
starts c (d ∷ ds) = eqb c d

unfoldable pub ends : ℕ → List ℕ → Bool
unfolding last?
ends c ds = elim (last? ds) [ none ↦ false | some d ↦ eqb c d ]

-- `segment[1:-1]`
abbrev pub drop_last : List ℕ → List ℕ
drop_last [] = []
drop_last (c ∷ []) = []
drop_last (c ∷ d ∷ cs) = c ∷ drop_last (d ∷ cs)

abbrev pub inner : List ℕ → List ℕ
inner [] = []
inner (c ∷ cs) = drop_last cs

-- `body.split(",", 1)`, and `none` where there is no comma
unfoldable pub split_comma : List ℕ → Option (List ℕ × List ℕ)
split_comma [] = none
split_comma (c ∷ cs) =
    let rest : Option (List ℕ × List ℕ) = elim (split_comma cs) [
      | none ↦ none
      | some (l, u) ↦ some (c ∷ l, u)
    ] in
    if eqb c b',' then some ([], cs) else rest

unfoldable pub segment_bounds : Bool → Bool → List ℕ → Option (List ℕ × List ℕ) → Bound × Bound
unfolding strip
segment_bounds lower_inc upper_inc body none =
    let exact : Bound = record { value = non_empty (strip body); inclusive = true } in
    (exact, exact)
segment_bounds lower_inc upper_inc body (some (lower_text, upper_text)) = (
  record { value = non_empty (strip lower_text); inclusive = lower_inc },
  record { value = non_empty (strip upper_text); inclusive = upper_inc },
)

unfoldable pub parse_segment : List ℕ → Bound × Bound
unfolding split_comma starts ends segment_bounds
parse_segment segment =
    segment_bounds (starts b'[' segment) (ends b']' segment) (inner segment)
      (split_comma (inner segment))

-- With the parts shut.
pub parse_segment_lem :
    (segment : List ℕ)
    → parse_segment segment
      ≡ segment_bounds
          (starts b'[' segment)
          (ends b']' segment)
          (inner segment)
          (split_comma (inner segment))
unfolding parse_segment
parse_segment_lem segment = refl

abbrev pub is_lt : Ordering → Bool
is_lt Ordering.lt = true
is_lt Ordering.eq = false
is_lt Ordering.gt = false

abbrev pub is_eq : Ordering → Bool
is_eq Ordering.lt = false
is_eq Ordering.eq = true
is_eq Ordering.gt = false

abbrev pub is_gt : Ordering → Bool
is_gt Ordering.lt = false
is_gt Ordering.eq = false
is_gt Ordering.gt = true

-- The two tests of `_matches_bounds`; each rejects the version.
unfoldable pub below_lower : List ℕ → Bound → Bool
below_lower version lower = elim lower.value [
  | none ↦ false
  | some bound ↦
      let comparison = compare_versions version bound in
      is_lt comparison || is_eq comparison && not lower.inclusive
]

unfoldable pub above_upper : List ℕ → Bound → Bool
above_upper version upper = elim upper.value [
  | none ↦ false
  | some bound ↦
      let comparison = compare_versions version bound in
      is_gt comparison || is_eq comparison && not upper.inclusive
]

unfoldable pub matches_bounds : List ℕ → Bound → Bound → Bool
unfolding below_lower above_upper
matches_bounds version lower upper =
    if below_lower version lower then false else not (above_upper version upper)

pub matches_bounds_lem :
    (version : List ℕ) (lower upper : Bound)
    → matches_bounds version lower upper
      ≡ (if below_lower version lower then false else not (above_upper version upper))
unfolding matches_bounds
matches_bounds_lem version lower upper = refl

abbrev pub matches_segment : List ℕ → List ℕ → Bool
matches_segment version segment =
    let bounds = parse_segment segment in matches_bounds version bounds.0 bounds.1

-- `_matches_range` on the text that `strip` leaves
unfoldable pub matches_spec : List ℕ → List ℕ → Bool
matches_spec version [] = false
matches_spec version (c ∷ cs) =
    if not (is_opening c)
    then is_eq (compare_versions version (c ∷ cs))
    else any (matches_segment version) (split_union_ranges (c ∷ cs))

unfoldable pub matches_range : List ℕ → List ℕ → Bool
unfolding matches_spec
matches_range version range_spec = matches_spec version (strip range_spec)

unfoldable pub is_affected : List ℕ → List (List ℕ) → Bool
is_affected version range_specs = any (matches_range version) range_specs

unfoldable pub is_fix_version : List ℕ → List ℕ → List (List ℕ) → Bool
is_fix_version version current_version affected_ranges =
    is_gt (compare_versions version current_version) && not (is_affected version affected_ranges)
