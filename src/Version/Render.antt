-- ===== src/Version/Render.antt =====
-- Intervals of versions written in Maven's notation, and what `_parse_segment` reads back.
use execution_accelerator.Prelude.{
  ℕ, ◌≡◌, refl, ◌∙◌, ap, Bool, true, false, not, ◌&&◌, ◌||◌, some, List, [], ◌∷◌, ◌++◌, All,
  last?-append, strip, eqb, arith, if◌then◌else◌,
}
use execution_accelerator.Version.Compare.{compare_versions}
use execution_accelerator.Version.Range.{
  is_opening, is_closing, is_lt, is_eq, is_gt, drop_last, inner, split_comma, non_empty,
  parse_segment, parse_segment_lem, segment_bounds, starts, ends, matches_segment,
  matches_bounds_lem, below_lower, above_upper,
}

-- An interval with its ends; an empty text is a missing end.
pub record Interval : Type 0 where
  pub lower : List ℕ
  pub upper : List ℕ
  pub lower_inclusive : Bool
  pub upper_inclusive : Bool

abbrev pub opening : Bool → ℕ
opening inclusive = if inclusive then b'[' else b'('

abbrev pub closing : Bool → ℕ
closing inclusive = if inclusive then b']' else b')'

-- `[lower,upper)`, with the bracket that each end asks for
unfoldable pub render : Interval → List ℕ
render i =
    opening i.lower_inclusive ∷ ((i.lower ++ (b',' ∷ i.upper)) ++ (closing i.upper_inclusive ∷ []))

-- A character that has no meaning in the notation.
abbrev pub is_plain : ℕ → Bool
is_plain c = not (is_opening c || is_closing c || eqb c b',')

abbrev pub AllPlain : List ℕ → Type 0
AllPlain = All (λ c. is_plain c ≡ true)

-- The ends have no blank around them and no bracket or comma in them.
pub record IsPlain (i : Interval) : Type 0 where
  pub lower_plain : AllPlain i.lower
  pub upper_plain : AllPlain i.upper
  pub lower_stripped : strip i.lower ≡ i.lower
  pub upper_stripped : strip i.upper ≡ i.upper

abbrev is_some_end : List ℕ → Bool
is_some_end [] = false
is_some_end (c ∷ cs) = true

-- The version is above an end that is there, or on it where the end belongs to the interval.
abbrev pub above_end : List ℕ → List ℕ → Bool → Bool
above_end version text inclusive =
    let result = compare_versions version text in
    not (is_some_end text) || is_gt result || (inclusive && is_eq result)

abbrev pub below_end : List ℕ → List ℕ → Bool → Bool
below_end version text inclusive =
    let result = compare_versions version text in
    not (is_some_end text) || is_lt result || (inclusive && is_eq result)

-- The version lies between the ends that are there.
abbrev pub in_interval : List ℕ → Interval → Bool
in_interval version i =
    above_end version i.lower i.lower_inclusive && below_end version i.upper i.upper_inclusive

drop_last-append : (cs : List ℕ) (c : ℕ) → drop_last (cs ++ c ∷ []) ≡ cs
drop_last-append [] c = refl
drop_last-append (d ∷ []) c = refl
drop_last-append (d ∷ e ∷ cs) c = ap (λ t. d ∷ t) (drop_last-append (e ∷ cs) c)

-- A comma splits behind a text that has none.
split_comma-append : (l u : List ℕ) → AllPlain l → split_comma (l ++ (b',' ∷ u)) ≡ some (l, u)
unfolding split_comma
split_comma-append [] u h = refl
split_comma-append (c ∷ l) u h = ground (arith, split_comma-append l u h.1)

starts-render : (i : Interval) → starts b'[' (render i) ≡ i.lower_inclusive
unfolding starts render
starts-render i = ground arith

closing_flag : (inclusive : Bool) → eqb b']' (closing inclusive) ≡ inclusive
closing_flag true = refl
closing_flag false = refl

ends-append : (cs : List ℕ) (c : ℕ) → ends b']' (cs ++ c ∷ []) ≡ eqb b']' c
unfolding ends
ends-append cs c = rw (last?-append cs c, ends)

ends-render : (i : Interval) → ends b']' (render i) ≡ i.upper_inclusive
unfolding render
ends-render i =
    ends-append (opening i.lower_inclusive ∷ (i.lower ++ (b',' ∷ i.upper)))
      (closing i.upper_inclusive)
    ∙ closing_flag i.upper_inclusive

inner-render : (i : Interval) → inner (render i) ≡ i.lower ++ (b',' ∷ i.upper)
unfolding render
inner-render i = drop_last-append (i.lower ++ (b',' ∷ i.upper)) (closing i.upper_inclusive)

-- Reading a rendered interval gives its ends back.
pub parse_segment-render :
    (i : Interval)
    → IsPlain i
    → parse_segment (render i) ≡ (
      record { value = non_empty i.lower; inclusive = i.lower_inclusive },
      record { value = non_empty i.upper; inclusive = i.upper_inclusive },
    )
parse_segment-render i h =
    parse_segment_lem (render i)
    ∙ rw (starts-render i, ends-render i, inner-render i)
        (rw (split_comma-append i.lower i.upper h.lower_plain)
          (unfold segment_bounds in rw (h.lower_stripped, h.upper_stripped)))

lower_test :
    (version text : List ℕ) (inclusive : Bool)
    → below_lower version (record { value = non_empty text; inclusive = inclusive })
      ≡ not (above_end version text inclusive)
unfolding below_lower
lower_test version [] inclusive = refl
lower_test version (c ∷ cs) inclusive = ground arith

upper_test :
    (version text : List ℕ) (inclusive : Bool)
    → above_upper version (record { value = non_empty text; inclusive = inclusive })
      ≡ not (below_end version text inclusive)
unfolding above_upper
upper_test version [] inclusive = refl
upper_test version (c ∷ cs) inclusive = ground arith

both_tests : (p q : Bool) → (if not p then false else not (not q)) ≡ p && q
both_tests true true = refl
both_tests true false = refl
both_tests false q = refl

-- A rendered interval matches exactly the versions between its ends.
pub matches_segment-render :
    (version : List ℕ) (i : Interval)
    → IsPlain i
    → matches_segment version (render i) ≡ in_interval version i
matches_segment-render version i h = rw (parse_segment-render i h) (
    rw
      (
        matches_bounds_lem,
        lower_test version i.lower i.lower_inclusive,
        upper_test version i.upper i.upper_inclusive,
      )
      (both_tests (above_end version i.lower i.lower_inclusive)
        (below_end version i.upper i.upper_inclusive)))
