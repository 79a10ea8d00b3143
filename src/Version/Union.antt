-- ===== src/Version/Union.antt =====
-- A union of intervals in Maven's notation, and what `_matches_range` makes of it.
use mathlib.Core.Path.{ap₂}
use mathlib.Core.List.{append_assoc, append-nil, reverse-append, reverse-reverse}
use execution_accelerator.Prelude.{
  ℕ, ◌≡◌, refl, ◌∙◌, sym, ap, Bool, true, false, ◌||◌, List, [], ◌∷◌, ◌++◌, map, reverse, All, any,
  strip, strip_lem, lstrip, is_space, arith,
}
use execution_accelerator.Version.Parts.{ℤ, pos}
use execution_accelerator.Version.Range.{
  split_loop, split_union_ranges, split_union_ranges_lem, matches_segment, matches_spec,
  matches_range,
}
use execution_accelerator.Version.Render.{
  Interval, IsPlain, AllPlain, opening, closing, render, in_interval, matches_segment-render,
}

-- The intervals one after the other, with commas between.
pub render_union : Interval → List Interval → List ℕ
render_union i [] = render i
render_union i (j ∷ js) = render i ++ (b',' ∷ render_union j js)

-- Plain text is held.
split_loop-plain :
    (t rest : List ℕ) (depth : ℤ) (held : List ℕ)
    → AllPlain t
    → split_loop (t ++ rest) depth held ≡ split_loop rest depth (held ++ t)
unfolding split_loop
split_loop-plain [] rest depth held h = rw append-nil
split_loop-plain (c ∷ t) rest depth held h =
    ground (arith, split_loop-plain t rest depth (held ++ c ∷ []) h.1, append_assoc held (c ∷ []) t)

step_opening :
    (inclusive : Bool) (rest held : List ℕ)
    → split_loop (opening inclusive ∷ rest) (pos 0) held
      ≡ split_loop rest (pos 1) (opening inclusive ∷ [])
unfolding split_loop
step_opening true rest held = refl
step_opening false rest held = refl

step_comma :
    (rest held : List ℕ) (depth : ℤ)
    → split_loop (b',' ∷ rest) depth held ≡ split_loop rest depth (held ++ (b',' ∷ []))
unfolding split_loop
step_comma rest held depth = refl

split_loop_end : (depth : ℤ) (held : List ℕ) → split_loop [] depth held ≡ []
unfolding split_loop
split_loop_end depth held = refl

step_closing :
    (inclusive : Bool) (rest held : List ℕ)
    → split_loop (closing inclusive ∷ rest) (pos 1) held
      ≡ (held ++ (closing inclusive ∷ []))
        ∷ split_loop rest (pos 0) (held ++ (closing inclusive ∷ []))
unfolding split_loop
step_closing true rest held = refl
step_closing false rest held = refl

-- The text of an interval, bracketed as the loop reads it and as it collects it.
render-append :
    (i : Interval) (rest : List ℕ)
    → render i ++ rest
      ≡ opening i.lower_inclusive
        ∷ (i.lower ++ (b',' ∷ (i.upper ++ (closing i.upper_inclusive ∷ rest))))
unfolding render
render-append i rest = simp append_assoc

render_collected :
    (i : Interval)
    → ((((opening i.lower_inclusive ∷ []) ++ i.lower) ++ (b',' ∷ [])) ++ i.upper)
        ++ (closing i.upper_inclusive ∷ [])
      ≡ render i
unfolding render
render_collected i = simp append_assoc

split_loop-interval :
    (i : Interval) (rest held : List ℕ)
    → IsPlain i
    → split_loop (render i ++ rest) (pos 0) held ≡ render i ∷ split_loop rest (pos 0) (render i)
split_loop-interval i rest held h = rw render-append (
    rw step_opening (
      rw (split_loop-plain i.lower _ (pos 1) _ h.lower_plain) (
        rw step_comma (
          rw (split_loop-plain i.upper _ (pos 1) _ h.upper_plain)
            (rw step_closing (rw (render_collected i)))))))

-- The loop cuts a union into its intervals, whatever it held before.
split_loop-union :
    (i : Interval) (is : List Interval) (held : List ℕ)
    → All IsPlain (i ∷ is)
    → split_loop (render_union i is) (pos 0) held ≡ map render (i ∷ is)
unfolding render_union
split_loop-union i [] held h =
    let one = split_loop-interval i [] held h.0 in
    rw append-nil at one ∙ rw (split_loop_end (pos 0) (render i))
split_loop-union i (j ∷ js) held h =
    split_loop-interval i (b',' ∷ render_union j js) held h.0
    ∙ rw step_comma (ap (λ t. render i ∷ t) (split_loop-union j js (render i ++ (b',' ∷ [])) h.1))

split_union_ranges-union :
    (i : Interval) (is : List Interval)
    → All IsPlain (i ∷ is)
    → split_union_ranges (render_union i is) ≡ map render (i ∷ is)
split_union_ranges-union i is h = rw (split_union_ranges_lem, split_loop-union i is [] h)

-- What stands between the first bracket and the last.
between : Interval → List Interval → List ℕ
between i [] = i.lower ++ (b',' ∷ i.upper)
between i (j ∷ js) =
    ((i.lower ++ (b',' ∷ i.upper)) ++ (closing i.upper_inclusive ∷ []))
    ++ (b',' ∷ opening j.lower_inclusive ∷ between j js)

last_inclusive : Interval → List Interval → Bool
last_inclusive i [] = i.upper_inclusive
last_inclusive i (j ∷ js) = last_inclusive j js

render_union-between :
    (i : Interval) (is : List Interval)
    → render_union i is
      ≡ opening i.lower_inclusive ∷ (between i is ++ (closing (last_inclusive i is) ∷ []))
unfolding render_union render between last_inclusive
render_union-between i [] = refl
render_union-between i (j ∷ js) = simp (render_union-between j js, append_assoc)

lstrip_word : (c : ℕ) (cs : List ℕ) → is_space c ≡ false → lstrip (c ∷ cs) ≡ c ∷ cs
unfolding lstrip
lstrip_word c cs h = rw h

-- Text that begins and ends with something else than a blank is not changed by `strip`.
strip_word :
    (c d : ℕ) (cs : List ℕ)
    → is_space c ≡ false
    → is_space d ≡ false
    → strip (c ∷ (cs ++ (d ∷ []))) ≡ c ∷ (cs ++ (d ∷ []))
strip_word c d cs hc hd =
    let text : List ℕ = c ∷ (cs ++ (d ∷ [])) in
    let last_first : reverse text ≡ d ∷ reverse (c ∷ cs) = reverse-append (c ∷ cs) (d ∷ []) in
    strip_lem text
    ∙ ap (λ t. reverse (lstrip (reverse t))) (lstrip_word c (cs ++ (d ∷ [])) hc)
    ∙ ap (λ t. reverse (lstrip t)) last_first
    ∙ ap reverse (lstrip_word d (reverse (c ∷ cs)) hd)
    ∙ ap reverse (sym last_first)
    ∙ reverse-reverse text

opening_word : (inclusive : Bool) → is_space (opening inclusive) ≡ false
opening_word true = refl
opening_word false = refl

closing_word : (inclusive : Bool) → is_space (closing inclusive) ≡ false
closing_word true = refl
closing_word false = refl

strip-union : (i : Interval) (is : List Interval) → strip (render_union i is) ≡ render_union i is
strip-union i is = rw render_union-between (
    strip_word (opening i.lower_inclusive) (closing (last_inclusive i is)) (between i is)
      (opening_word i.lower_inclusive) (closing_word (last_inclusive i is)))

matches_spec_bracket :
    (version rest : List ℕ) (inclusive : Bool)
    → matches_spec version (opening inclusive ∷ rest)
      ≡ any (matches_segment version) (split_union_ranges (opening inclusive ∷ rest))
unfolding matches_spec
matches_spec_bracket version rest true = refl
matches_spec_bracket version rest false = refl

matches_spec-union :
    (version : List ℕ) (i : Interval) (is : List Interval)
    → matches_spec version (render_union i is)
      ≡ any (matches_segment version) (split_union_ranges (render_union i is))
matches_spec-union version i is = rw render_union-between (
    matches_spec_bracket version (between i is ++ (closing (last_inclusive i is) ∷ []))
      i.lower_inclusive)

any-render :
    (version : List ℕ) (is : List Interval)
    → All IsPlain is
    → any (matches_segment version) (map render is) ≡ any (in_interval version) is
any-render version [] h = refl
any-render version (i ∷ is) h =
    ap₂ ◌||◌ (matches_segment-render version i h.0) (any-render version is h.1)

-- A union of intervals, written in Maven's notation with commas between, matches exactly the
-- versions that lie in one of the intervals, provided that the ends hold no bracket or comma and
-- no blank around them.
pub matches_range-union :
    (version : List ℕ) (i : Interval) (is : List Interval)
    → All IsPlain (i ∷ is)
    → matches_range version (render_union i is) ≡ any (in_interval version) (i ∷ is)
unfolding matches_range
matches_range-union version i is h =
    rw (strip-union i is, matches_spec-union, split_union_ranges-union i is h)
      (any-render version (i ∷ is) h)
