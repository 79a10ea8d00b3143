-- ===== src/Java/Constructors.antt =====
-- `_rewrite_java_constructor_calls` of nodes/remediation.py: the arguments of a constructor are
-- wrapped in a call of a factory. The pattern `new\s+Class\s*\(` is read by hand, on ASCII text.
use execution_accelerator.Prelude.{
  ℕ, zero, suc, ◌+◌, ◌-◌, Bool, true, false, Option, none, some, List, [], ◌∷◌, ◌++◌, length, codes,
  eqb, is_space, lstrip, strip, if◌then◌else◌,
}
use execution_accelerator.Java.Symbols.{last_piece, starts_text}
use execution_accelerator.Java.Parentheses.{find_matching_parenthesis, from_index}

-- What stands behind a prefix.
unfoldable pub behind_text : List ℕ → List ℕ → Option (List ℕ)
behind_text [] text = some text
behind_text (n ∷ ns) [] = none
behind_text (n ∷ ns) (c ∷ cs) = if eqb n c then behind_text ns cs else none

-- `\s+`
abbrev behind_blank : List ℕ → Option (List ℕ)
behind_blank [] = none
behind_blank (c ∷ cs) = if is_space c then some (lstrip cs) else none

abbrev and_match : {A : Type 0} → Option A → (A → Option A) → Option A
and_match none f = none
and_match (some a) f = f a

-- The text behind a match of `new\s+Class\s*\(` at its beginning.
unfoldable pub constructor_match : List ℕ → List ℕ → Option (List ℕ)
unfolding behind_text lstrip
constructor_match class_name text = and_match (behind_text (codes "new") text) λ after_new.
    and_match (behind_blank after_new) λ after_blank.
      and_match (behind_text class_name after_blank)
        λ after_class. behind_text (codes "(") (lstrip after_class)

-- The places of the opening parentheses of the matches, which do not overlap. `skip` counts the
-- characters of the last match that are still to pass.
unfoldable pub open_parentheses : List ℕ → List ℕ → ℕ → ℕ → List ℕ
unfolding constructor_match
open_parentheses class_name [] index skip = []
open_parentheses class_name (c ∷ cs) index (suc skip) =
    open_parentheses class_name cs (suc index) skip
open_parentheses class_name (c ∷ cs) index zero = elim (constructor_match class_name (c ∷ cs)) [
  | none ↦ open_parentheses class_name cs (suc index) zero
  | some rest ↦
      (index + (length cs - length rest))
      ∷ open_parentheses class_name cs (suc index) (length cs - length rest)
]

-- `text[start:stop]`
abbrev take_codes : ℕ → List ℕ → List ℕ
take_codes zero cs = []
take_codes (suc n) [] = []
take_codes (suc n) (c ∷ cs) = c ∷ take_codes n cs

abbrev pub slice_codes : List ℕ → ℕ → ℕ → List ℕ
slice_codes text start stop = take_codes (stop - start) (from_index start text)

-- What the loop over the matches has collected: whether there is a segment, the segments joined,
-- and the cursor.
pub record Segments : Type 0 where
  pub found : Bool
  pub joined : List ℕ
  pub cursor : ℕ

abbrev wrapped : List ℕ → List ℕ → List ℕ
wrapped factory_call arguments = factory_call ++ (b'(' ∷ (arguments ++ (b')' ∷ [])))

abbrev wrap_arguments : List ℕ → List ℕ → ℕ → ℕ → Segments → Segments
wrap_arguments factory_call text open_index close_index s =
    let arguments = strip (slice_codes text (open_index + 1) close_index) in
    if starts_text (factory_call ++ (b'(' ∷ [])) arguments then s else record {
      found = true;
      joined =
          s.joined
          ++ (slice_codes text s.cursor (open_index + 1) ++ wrapped factory_call arguments);
      cursor = close_index;
    }

abbrev wrap_match : List ℕ → List ℕ → ℕ → Option ℕ → Segments → Segments
wrap_match factory_call text open_index none s = s
wrap_match factory_call text open_index (some close_index) s =
    wrap_arguments factory_call text open_index close_index s

unfoldable pub wrap_matches : List ℕ → List ℕ → List ℕ → Segments → Segments
unfolding strip starts_text find_matching_parenthesis
wrap_matches factory_call text [] s = s
wrap_matches factory_call text (i ∷ is) s =
    wrap_matches factory_call text is
      (wrap_match factory_call text i (find_matching_parenthesis text i) s)

abbrev joined_text : List ℕ → Segments → List ℕ
joined_text text s = if s.found then s.joined ++ from_index s.cursor text else text

-- One round of the outer loop.
unfoldable pub wrap_constructor_calls : List ℕ → List ℕ → List ℕ → List ℕ
unfolding open_parentheses wrap_matches
wrap_constructor_calls text class_name factory_call = joined_text text (
    wrap_matches factory_call text (open_parentheses class_name text 0 0)
      (record { found = false; joined = []; cursor = 0 }))

-- `_rewrite_java_constructor_calls`: by the simple name, then by the full one.
unfoldable pub rewrite_java_constructor_calls : List ℕ → List ℕ → List ℕ → List ℕ
unfolding wrap_constructor_calls
rewrite_java_constructor_calls text constructor_class factory_call =
    wrap_constructor_calls
      (wrap_constructor_calls text (last_piece b'.' constructor_class) factory_call)
      constructor_class factory_call
