-- ===== src/Version/Compare.antt =====
-- `compare_versions` of services/version_range.py. The results -1, 0 and 1 are `lt`, `eq` and `gt`.
use Prim.Native.Nat.{compare}
use execution_accelerator.Prelude.{ℕ, List, [], ◌∷◌}
use execution_accelerator.Version.Parts.{ℤ, pos, negsuc, Part, int, str, normalize_parts}
pub use Prim.Native.Nat.{Ordering}

-- The first difference decides.
abbrev pub and_then : Ordering → Ordering → Ordering
and_then Ordering.lt rest = Ordering.lt
and_then Ordering.eq rest = rest
and_then Ordering.gt rest = Ordering.gt

-- Order of integers.
unfoldable pub compare_ints : ℤ → ℤ → Ordering
compare_ints (pos m) (pos n) = compare m n
compare_ints (pos m) (negsuc n) = Ordering.gt
compare_ints (negsuc m) (pos n) = Ordering.lt
compare_ints (negsuc m) (negsuc n) = compare n m

-- Order of texts: by code points, a prefix first.
unfoldable pub compare_texts : List ℕ → List ℕ → Ordering
compare_texts [] [] = Ordering.eq
compare_texts [] (d ∷ ds) = Ordering.lt
compare_texts (c ∷ cs) [] = Ordering.gt
compare_texts (c ∷ cs) (d ∷ ds) = and_then (compare c d) (compare_texts cs ds)

-- One round of the loop: a number is above a word.
unfoldable pub compare_part : Part → Part → Ordering
compare_part (int a) (int b) = compare_ints a b
compare_part (int a) (str t) = Ordering.gt
compare_part (str s) (int b) = Ordering.lt
compare_part (str s) (str t) = compare_texts s t

-- What stands in for a missing part.
abbrev pub padding : Part
padding = int (pos 0)

-- The loop over the longer list; the shorter one reads `0` past its end.
unfoldable pub compare_parts : List Part → List Part → Ordering
compare_parts [] [] = Ordering.eq
compare_parts (p ∷ ps) [] = and_then (compare_part p padding) (compare_parts ps [])
compare_parts [] (q ∷ qs) = and_then (compare_part padding q) (compare_parts [] qs)
compare_parts (p ∷ ps) (q ∷ qs) = and_then (compare_part p q) (compare_parts ps qs)

unfoldable pub compare_versions : List ℕ → List ℕ → Ordering
compare_versions left right = compare_parts (normalize_parts left) (normalize_parts right)
