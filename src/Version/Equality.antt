-- ===== src/Version/Equality.antt =====
-- When `compare_versions` calls two versions equal.
use Prim.Native.Nat.{compare}
use execution_accelerator.Prelude.{ℕ, zero, suc, ◌≡◌, refl, ◌↔◌, ap, List, [], ◌∷◌, arith}
use execution_accelerator.Version.Parts.{ℤ, Part, int, str, normalize_parts}
use execution_accelerator.Version.Compare.{
  Ordering, and_then, compare_ints, compare_texts, compare_part, compare_parts, compare_versions,
  padding,
}

-- The part at a position, `0` past the end.
abbrev pub part_at : List Part → ℕ → Part
part_at [] i = padding
part_at (p ∷ ps) zero = p
part_at (p ∷ ps) (suc i) = part_at ps i

and_then-eq : (o r : Ordering) → and_then o r ≡ Ordering.eq → (o ≡ Ordering.eq) × (r ≡ Ordering.eq)
and_then-eq o r h = ground arith

compare_ints-eq : (a b : ℤ) → compare_ints a b ≡ Ordering.eq → a ≡ b
unfolding compare_ints
compare_ints-eq a b h = ground arith

compare_texts-eq : (s t : List ℕ) → compare_texts s t ≡ Ordering.eq → s ≡ t
unfolding compare_texts
compare_texts-eq [] [] h = refl
compare_texts-eq [] (d ∷ ds) h = cc
compare_texts-eq (c ∷ cs) [] h = cc
compare_texts-eq (c ∷ cs) (d ∷ ds) h =
    let e = and_then-eq (compare c d) (compare_texts cs ds) h in
    let tails = compare_texts-eq cs ds e.1 in ground (arith, e.0, tails)

compare_texts_refl : (s : List ℕ) → compare_texts s s ≡ Ordering.eq
unfolding compare_texts
compare_texts_refl [] = refl
compare_texts_refl (c ∷ cs) = ground (arith, compare_texts_refl cs)

compare_part-eq : (p q : Part) → compare_part p q ≡ Ordering.eq → p ≡ q
unfolding compare_part
compare_part-eq (int a) (int b) h = ap int (compare_ints-eq a b h)
compare_part-eq (int a) (str t) h = cc
compare_part-eq (str s) (int b) h = cc
compare_part-eq (str s) (str t) h = ap str (compare_texts-eq s t h)

compare_part_refl : (p : Part) → compare_part p p ≡ Ordering.eq
unfolding compare_part compare_ints
compare_part_refl (int a) = ground arith
compare_part_refl (str s) = compare_texts_refl s

compare_part_of_eq : (p q : Part) → p ≡ q → compare_part p q ≡ Ordering.eq
compare_part_of_eq p q e = cc (e, compare_part_refl p)

-- The loop ends with `eq` only after it has seen equal parts everywhere.
compare_parts-eq :
    (ps qs : List Part) → compare_parts ps qs ≡ Ordering.eq → (i : ℕ) → part_at ps i ≡ part_at qs i
unfolding compare_parts
compare_parts-eq [] [] h i = refl
compare_parts-eq [] (q ∷ qs) h zero = compare_part-eq padding q (and_then-eq _ _ h).0
compare_parts-eq [] (q ∷ qs) h (suc i) = compare_parts-eq [] qs (and_then-eq _ _ h).1 i
compare_parts-eq (p ∷ ps) [] h zero = compare_part-eq p padding (and_then-eq _ _ h).0
compare_parts-eq (p ∷ ps) [] h (suc i) = compare_parts-eq ps [] (and_then-eq _ _ h).1 i
compare_parts-eq (p ∷ ps) (q ∷ qs) h zero = compare_part-eq p q (and_then-eq _ _ h).0
compare_parts-eq (p ∷ ps) (q ∷ qs) h (suc i) = compare_parts-eq ps qs (and_then-eq _ _ h).1 i

compare_parts_of_eq :
    (ps qs : List Part)
    → ((i : ℕ) → part_at ps i ≡ part_at qs i)
    → compare_parts ps qs ≡ Ordering.eq
unfolding compare_parts
compare_parts_of_eq [] [] h = refl
compare_parts_of_eq [] (q ∷ qs) h =
    cc (compare_part_of_eq padding q (h 0), compare_parts_of_eq [] qs (λ i. h (suc i)))
compare_parts_of_eq (p ∷ ps) [] h =
    cc (compare_part_of_eq p padding (h 0), compare_parts_of_eq ps [] (λ i. h (suc i)))
compare_parts_of_eq (p ∷ ps) (q ∷ qs) h =
    cc (compare_part_of_eq p q (h 0), compare_parts_of_eq ps qs (λ i. h (suc i)))

-- Two versions compare as equal exactly when they have the same part at every position, a missing
-- position counting as the number 0.
pub compare_versions-eq_iff :
    (v w : List ℕ)
    → (compare_versions v w ≡ Ordering.eq)
      ↔ ((i : ℕ) → part_at (normalize_parts v) i ≡ part_at (normalize_parts w) i)
unfolding compare_versions
compare_versions-eq_iff v w = (
  compare_parts-eq (normalize_parts v) (normalize_parts w),
  compare_parts_of_eq (normalize_parts v) (normalize_parts w),
)
