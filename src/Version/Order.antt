-- ===== src/Version/Order.antt =====
-- The laws of `compare_versions` as an order: flips, and how three comparisons fit together.
use Prim.Native.Nat.{compare}
use execution_accelerator.Prelude.{ℕ, ◌≡◌, ◌≢◌, ◌⊎◌, refl, List, [], ◌∷◌, arith}
use execution_accelerator.Version.Parts.{ℤ, Part, int, str, normalize_parts}
use execution_accelerator.Version.Compare.{
  Ordering, and_then, compare_ints, compare_texts, compare_part, compare_parts, compare_versions,
  padding,
}

abbrev pub opposite : Ordering → Ordering
opposite Ordering.lt = Ordering.gt
opposite Ordering.eq = Ordering.eq
opposite Ordering.gt = Ordering.lt

-- What the comparison of u with w is, by those of u with v and of v with w.
abbrev pub Coherent : Ordering → Ordering → Ordering → Type 0
Coherent Ordering.eq second third = third ≡ second
Coherent Ordering.lt Ordering.gt third = Unit
Coherent Ordering.lt _ third = third ≡ Ordering.lt
Coherent Ordering.gt Ordering.lt third = Unit
Coherent Ordering.gt _ third = third ≡ Ordering.gt

and_then_flip :
    (a r b s : Ordering) → b ≡ opposite a → s ≡ opposite r → and_then b s ≡ opposite (and_then a r)
and_then_flip a r b s h k = ground arith

compare_ints_flip : (a b : ℤ) → compare_ints b a ≡ opposite (compare_ints a b)
unfolding compare_ints
compare_ints_flip a b = ground arith

compare_texts_flip : (s t : List ℕ) → compare_texts t s ≡ opposite (compare_texts s t)
unfolding compare_texts
compare_texts_flip [] [] = refl
compare_texts_flip [] (d ∷ ds) = refl
compare_texts_flip (c ∷ cs) [] = refl
compare_texts_flip (c ∷ cs) (d ∷ ds) =
    and_then_flip (compare c d) (compare_texts cs ds) (compare d c) (compare_texts ds cs)
      (ground arith) (compare_texts_flip cs ds)

compare_part_flip : (p q : Part) → compare_part q p ≡ opposite (compare_part p q)
unfolding compare_part
compare_part_flip (int a) (int b) = compare_ints_flip a b
compare_part_flip (int a) (str t) = refl
compare_part_flip (str s) (int b) = refl
compare_part_flip (str s) (str t) = compare_texts_flip s t

compare_parts_flip : (ps qs : List Part) → compare_parts qs ps ≡ opposite (compare_parts ps qs)
unfolding compare_parts
compare_parts_flip [] [] = refl
compare_parts_flip [] (q ∷ qs) =
    and_then_flip _ _ _ _ (compare_part_flip padding q) (compare_parts_flip [] qs)
compare_parts_flip (p ∷ ps) [] =
    and_then_flip _ _ _ _ (compare_part_flip p padding) (compare_parts_flip ps [])
compare_parts_flip (p ∷ ps) (q ∷ qs) =
    and_then_flip _ _ _ _ (compare_part_flip p q) (compare_parts_flip ps qs)

and_then-Coherent :
    (a b c r s t : Ordering)
    → Coherent a b c
    → Coherent r s t
    → Coherent (and_then a r) (and_then b s) (and_then c t)
and_then-Coherent a b c r s t h k = ground arith

compare-Coherent : (a b c : ℕ) → Coherent (compare a b) (compare b c) (compare a c)
compare-Coherent a b c = ground arith

compare_ints-Coherent :
    (a b c : ℤ) → Coherent (compare_ints a b) (compare_ints b c) (compare_ints a c)
unfolding compare_ints
compare_ints-Coherent a b c = ground arith

compare_texts-Coherent :
    (s t u : List ℕ) → Coherent (compare_texts s t) (compare_texts t u) (compare_texts s u)
unfolding compare_texts
compare_texts-Coherent [] [] [] = refl
compare_texts-Coherent [] [] (e ∷ es) = refl
compare_texts-Coherent [] (d ∷ ds) [] = tt
compare_texts-Coherent [] (d ∷ ds) (e ∷ es) = ground arith
compare_texts-Coherent (c ∷ cs) [] [] = refl
compare_texts-Coherent (c ∷ cs) [] (e ∷ es) = tt
compare_texts-Coherent (c ∷ cs) (d ∷ ds) [] = ground arith
compare_texts-Coherent (c ∷ cs) (d ∷ ds) (e ∷ es) =
    and_then-Coherent (compare c d) (compare d e) (compare c e) _ _ _ (compare-Coherent c d e)
      (compare_texts-Coherent cs ds es)

compare_part-Coherent :
    (p q r : Part) → Coherent (compare_part p q) (compare_part q r) (compare_part p r)
unfolding compare_part
compare_part-Coherent (int a) (int b) (int c) = compare_ints-Coherent a b c
compare_part-Coherent (str s) (str t) (str u) = compare_texts-Coherent s t u
compare_part-Coherent (int a) (int b) (str u) = ground arith
compare_part-Coherent (int a) (str t) (int c) = tt
compare_part-Coherent (int a) (str t) (str u) = ground arith
compare_part-Coherent (str s) (int b) (int c) = ground arith
compare_part-Coherent (str s) (int b) (str u) = tt
compare_part-Coherent (str s) (str t) (int c) = ground arith

-- The part at the head of a list, and the rest behind it, where a list that has ended goes on with
-- padding.
compare_parts-Coherent :
    (ps qs rs : List Part)
    → Coherent (compare_parts ps qs) (compare_parts qs rs) (compare_parts ps rs)
unfolding compare_parts compare_part compare_ints
compare_parts-Coherent [] [] [] = refl
compare_parts-Coherent [] [] (r ∷ rs) = refl
compare_parts-Coherent [] (q ∷ qs) [] =
    and_then-Coherent (compare_part padding q) (compare_part q padding) Ordering.eq _ _ Ordering.eq
      (compare_part-Coherent padding q padding) (compare_parts-Coherent [] qs [])
compare_parts-Coherent [] (q ∷ qs) (r ∷ rs) =
    and_then-Coherent (compare_part padding q) (compare_part q r) (compare_part padding r) _ _ _
      (compare_part-Coherent padding q r) (compare_parts-Coherent [] qs rs)
compare_parts-Coherent (p ∷ ps) [] [] = ground arith
compare_parts-Coherent (p ∷ ps) [] (r ∷ rs) =
    and_then-Coherent (compare_part p padding) (compare_part padding r) (compare_part p r) _ _ _
      (compare_part-Coherent p padding r) (compare_parts-Coherent ps [] rs)
compare_parts-Coherent (p ∷ ps) (q ∷ qs) [] =
    and_then-Coherent (compare_part p q) (compare_part q padding) (compare_part p padding) _ _ _
      (compare_part-Coherent p q padding) (compare_parts-Coherent ps qs [])
compare_parts-Coherent (p ∷ ps) (q ∷ qs) (r ∷ rs) =
    and_then-Coherent (compare_part p q) (compare_part q r) (compare_part p r) _ _ _
      (compare_part-Coherent p q r) (compare_parts-Coherent ps qs rs)

-- Comparing in the other order gives the opposite result.
pub compare_versions_flip : (v w : List ℕ) → compare_versions w v ≡ opposite (compare_versions v w)
unfolding compare_versions
compare_versions_flip v w = compare_parts_flip (normalize_parts v) (normalize_parts w)

-- The three comparisons of any versions fit together.
pub compare_versions-Coherent :
    (u v w : List ℕ) → Coherent (compare_versions u v) (compare_versions v w) (compare_versions u w)
unfolding compare_versions
compare_versions-Coherent u v w =
    compare_parts-Coherent (normalize_parts u) (normalize_parts v) (normalize_parts w)

-- Comparing in the other order gives the opposite result; each version equals itself; of three
-- versions, one that is not above a second, which is not above a third, is not above the third; and
-- where one of these two is below, so is the first below the third.
pub compare_versions_preorder :
    (u v w : List ℕ)
    → (compare_versions v u ≡ opposite (compare_versions u v))
      × (compare_versions u u ≡ Ordering.eq)
      × (compare_versions u v ≢ Ordering.gt
          → compare_versions v w ≢ Ordering.gt
          → (compare_versions u w ≢ Ordering.gt)
            × ((compare_versions u v ≡ Ordering.lt) ⊎ (compare_versions v w ≡ Ordering.lt)
                → compare_versions u w ≡ Ordering.lt))
compare_versions_preorder u v w = (
  compare_versions_flip u v,
  ground (arith, compare_versions_flip u u),
  λ h k. (
    ground (arith, h, k, compare_versions-Coherent u v w),
    λ below. ground (arith, h, k, below, compare_versions-Coherent u v w),
  ),
)
