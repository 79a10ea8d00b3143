-- ===== src/Java/Complete.antt =====
-- Each of the seven loops of nodes/remediation.py gathers exactly the rewrites of related mappings.
use mathlib.Core.Path.{subst}
use execution_accelerator.Prelude.{ℕ, ◌≡◌, refl, ◌↔◌, true, List, [], ◌∷◌, codes, codes_eq, arith}
use execution_accelerator.Schemas.{CodeChangeTarget, ComplexRemediationPlan}
use execution_accelerator.Java.Symbols.{parse_java_symbol_class}
use execution_accelerator.Java.Rewrites.{
  Rewrite, StaticRewrite, constructor_candidates, field_candidates, is_related,
  iter_complex_constructor_rewrites, iter_complex_field_rewrites,
  iter_complex_import_cleanup_classes, iter_complex_method_reference_rewrites,
  iter_complex_static_import_field_rewrites, iter_complex_static_import_rewrites,
  iter_complex_symbol_rewrites, as_list, reference_candidates, same_rewrite, same_static,
  static_candidates, static_field_candidates, symbol_candidates,
}
use execution_accelerator.Java.Gathered.{Gathers, gather-Gathers}

codes_eq_refl : (s : List ℕ) → codes_eq s s ≡ true
codes_eq_refl [] = refl
codes_eq_refl (c ∷ cs) = ground (arith, codes_eq_refl cs)

codes_eq-path : (s t : List ℕ) → codes_eq s t ≡ true → s ≡ t
codes_eq-path [] [] h = refl
codes_eq-path [] (d ∷ ds) h = cc
codes_eq-path (c ∷ cs) [] h = cc
codes_eq-path (c ∷ cs) (d ∷ ds) h = ground (arith, h, codes_eq-path cs ds)

codes_eq_iff : (s t : List ℕ) → (codes_eq s t ≡ true) ↔ (s ≡ t)
codes_eq_iff s t = (codes_eq-path s t, λ p. rw (← p) (codes_eq_refl s))

same_rewrite_refl : (r : Rewrite) → same_rewrite r r ≡ true
same_rewrite_refl (a, b) = ground (arith, codes_eq_refl a, codes_eq_refl b)

same_rewrite-path : (r q : Rewrite) → same_rewrite r q ≡ true → r ≡ q
same_rewrite-path (a, b) (c, d) h = ground (arith, h, codes_eq-path a c, codes_eq-path b d)

same_rewrite_iff : (r q : Rewrite) → (same_rewrite r q ≡ true) ↔ (r ≡ q)
same_rewrite_iff r q =
    (same_rewrite-path r q, λ p. subst (λ x. same_rewrite r x ≡ true) p (same_rewrite_refl r))

same_static_refl : (r : StaticRewrite) → same_static r r ≡ true
same_static_refl (a, r) = ground (arith, codes_eq_refl a, same_rewrite_refl r)

same_static-path : (r q : StaticRewrite) → same_static r q ≡ true → r ≡ q
same_static-path (a, r) (c, q) h = ground (arith, h, codes_eq-path a c, same_rewrite-path r q)

same_static_iff : (r q : StaticRewrite) → (same_static r q ≡ true) ↔ (r ≡ q)
same_static_iff r q =
    (same_static-path r q, λ p. subst (λ x. same_static r x ≡ true) p (same_static_refl r))

-- Each of the seven loops over the symbol mappings of a plan returns every rewrite that a mapping
-- related to the target leads to, no other one, and none of them twice.
pub iter_complex_rewrites-Gathers :
    (target : CodeChangeTarget) (plan : ComplexRemediationPlan)
    → let ms = plan.symbol_mappings in
      Gathers (is_related target) symbol_candidates ms (iter_complex_symbol_rewrites target plan)
      × Gathers (is_related target) field_candidates ms (iter_complex_field_rewrites target plan)
      × Gathers
          (is_related target)
          reference_candidates
          ms
          (iter_complex_method_reference_rewrites target plan)
      × Gathers
          (is_related target)
          constructor_candidates
          ms
          (iter_complex_constructor_rewrites target plan)
      × Gathers
          (is_related target)
          static_candidates
          ms
          (iter_complex_static_import_rewrites target plan)
      × Gathers
          (is_related target)
          static_field_candidates
          ms
          (iter_complex_static_import_field_rewrites target plan)
      × Gathers
          (is_related target)
          (λ m. as_list (parse_java_symbol_class (codes m.legacy_symbol)))
          ms
          (iter_complex_import_cleanup_classes target plan)
unfolding iter_complex_symbol_rewrites iter_complex_field_rewrites
    iter_complex_method_reference_rewrites iter_complex_constructor_rewrites
    iter_complex_static_import_rewrites iter_complex_static_import_field_rewrites
    iter_complex_import_cleanup_classes
iter_complex_rewrites-Gathers target plan = (
  gather-Gathers same_rewrite same_rewrite_iff (is_related target) symbol_candidates
      plan.symbol_mappings,
  gather-Gathers same_rewrite same_rewrite_iff (is_related target) field_candidates
      plan.symbol_mappings,
  gather-Gathers same_rewrite same_rewrite_iff (is_related target) reference_candidates
      plan.symbol_mappings,
  gather-Gathers same_rewrite same_rewrite_iff (is_related target) constructor_candidates
      plan.symbol_mappings,
  gather-Gathers same_static same_static_iff (is_related target) static_candidates
      plan.symbol_mappings,
  gather-Gathers same_static same_static_iff (is_related target) static_field_candidates
      plan.symbol_mappings,
  gather-Gathers codes_eq codes_eq_iff (is_related target)
      (λ m. as_list (parse_java_symbol_class (codes m.legacy_symbol))) plan.symbol_mappings,
)
