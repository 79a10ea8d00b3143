-- ===== src/Java/Rewrites.antt =====
-- nodes/remediation.py: which rewrites the symbol mappings of a plan lead to
-- (`_iter_complex_…_rewrites`). Each function is a loop over the mappings that are related to the
-- target; a rewrite that is there already is not added again.
use execution_accelerator.Prelude.{
  ℕ, Bool, true, false, ◌&&◌, ◌||◌, Option, none, some, List, [], ◌∷◌, ◌++◌, any, codes, codes_eq,
  one_of, if◌then◌else◌,
}
use execution_accelerator.Schemas.{CodeChangeTarget, ComplexRemediationPlan, SymbolMappingEntry}
use execution_accelerator.Java.Symbols.{
  parse_java_constructor_class, parse_java_field_name, parse_java_method_name,
  parse_java_symbol_class, render_java_factory_call, render_java_field_reference,
  render_java_method_call, render_java_method_reference,
}

-- `mapping.legacy_symbol in related_symbols or mapping.replacement_symbol in related_symbols`
abbrev pub is_related : CodeChangeTarget → SymbolMappingEntry → Bool
is_related target mapping =
    one_of mapping.legacy_symbol target.related_symbols
    || one_of mapping.replacement_symbol target.related_symbols

module _ {A : Type 0} (same : A → A → Bool) where
  -- `if rewrite not in rewrites: rewrites.append(rewrite)`, for each of the candidates
  unfoldable pub append_new : List A → List A → List A
  append_new [] rewrites = rewrites
  append_new (x ∷ xs) rewrites =
      append_new xs (if any (same x) rewrites then rewrites else rewrites ++ (x ∷ []))

  -- The loop over the mappings.
  unfoldable pub gather :
      (SymbolMappingEntry → Bool)
      → (SymbolMappingEntry → List A)
      → List SymbolMappingEntry
      → List A
      → List A
  unfolding append_new
  gather related candidates [] rewrites = rewrites
  gather related candidates (m ∷ ms) rewrites =
      gather related candidates ms
        (if related m then append_new (candidates m) rewrites else rewrites)

-- A text and what takes its place.
abbrev pub Rewrite : Type 0
Rewrite = List ℕ × List ℕ

-- A class, its member, and what takes the place of the member.
abbrev pub StaticRewrite : Type 0
StaticRewrite = List ℕ × (List ℕ × List ℕ)

abbrev pub same_rewrite : Rewrite → Rewrite → Bool
same_rewrite r q = codes_eq r.0 q.0 && codes_eq r.1 q.1

abbrev pub same_static : StaticRewrite → StaticRewrite → Bool
same_static r q = codes_eq r.0 q.0 && same_rewrite r.1 q.1

abbrev pub with_legacy : Option (List ℕ) → List ℕ → List Rewrite
with_legacy none replacement = []
with_legacy (some legacy) replacement = (legacy, replacement) ∷ []

-- The rendering of the legacy symbol, first by its simple name, then by its full one.
abbrev pub rendered_both :
    (List ℕ → Bool → Option (List ℕ)) → Option (List ℕ) → List ℕ → List Rewrite
rendered_both render none legacy = []
rendered_both render (some replacement) legacy =
    with_legacy (render legacy false) replacement ++ with_legacy (render legacy true) replacement

abbrev pub symbol_candidates : SymbolMappingEntry → List Rewrite
symbol_candidates m =
    rendered_both render_java_method_call
      (render_java_method_call (codes m.replacement_symbol) true) (codes m.legacy_symbol)

abbrev pub field_candidates : SymbolMappingEntry → List Rewrite
field_candidates m =
    rendered_both render_java_field_reference
      (render_java_field_reference (codes m.replacement_symbol) true) (codes m.legacy_symbol)

abbrev pub reference_candidates : SymbolMappingEntry → List Rewrite
reference_candidates m =
    rendered_both render_java_method_reference
      (render_java_method_reference (codes m.replacement_symbol) true) (codes m.legacy_symbol)

abbrev pub static_of : Option (List ℕ) → Option (List ℕ) → Option (List ℕ) → List StaticRewrite
static_of (some class_name) (some name) (some replacement) = (class_name, (name, replacement)) ∷ []
static_of _ _ _ = []

abbrev pub static_candidates : SymbolMappingEntry → List StaticRewrite
static_candidates m =
    static_of (parse_java_symbol_class (codes m.legacy_symbol))
      (parse_java_method_name (codes m.legacy_symbol))
      (render_java_method_call (codes m.replacement_symbol) true)

abbrev pub static_field_candidates : SymbolMappingEntry → List StaticRewrite
static_field_candidates m =
    static_of (parse_java_symbol_class (codes m.legacy_symbol))
      (parse_java_field_name (codes m.legacy_symbol))
      (render_java_field_reference (codes m.replacement_symbol) true)

abbrev constructor_of : Option (List ℕ) → Option (List ℕ) → List Rewrite
constructor_of (some class_name) (some factory) = (class_name, factory) ∷ []
constructor_of _ _ = []

abbrev pub constructor_candidates : SymbolMappingEntry → List Rewrite
constructor_candidates m =
    constructor_of (parse_java_constructor_class (codes m.legacy_symbol))
      (render_java_factory_call (codes m.replacement_symbol) true)

abbrev pub as_list : Option (List ℕ) → List (List ℕ)
as_list none = []
as_list (some t) = t ∷ []

-- `_iter_complex_symbol_rewrites`
unfoldable pub iter_complex_symbol_rewrites :
    CodeChangeTarget → ComplexRemediationPlan → List Rewrite
iter_complex_symbol_rewrites target plan =
    gather same_rewrite (is_related target) symbol_candidates plan.symbol_mappings []

-- `_iter_complex_static_import_rewrites`
unfoldable pub iter_complex_static_import_rewrites :
    CodeChangeTarget → ComplexRemediationPlan → List StaticRewrite
iter_complex_static_import_rewrites target plan =
    gather same_static (is_related target) static_candidates plan.symbol_mappings []

-- `_iter_complex_field_rewrites`
unfoldable pub iter_complex_field_rewrites :
    CodeChangeTarget → ComplexRemediationPlan → List Rewrite
iter_complex_field_rewrites target plan =
    gather same_rewrite (is_related target) field_candidates plan.symbol_mappings []

-- `_iter_complex_static_import_field_rewrites`
unfoldable pub iter_complex_static_import_field_rewrites :
    CodeChangeTarget → ComplexRemediationPlan → List StaticRewrite
iter_complex_static_import_field_rewrites target plan =
    gather same_static (is_related target) static_field_candidates plan.symbol_mappings []

-- `_iter_complex_import_cleanup_classes`
unfoldable pub iter_complex_import_cleanup_classes :
    CodeChangeTarget → ComplexRemediationPlan → List (List ℕ)
iter_complex_import_cleanup_classes target plan =
    gather codes_eq (is_related target)
      (λ m. as_list (parse_java_symbol_class (codes m.legacy_symbol))) plan.symbol_mappings []

-- `_iter_complex_method_reference_rewrites`
unfoldable pub iter_complex_method_reference_rewrites :
    CodeChangeTarget → ComplexRemediationPlan → List Rewrite
iter_complex_method_reference_rewrites target plan =
    gather same_rewrite (is_related target) reference_candidates plan.symbol_mappings []

-- `_iter_complex_constructor_rewrites`
unfoldable pub iter_complex_constructor_rewrites :
    CodeChangeTarget → ComplexRemediationPlan → List Rewrite
iter_complex_constructor_rewrites target plan =
    gather same_rewrite (is_related target) constructor_candidates plan.symbol_mappings []
