-- ===== src/Tests/Sources.antt =====
-- Java sources at concrete texts.
use execution_accelerator.Schemas.{
  CodeChangeTarget, CompatibilityRisk, ComplexMigrationTactic, ComplexRemediationPlan,
  RemediationStrategy, SymbolMappingEntry,
}
use execution_accelerator.Java.Rewrites.{iter_complex_symbol_rewrites, append_new, gather}
use execution_accelerator.Prelude.{
  ℕ, ◌+◌, ◌≤◌, ◌≡◌, refl, ◌∷◌, ◌++◌, true, false, some, List, [], length, codes, contains, lstrip,
  strip,
}
use execution_accelerator.Version.Parts.{pos}
use execution_accelerator.Java.Matching.{
  depth, find_matching_parenthesis_first, find_matching_parenthesis_lem,
}
use execution_accelerator.Java.Parse.{IsMember, symbol_text, symbol_text-parts}
use execution_accelerator.Java.Constructors.{
  behind_text, constructor_match, open_parentheses, rewrite_java_constructor_calls,
  wrap_constructor_calls, wrap_matches,
}
use execution_accelerator.Java.Parentheses.{find_matching_parenthesis, from_index, scan_parentheses}
use execution_accelerator.Java.Symbols.{
  parse_java_field_name, parse_java_method_name, parse_java_symbol_class,
  render_java_field_reference, render_java_method_call, split_first, split_last, starts_text,
}

-- The arguments of a constructor are wrapped.
one_call :
    rewrite_java_constructor_calls (codes "x = new A( 1 );") (codes "p.A") (codes "p.F.of")
    ≡ codes "x = new A(p.F.of(1));"
unfolding rewrite_java_constructor_calls wrap_constructor_calls open_parentheses constructor_match
    behind_text lstrip strip wrap_matches starts_text find_matching_parenthesis scan_parentheses
    split_last
one_call = refl

-- A constructor within the arguments of another one is written twice, and the parentheses no longer
-- match.
nested_call :
    rewrite_java_constructor_calls (codes "new A(new A(1))") (codes "p.A") (codes "f")
    ≡ codes "new A(f(new A(1))f(1)))"
unfolding rewrite_java_constructor_calls wrap_constructor_calls open_parentheses constructor_match
    behind_text lstrip strip wrap_matches starts_text find_matching_parenthesis scan_parentheses
    split_last
nested_call = refl

abbrev call_text : List ℕ
call_text = codes "f(a(b))c"

call_text-found : find_matching_parenthesis call_text 1 ≡ some 6
unfolding find_matching_parenthesis scan_parentheses
call_text-found = refl

call_text-depth : depth (pos 0) (codes "(a(b)") ≡ pos 1
unfolding depth
call_text-depth = refl

find_matching_parenthesis_lem_example :
    (before : List ℕ) × (behind : List ℕ) × (from_index 1 call_text ≡ before ++ (b')' ∷ behind))
    × (depth (pos 0) before ≡ pos 1)
    × (6 ≡ 1 + length before)
find_matching_parenthesis_lem_example = find_matching_parenthesis_lem call_text 1 6 call_text-found

find_matching_parenthesis_first_example :
    (found : ℕ) × (find_matching_parenthesis call_text 1 ≡ some found)
    × (found ≤ 1 + length (codes "(a(b)"))
find_matching_parenthesis_first_example =
    find_matching_parenthesis_first call_text 1 (codes "(a(b)") (codes "c") refl call_text-depth

call-IsMember : IsMember (codes "p") (codes "A") (codes "run")
unfolding contains
call-IsMember = record {
  package_plain = (refl, tt);
  class_plain = (refl, tt);
  class_simple = (refl, tt);
  member_simple = (refl, (refl, (refl, tt)));
  member_open = (refl, (refl, (refl, tt)));
  not_init = refl;
  class_there = refl;
  member_there = refl;
}

symbol_text-parts_example :
    let symbol = symbol_text (codes "p") (codes "A") (codes "run") in
    (parse_java_symbol_class symbol ≡ some (codes "p.A"))
    × (parse_java_method_name symbol ≡ some (codes "run"))
    × (parse_java_field_name symbol ≡ some (codes "run"))
    × (render_java_method_call symbol true ≡ some (codes "p.A.run("))
    × (render_java_method_call symbol false ≡ some (codes "A.run("))
    × (render_java_field_reference symbol true ≡ some (codes "p.A.run"))
    × (render_java_field_reference symbol false ≡ some (codes "A.run"))
symbol_text-parts_example = symbol_text-parts (codes "p") (codes "A") (codes "run") call-IsMember

moved_method : SymbolMappingEntry
moved_method = record {
  legacy_symbol = "p.A#run";
  replacement_symbol = "q.B#start";
  confidence = 90;
  rationale = "renamed";
}

changed_file : CodeChangeTarget
changed_file = record {
  file_path = "A.java";
  change_summary = "Call the new method.";
  related_symbols = "p.A#run" ∷ [];
}

move_plan : ComplexRemediationPlan
move_plan = record {
  repository = "repo";
  strategy = RemediationStrategy.complex_refactor;
  summary = "Move to the new method.";
  artifact_candidates = [];
  compatibility_diff = record {
    package_name = "p";
    baseline_version = "1";
    target_version = "2";
    summary = "renamed";
    risk = CompatibilityRisk.high;
    breaking_changes = [];
  };
  migration_tactic = ComplexMigrationTactic.targeted_symbol_rewrite;
  tactic_rationale = "renamed";
  migration_steps = [];
  target_files = changed_file ∷ [];
  symbol_mappings = moved_method ∷ [];
  open_questions = [];
  requires_code_changes = true;
}

-- The call is rewritten by its simple name and by its full one.
move_plan-rewrites :
    iter_complex_symbol_rewrites changed_file move_plan
    ≡ (codes "A.run(", codes "q.B.start(") ∷ (codes "p.A.run(", codes "q.B.start(") ∷ []
unfolding iter_complex_symbol_rewrites gather append_new changed_file move_plan moved_method
    render_java_method_call split_first split_last contains
move_plan-rewrites = refl
