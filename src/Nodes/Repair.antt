-- ===== src/Nodes/Repair.antt =====
-- nodes/repair.py: a patch for a compile or a test failure, proposed by a language model. The client,
-- the schema of the answer, the patterns of the redaction and Python's `str.format` are parameters.
use execution_accelerator.Prelude.{
  stripped, ℕ, ◌+◌, String, Bool, false, not, ◌&&◌, ◌||◌, Option, none, some, List, [], ◌∷◌, ◌++◌,
  map, Outcome, ok, raised, ◌>>=◌, reverse, codes, concat, eqb, last?, length, leb, lookup, ltb,
  if◌then◌else◌,
}
use execution_accelerator.Schemas.{
  FailureClassification, LlmCallRecord, RepairProposal, failure_classification_text, number,
  strings,
}
use execution_accelerator.State.{RemediationState, RepositoryWorkspace, WorkflowError, audit_event}
use execution_accelerator.Java.Symbols.{is_nil, starts_text}
use execution_accelerator.Java.Constructors.{slice_codes}
use execution_accelerator.Llm.Redact.{Pattern, Text}
use execution_accelerator.Llm.Call.{
  Called, LlmBudget, LlmClient, LlmFailure, Schema, filled_text, repair_budget_exceeded,
  structured_call,
}

abbrev pub max_files_per_patch : ℕ
max_files_per_patch = 10

abbrev pub max_lines_per_patch : ℕ
max_lines_per_patch = 500

-- `_LlmPatchProposal`
pub record LlmPatchProposal : Type 0 where
  pub rationale : String
  pub unified_diff : String
  pub affected_files : List String

pub record RepairContext : Type 0 where
  pub failure_classification : FailureClassification
  pub workspace_path : String
  pub error_excerpt : Text
  pub relevant_files : List (String × String)

-- What a repair is built from: `_build_repair_node` and `structured_call`.
pub record RepairSettings (W : Type 0) : Type 0 where
  pub patterns : List Pattern
  pub budget : LlmBudget
  pub client : LlmClient W
  pub schema : Schema LlmPatchProposal
  pub format : Text → List (String × Text) → Outcome LlmFailure Text
  pub prompt_name : String
  pub default_prompt : Text
  pub prompt_loader : Option Text
  pub failure_class : FailureClassification

-- The ends of a line that `str.splitlines` knows.
abbrev is_line_break : ℕ → Bool
is_line_break c =
    (leb 10 c && leb c 13) || ((leb 28 c && leb c 30) || (eqb c 133 || (eqb c 8232 || eqb c 8233)))

-- The rest of a text in lines: the line so far, reversed, and whether the last character was `\r`.
unfoldable pub split_lines_from : Text → Bool → Text → List Text
split_lines_from line after_return [] = if is_nil line then [] else reverse line ∷ []
split_lines_from line after_return (c ∷ cs) =
    let skips = after_return && eqb c 10 in
    let ends = is_line_break c in
    let rest =
      split_lines_from (if skips then [] else if ends then [] else c ∷ line) (eqb c 13) cs in
    if skips then rest else if ends then reverse line ∷ rest else rest

-- `text.splitlines()`
unfoldable pub split_lines : Text → List Text
unfolding split_lines_from
split_lines text = split_lines_from [] false text

-- `line.startswith(("+", "-")) and not line.startswith(("+++", "---"))`
unfoldable pub is_changed_line : Text → Bool
unfolding starts_text
is_changed_line line =
    (starts_text (codes "+") line || starts_text (codes "-") line)
    && not (starts_text (codes "+++") line || starts_text (codes "---") line)

abbrev count_changed : List Text → ℕ
count_changed [] = 0
count_changed (l ∷ ls) = (if is_changed_line l then 1 else 0) + count_changed ls

-- `_count_diff_lines`
unfoldable pub count_diff_lines : String → ℕ
unfolding split_lines is_changed_line
count_diff_lines unified_diff = count_changed (split_lines (codes unified_diff))

-- `_enforce_patch_limits`
unfoldable pub enforce_patch_limits : LlmPatchProposal → Outcome LlmFailure (Unit {0})
enforce_patch_limits proposal =
    let file_count = length proposal.affected_files in
    let line_count = count_diff_lines proposal.unified_diff in
    if ltb max_files_per_patch file_count
    then raised (repair_budget_exceeded "files" file_count max_files_per_patch)
    else if ltb max_lines_per_patch line_count
    then raised (repair_budget_exceeded "lines" line_count max_lines_per_patch)
    else ok tt

abbrev path_of : Option RepositoryWorkspace → String
path_of none = ""
path_of (some workspace) = workspace.local_path

abbrev current_path : Option String → RemediationState → String
current_path none state = ""
current_path (some repository) state = path_of (lookup repository state.repo_map)

-- `state.errors[-1].message[:4000]`
abbrev excerpt_of : Option WorkflowError → Text
excerpt_of none = []
excerpt_of (some error) = slice_codes (codes error.message) 0 4000

-- `_context_from_state`
unfoldable pub context_from_state : FailureClassification → RemediationState → RepairContext
unfolding lookup last?
context_from_state failure_class state = record {
  failure_classification = failure_class;
  workspace_path = current_path state.current_working_repo state;
  error_excerpt = excerpt_of (last? state.errors);
  relevant_files = state.relevant_repair_inputs;
}

abbrev file_excerpt : String × String → Text
file_excerpt (path, contents) =
    codes "--- " ++ (codes path ++ (codes " ---" ++ (10 ∷ codes contents)))

-- `"\n\n".join(…)`
abbrev join_excerpts : List (String × String) → Text
join_excerpts [] = []
join_excerpts (f ∷ fs) = elim fs [
  | [] ↦ file_excerpt f
  | _ ∷ _ ↦ file_excerpt f ++ (10 ∷ 10 ∷ join_excerpts fs)
]

abbrev or_codes : Text → String → Text
or_codes text default = if is_nil text then codes default else text

-- `_render_prompt`
unfoldable pub render_prompt :
    (Text → List (String × Text) → Outcome LlmFailure Text)
    → Text
    → RepairContext
    → Outcome LlmFailure Text
render_prompt format template context = format template (
    ("failure_classification", codes (failure_classification_text context.failure_classification))
    ∷ ("workspace_path", codes context.workspace_path)
    ∷ ("error_excerpt", or_codes context.error_excerpt "(no error message captured)")
    ∷ (
      "file_excerpts",
      or_codes (join_excerpts context.relevant_files) "(no source files attached)",
    )
    ∷ [])

abbrev pub proposal_of :
    FailureClassification → LlmPatchProposal → ℕ → String → String → RepairProposal
proposal_of failure_class proposal attempt_index rationale unified_diff = record {
  failure_classification = failure_class;
  rationale = rationale;
  unified_diff = unified_diff;
  affected_files = map stripped proposal.affected_files;
  attempt_index = attempt_index;
}

-- `RepairProposal(…)`: a schema of the program, whose texts are stripped.
unfoldable pub repair_proposal :
    FailureClassification → LlmPatchProposal → ℕ → Outcome LlmFailure RepairProposal
unfolding filled_text stripped
repair_proposal failure_class proposal attempt_index = do
  rationale ← filled_text proposal.rationale
  unified_diff ← filled_text proposal.unified_diff
  ok (proposal_of failure_class proposal attempt_index rationale unified_diff)

-- The update that the node returns.
abbrev pub repaired :
    FailureClassification
    → RemediationState
    → LlmPatchProposal
    → LlmCallRecord
    → RepairProposal
    → RemediationState
repaired failure_class state model call proposal = record state {
  llm_calls = state.llm_calls ++ (call ∷ []);
  llm_tokens_used = state.llm_tokens_used + call.token_count;
  repair_proposals = state.repair_proposals ++ (proposal ∷ []);
  audit_events =
      state.audit_events
      ++ (audit_event (concat ("repair." ∷ failure_classification_text failure_class ∷ []))
            (concat (
              "Generated repair proposal for "
              ∷ failure_classification_text failure_class
              ∷ "."
              ∷ []))
            (("affected_files", strings model.affected_files)
              ∷ ("diff_lines", number (count_diff_lines model.unified_diff))
              ∷ ("attempt_index", number proposal.attempt_index)
              ∷ [])
          ∷ []);
}

-- What the node does with the answer.
abbrev pub proposed_from :
    FailureClassification
    → RemediationState
    → Outcome LlmFailure (LlmPatchProposal × LlmCallRecord)
    → Outcome LlmFailure RemediationState
proposed_from failure_class state answer = do
  parsed ← answer
  enforced ← enforce_patch_limits parsed.0
  proposal ← repair_proposal failure_class parsed.0 (length state.repair_proposals + 1)
  ok (repaired failure_class state parsed.0 parsed.1 proposal)

abbrev template_of : Option Text → Text → Text
template_of none default_prompt = default_prompt
template_of (some template) default_prompt = template

abbrev pub called_model :
    {W : Type 0}
    → RepairSettings W
    → RemediationState
    → Outcome LlmFailure Text
    → Called W (LlmPatchProposal × LlmCallRecord)
called_model settings state (raised failure) w = (raised failure, w)
called_model settings state (ok prompt) w =
    structured_call settings.patterns settings.budget settings.client state prompt settings.schema
      settings.prompt_name [] none w

-- The node that `_build_repair_node` builds.
unfoldable pub repair :
    {W : Type 0} → RepairSettings W → RemediationState → Called W RemediationState
unfolding structured_call enforce_patch_limits repair_proposal context_from_state render_prompt
    count_diff_lines
repair settings state w =
    let prompt =
      render_prompt settings.format (template_of settings.prompt_loader settings.default_prompt)
        (context_from_state settings.failure_class state) in
    let (answer, w') = called_model settings state prompt w in
    (proposed_from settings.failure_class state answer, w')
