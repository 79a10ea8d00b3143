-- ===== src/Nodes/Summary.antt =====
-- nodes/delivery.py and validation_summary.py: the text of a pull request and of a Jira comment.
use execution_accelerator.Prelude.{
  ℕ, ◌+◌, String, Bool, true, false, Option, none, some, List, [], ◌∷◌, ◌++◌, map, reverse, last?,
  find?, length, concat, decimal, join, leb, text_eq, if◌then◌else◌,
}
use execution_accelerator.Schemas.{
  ApprovalDecision, ApprovalRecord, approval_stage_text, CodeChangeTarget,
  complex_migration_tactic_text, maven_dependency_kind_text, remediation_strategy_text,
  RepositoryValidationResult, ValidationCheck, validation_status_text,
}
use execution_accelerator.State.{CodeDiffSummary, RemediationState, SkippedRepository}
use execution_accelerator.Nodes.Classify.{is_failed}
use execution_accelerator.Nodes.Continuation.{completed_with, pending_without}

abbrev or_first : Option ValidationCheck → List ValidationCheck → Option ValidationCheck
or_first (some check) checks = some check
or_first none [] = none
or_first none (check ∷ checks) = some check

-- `select_primary_validation_check` of validation_summary.py
unfoldable pub select_primary_validation_check : RepositoryValidationResult → Option ValidationCheck
select_primary_validation_check validation_result =
    or_first (find? (λ check. is_failed check.status) validation_result.checks)
      validation_result.checks

abbrev pub is_approved : ApprovalDecision → Bool
is_approved ApprovalDecision.approved = true
is_approved _ = false

-- `_find_latest_approved_record`
unfoldable pub find_latest_approved_record : RemediationState → Option ApprovalRecord
find_latest_approved_record state =
    find? (λ entry. is_approved entry.decision) (reverse state.approval_history)

-- A line for a text that is there and not empty.
abbrev line_if : String → Option String → List String
line_if label none = []
line_if label (some value) = if text_eq value "" then [] else concat (label ∷ value ∷ []) ∷ []

-- A line for a text that is there.
abbrev line_with : String → Option String → List String
line_with label none = []
line_with label (some value) = concat (label ∷ value ∷ []) ∷ []

abbrev line : String → String → List String
line label value = concat (label ∷ value ∷ []) ∷ []

abbrev lines_of : {A : Type 0} → Option A → (A → List String) → List String
lines_of none f = []
lines_of (some value) f = f value

skipped_text : SkippedRepository → String
skipped_text repo = concat (repo.name ∷ " (" ∷ repo.reason ∷ ")" ∷ [])

abbrev names_line : String → String → List String → List String
names_line label sep [] = []
names_line label sep (n ∷ ns) = concat (label ∷ join sep (n ∷ ns) ∷ []) ∷ []

progress_lines : String → List String → List String → List String → List String
progress_lines current_repo completed remaining skipped =
    let total_repos = length completed + length remaining + length skipped in
    if leb total_repos 1
    then []
    else line "- Current repository: " current_repo
      ++ line "- Repository progress: " (
          concat (
            decimal (length completed + length skipped)
            ∷ "/"
            ∷ decimal total_repos
            ∷ " addressed"
            ∷ []))
      ++ line "- Completed repositories: " (join ", " completed)
      ++ names_line "- Remaining repositories: " ", " remaining
      ++ names_line "- Skipped repositories: " "; " skipped

-- `_build_repo_progress_lines`
pub build_repo_progress_lines : RemediationState → List String
unfolding progress_lines skipped_text
build_repo_progress_lines state = lines_of state.current_working_repo λ current_repo.
    progress_lines current_repo (completed_with state current_repo)
      (pending_without state current_repo) (map skipped_text state.skipped_repos)

sum_additions : List CodeDiffSummary → ℕ
sum_additions [] = 0
sum_additions (diff ∷ diffs) = diff.additions + sum_additions diffs

sum_deletions : List CodeDiffSummary → ℕ
sum_deletions [] = 0
sum_deletions (diff ∷ diffs) = diff.deletions + sum_deletions diffs

validation_lines : RepositoryValidationResult → List String
validation_lines validation =
    line "- Validation status: " (validation_status_text validation.status)
    ++ line_if "- Validation summary: " validation.summary
    ++ lines_of (select_primary_validation_check validation) λ check.
      line "- Primary validation check: "
        (concat (check.name ∷ " (" ∷ validation_status_text check.status ∷ ")" ∷ []))
      ++ line_if "- Primary validation detail: " check.details

diff_lines : List CodeDiffSummary → List String
diff_lines [] = []
diff_lines (diff ∷ diffs) =
    line "- Changed file count: " (decimal (length (diff ∷ diffs)))
    ++ line "- Primary change: " diff.change_summary
    ++ line "- Total additions: " (decimal (sum_additions (diff ∷ diffs)))
    ++ line "- Total deletions: " (decimal (sum_deletions (diff ∷ diffs)))

target_lines : List CodeChangeTarget → List String
target_lines [] = []
target_lines (target ∷ targets) = line "- Primary target file: " target.file_path

question_lines : List String → List String
question_lines [] = []
question_lines (question ∷ questions) = line "- Open question: " question

-- `_build_delivery_summary_lines`
unfoldable pub build_delivery_summary_lines : RemediationState → List String
unfolding validation_lines sum_additions sum_deletions diff_lines target_lines question_lines
build_delivery_summary_lines state =
    line "Automated remediation for " (concat (state.initial_ticket_id ∷ "." ∷ []))
    ++ lines_of state.vulnerability_details (λ details.
      ""
      ∷ (line "- Package: " details.package_name
          ++ line "- Installed version: " details.installed_version))
    ++ build_repo_progress_lines state
    ++ lines_of state.maven_verification (λ maven.
      line "- Target version: " maven.target_version
      ++ line "- Dependency kind: " (maven_dependency_kind_text maven.dependency_kind))
    ++ lines_of state.route_decision (λ route.
      line "- Route: " (remediation_strategy_text route.strategy)
      ++ line "- Route rationale: " route.reason)
    ++ lines_of state.remediation_plan
        (λ plan. line "- Plan summary: " plan.summary ++ line "- Plan rationale: " plan.rationale)
    ++ lines_of (last? state.validation_results) validation_lines
    ++ diff_lines state.code_diffs
    ++ lines_of (find_latest_approved_record state) (λ entry.
      line "- Approval stage: " (approval_stage_text entry.stage)
      ++ line_with "- Approved by: " entry.reviewer
      ++ line_with "- Approval comments: " entry.comments)
    ++ lines_of state.complex_remediation_plan (λ plan.
      line "- Complex migration tactic: " (complex_migration_tactic_text plan.migration_tactic)
      ++ target_lines plan.target_files
      ++ question_lines plan.open_questions)

newline : String
newline = "\n"

unfoldable pub build_pull_request_body : RemediationState → String
unfolding newline
build_pull_request_body state = join newline (build_delivery_summary_lines state)

unfoldable pub build_jira_completion_comment : RemediationState → String → String
unfolding newline
build_jira_completion_comment state pull_request_url =
    join newline (build_delivery_summary_lines state ++ line "- Pull request: " pull_request_url)
