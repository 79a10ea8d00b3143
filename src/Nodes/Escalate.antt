-- ===== src/Nodes/Escalate.antt =====
-- nodes/escalate.py: the bundle of a failed run. The file that is written, with the list of log
-- files, is a parameter: it answers with its path and that list.
use execution_accelerator.Prelude.{
  String, Option, none, some, List, [], ◌∷◌, ◌++◌, map, last?, length, concat, ok, ◌>>=◌,
}
use execution_accelerator.Schemas.{
  EscalationBundle, FailureClassification, failure_classification_text, ValidationCheck,
  WorkflowStatus, number, string,
}
use execution_accelerator.State.{RemediationState, Step, audit_event}
use execution_accelerator.Nodes.Summary.{
  find_latest_approved_record, select_primary_validation_check,
}

-- `f(x) if x is not None else None`
abbrev of_some : {A B : Type 0} → (A → B) → Option A → Option B
of_some f none = none
of_some f (some a) = some (f a)

abbrev flat : {A : Type 0} → Option (Option A) → Option A
flat none = none
flat (some o) = o

abbrev listed : {A : Type 0} → Option (List A) → List A
listed none = []
listed (some l) = l

-- `state.failure_classifications[-1] if … else FailureClassification.UNKNOWN`
abbrev pub latest_classification : RemediationState → FailureClassification
latest_classification state = elim (last? state.failure_classifications) [
  | none ↦ FailureClassification.unknown
  | some classification ↦ classification
]

abbrev primary_check : RemediationState → Option ValidationCheck
primary_check state =
    flat (of_some select_primary_validation_check (last? state.validation_results))

-- `_write_escalation_bundle`, apart from the file
pub escalation_bundle_of : RemediationState → String → List String → EscalationBundle
escalation_bundle_of state bundle_path log_files =
    let approved = find_latest_approved_record state in
    let validation = last? state.validation_results in
    let check = primary_check state in
    let plan = state.complex_remediation_plan in
    record {
      bundle_path = bundle_path;
      failure_classification = latest_classification state;
      failed_repository = state.current_working_repo;
      error_codes = map (λ error. error.code) state.errors;
      pending_repos = state.pending_repos;
      completed_repos = state.completed_repos;
      skipped_repos =
          map (λ repo. ("name", repo.name) ∷ ("reason", repo.reason) ∷ []) state.skipped_repos;
      route_strategy = of_some (λ route. route.strategy) state.route_decision;
      route_reason = of_some (λ route. route.reason) state.route_decision;
      approval_stage = of_some (λ entry. entry.stage) approved;
      approval_reviewer = flat (of_some (λ entry. entry.reviewer) approved);
      approval_comments = flat (of_some (λ entry. entry.comments) approved);
      validation_status = of_some (λ result. result.status) validation;
      validation_summary = flat (of_some (λ result. result.summary) validation);
      primary_validation_check = of_some (λ c. c.name) check;
      primary_validation_check_status = of_some (λ c. c.status) check;
      primary_validation_check_details = flat (of_some (λ c. c.details) check);
      branch_publication = state.branch_publication;
      pull_request_summary = state.pull_request_summary;
      jira_completion = state.jira_completion;
      modified_files = state.modified_files;
      code_diff_summaries = map (λ diff. diff.change_summary) state.code_diffs;
      complex_migration_tactic = of_some (λ p. p.migration_tactic) plan;
      complex_target_files =
          listed (of_some (λ p. map (λ target. target.file_path) p.target_files) plan);
      complex_open_questions = listed (of_some (λ p. p.open_questions) plan);
      log_files = log_files;
      audit_event_count = length state.audit_events;
    }

-- Writes the bundle of a state.
abbrev pub BundleWriter : Type 0
BundleWriter = RemediationState → Step (String × List String)

-- `build_escalate_node(runtime_config)`
unfoldable pub escalate : BundleWriter → RemediationState → Step RemediationState
unfolding escalation_bundle_of
escalate write state = do
  written ← write state
  ok (record state {
    workflow_status = WorkflowStatus.failed;
    escalation_bundle = some (escalation_bundle_of state written.0 written.1);
    audit_events =
        state.audit_events
        ++ (audit_event "failure.escalate"
              (concat ("Escalated remediation failure for " ∷ state.initial_ticket_id ∷ "." ∷ []))
              ((
                "classification",
                string (failure_classification_text (latest_classification state)),
              )
                ∷ ("total_attempts", number state.total_attempts)
                ∷ ("bundle_path", string written.0)
                ∷ [])
            ∷ []);
  })
