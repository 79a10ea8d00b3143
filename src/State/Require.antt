-- ===== src/State/Require.antt =====
-- Required state, and what a violated requirement does to a run: `StateInvariantViolation`,
-- `require_state_field`, `require_state_condition`, `build_state_invariant_update` and
-- `human_approval_decision` of state.py.
use execution_accelerator.Prelude.{
  String, Bool, true, false, Option, none, some, List, [], ◌∷◌, ◌++◌, Outcome, ok, raised, concat,
}
use execution_accelerator.Schemas.{
  AuditEvent, Detail, WorkflowStatus, ApprovalDecision, HumanFeedback, string, missing,
}
use execution_accelerator.State.Parts.{WorkflowError}
use execution_accelerator.State.Record.{RemediationState}

pub record StateInvariantViolation : Type 0 where
  pub source : String
  pub field_name : String
  pub workflow_error : WorkflowError

-- What ends a node: a violated requirement, or an exception of another class.
pub data Failure : Type 0 where
  violation : StateInvariantViolation → Failure
  uncaught : String → Failure

abbrev pub Step : Type 0 → Type 0
Step A = Outcome Failure A

abbrev pub invariant_violation : String → String → String → Option String → StateInvariantViolation
invariant_violation source field_name message repository = record {
  source = source;
  field_name = field_name;
  workflow_error = record {
    code = "state_invariant_violated";
    message = message;
    recoverable = false;
    repository = repository;
  };
}

abbrev pub require_state_field :
    {A : Type 0} → Option A → String → String → String → Option String → Step A
require_state_field (some value) source field_name message repository = ok value
require_state_field none source field_name message repository =
    raised (violation (invariant_violation source field_name message repository))

abbrev pub require_state_condition :
    Bool → String → String → String → Option String → Step (Unit {0})
require_state_condition true source field_name message repository = ok tt
require_state_condition false source field_name message repository =
    raised (violation (invariant_violation source field_name message repository))

-- An optional text in the details of an event.
abbrev pub optional_text : Option String → Detail
optional_text none = missing
optional_text (some t) = string t

abbrev pub audit_event : String → String → List (String × Detail) → AuditEvent
audit_event event_type message details = record {
  event_type = event_type;
  message = message;
  details = details;
}

-- `human_approval_decision`: pending until there is feedback.
abbrev decision_of : Option HumanFeedback → ApprovalDecision
decision_of none = ApprovalDecision.pending
decision_of (some feedback) = feedback.decision

abbrev pub human_approval_decision : RemediationState → ApprovalDecision
human_approval_decision state = decision_of state.human_feedback

unfoldable pub build_state_invariant_update :
    RemediationState → StateInvariantViolation → RemediationState
build_state_invariant_update state v = record state {
  errors = state.errors ++ (v.workflow_error ∷ []);
  audit_events =
      state.audit_events
      ++ (audit_event "state.invariant"
            (concat ("State invariant violated in " ∷ v.source ∷ "." ∷ []))
            (("source", string v.source)
              ∷ ("field_name", string v.field_name)
              ∷ ("error_code", string v.workflow_error.code)
              ∷ ("repository", optional_text v.workflow_error.repository)
              ∷ [])
          ∷ []);
  retry_decision = none;
  workflow_status = WorkflowStatus.failed;
}
