-- ===== src/Nodes/Verification.antt =====
-- nodes/verification.py: the current repository, its verification, and the choice of a lane.
-- Maven detection and the two verification adapters are parameters.
use execution_accelerator.Prelude.{
  String, Bool, true, false, Option, none, some, List, [], ◌∷◌, ◌++◌, map, length, concat, lookup,
  text_eq, ok, raised, ◌>>=◌, if◌then◌else◌,
}
use execution_accelerator.Schemas.{
  AdvisoryVerification, CompatibilityRisk, compatibility_risk_text, MavenDependencyKind,
  maven_dependency_kind_text, MavenExecutionPlan, MavenVerification, RemediationRouteDecision,
  RemediationStrategy, remediation_strategy_text, VerificationStatus, verification_status_text,
  VulnerabilityDetails, WorkflowStatus, flag, number, string, strings,
}
use execution_accelerator.State.{
  RemediationState, RepositoryWorkspace, Step, audit_event, require_state_field, uncaught,
}

-- `xs[0]`
abbrev first_pending : List String → Step String
first_pending [] = raised (uncaught "IndexError")
first_pending (repo ∷ repos) = ok repo

-- `state.current_working_repo or state.pending_repos[0]`
abbrev pub current_or_first : RemediationState → Step String
current_or_first state = elim state.current_working_repo [
  | none ↦ first_pending state.pending_repos
  | some repository ↦
      if text_eq repository "" then first_pending state.pending_repos else ok repository
]

abbrev found_workspace : Option RepositoryWorkspace → Step RepositoryWorkspace
found_workspace none = raised (uncaught "KeyError")
found_workspace (some workspace) = ok workspace

-- `state.repo_map[repository]`
abbrev pub workspace_of : RemediationState → String → Step RepositoryWorkspace
workspace_of state repository = found_workspace (lookup repository state.repo_map)

unfoldable pub detect_maven_profile :
    (RepositoryWorkspace → Step MavenExecutionPlan) → RemediationState → Step RemediationState
detect_maven_profile detect state = do
  repository ← current_or_first state
  workspace ← workspace_of state repository
  plan ← detect workspace
  ok (record state {
    current_working_repo = some repository;
    maven_plan = some plan;
    audit_events =
        state.audit_events
        ++ (audit_event "verification.maven_profile"
              (concat ("Detected Maven execution settings for " ∷ repository ∷ "." ∷ []))
              (("repository", string repository)
                ∷ ("command", strings plan.command)
                ∷ ("uses_wrapper", flag plan.uses_wrapper)
                ∷ ("module_count", number (length plan.modules))
                ∷ ("profile_count", number (length plan.profiles))
                ∷ [])
            ∷ []);
  })

unfoldable pub verify_advisory :
    (VulnerabilityDetails → Step AdvisoryVerification) → RemediationState → Step RemediationState
verify_advisory load_verification state = do
  details ←
      require_state_field state.vulnerability_details "verify_advisory" "vulnerability_details"
        "Advisory verification requires vulnerability details from Jira intake." none
  advisory ← load_verification details
  ok (record state {
    advisory_verification = some advisory;
    audit_events =
        state.audit_events
        ++ (audit_event "verification.advisory"
              (concat
                ("Verified advisory remediation target for " ∷ state.initial_ticket_id ∷ "." ∷ []))
              (("ticket_id", string state.initial_ticket_id)
                ∷ ("package_name", string advisory.package_name)
                ∷ ("target_version", string advisory.recommended_fix_version)
                ∷ ("status", string (verification_status_text advisory.status))
                ∷ [])
            ∷ []);
  })

-- The call of `MavenVerificationAdapter`: details, target version, workspace, plan.
abbrev pub MavenCheck : Type 0
MavenCheck =
    VulnerabilityDetails
    → String
    → RepositoryWorkspace
    → Option MavenExecutionPlan
    → Step MavenVerification

unfoldable pub verify_maven_target : MavenCheck → RemediationState → Step RemediationState
verify_maven_target load_verification state = do
  details ←
      require_state_field state.vulnerability_details "verify_maven_target" "vulnerability_details"
        "Maven verification requires vulnerability details from Jira intake."
        state.current_working_repo
  advisory ←
      require_state_field state.advisory_verification "verify_maven_target" "advisory_verification"
        "Maven verification requires a verified advisory target first." state.current_working_repo
  repository ←
      require_state_field state.current_working_repo "verify_maven_target" "current_working_repo"
        "Maven verification requires a selected working repository." none
  workspace ← workspace_of state repository
  maven ← load_verification details advisory.recommended_fix_version workspace state.maven_plan
  ok (record state {
    maven_verification = some maven;
    audit_events =
        state.audit_events
        ++ (audit_event "verification.maven"
              (concat
                ("Verified Maven remediation target for " ∷ state.initial_ticket_id ∷ "." ∷ []))
              (("ticket_id", string state.initial_ticket_id)
                ∷ ("target_version", string maven.target_version)
                ∷ ("dependency_kind", string (maven_dependency_kind_text maven.dependency_kind))
                ∷ ("compatibility_risk", string (compatibility_risk_text maven.compatibility_risk))
                ∷ [])
            ∷ []);
  })

abbrev pub is_verified : VerificationStatus → Bool
is_verified VerificationStatus.verified = true
is_verified _ = false

abbrev pub is_high : CompatibilityRisk → Bool
is_high CompatibilityRisk.high = true
is_high _ = false

abbrev pub is_transitive_kind : MavenDependencyKind → Bool
is_transitive_kind MavenDependencyKind.transitive = true
is_transitive_kind MavenDependencyKind.direct = false

-- The lanes of `_build_route_decision`, on verification results that are there. Confidences are
-- ten-thousandths.
unfoldable pub route_for : AdvisoryVerification → MavenVerification → RemediationRouteDecision
route_for advisory maven =
    if is_verified advisory.status
    then (if is_verified maven.status
        then (if is_high maven.compatibility_risk
            then record {
              strategy = RemediationStrategy.complex_refactor;
              reason =
                  "Verified target introduces high compatibility risk and needs the complex remediation lane.";
              confidence = 7800;
              requires_human_approval = true;
            }
            else if is_transitive_kind maven.dependency_kind
            then record {
              strategy = RemediationStrategy.transitive_override;
              reason =
                  "Verified target is transitive, so remediation should start with an override strategy.";
              confidence = 8800;
              requires_human_approval = false;
            }
            else record {
              strategy = RemediationStrategy.simple_update;
              reason =
                  "Verified target is direct, available, and low-risk, so the simple update lane is appropriate.";
              confidence = 9300;
              requires_human_approval = false;
            })
        else untrusted)
    else untrusted
  where
    untrusted : RemediationRouteDecision
    untrusted = record {
      strategy = RemediationStrategy.unknown;
      reason = "Verification did not produce a trusted remediation target.";
      confidence = 2000;
      requires_human_approval = true;
    }

unfoldable pub build_route_decision : RemediationState → Step RemediationRouteDecision
unfolding route_for
build_route_decision state = do
  advisory ←
      require_state_field state.advisory_verification "_build_route_decision"
        "advisory_verification" "Building a route decision requires advisory verification results."
        none
  maven ←
      require_state_field state.maven_verification "_build_route_decision" "maven_verification"
        "Building a route decision requires Maven verification results." none
  ok (route_for advisory maven)

-- `list(state.pending_repos or state.repo_map.keys())`
abbrev pub target_repositories : RemediationState → List String
target_repositories state = elim state.pending_repos [
  | [] ↦ map (λ entry. entry.0) state.repo_map
  | repo ∷ repos ↦ repo ∷ repos
]

abbrev route_state : RemediationState → RemediationRouteDecision → RemediationState
route_state state route = record state {
  workflow_status = WorkflowStatus.planning_ready;
  route_decision = some route;
  remediation_plan = some (record {
    strategy = route.strategy;
    summary = concat (
        "Route "
        ∷ state.initial_ticket_id
        ∷ " into the "
        ∷ remediation_strategy_text route.strategy
        ∷ " lane."
        ∷ []);
    rationale = route.reason;
    target_repositories = target_repositories state;
    requires_human_approval = route.requires_human_approval;
  });
  requires_human_approval = route.requires_human_approval;
  audit_events =
      state.audit_events
      ++ (audit_event "verification.route"
            (concat ("Selected remediation route for " ∷ state.initial_ticket_id ∷ "." ∷ []))
            (("ticket_id", string state.initial_ticket_id)
              ∷ ("strategy", string (remediation_strategy_text route.strategy))
              ∷ ("confidence", number route.confidence)
              ∷ ("requires_human_approval", flag route.requires_human_approval)
              ∷ [])
          ∷ []);
}

unfoldable pub select_route : RemediationState → Step RemediationState
unfolding build_route_decision
select_route state = do
  advisory ←
      require_state_field state.advisory_verification "select_route" "advisory_verification"
        "Route selection requires advisory verification to complete first." none
  maven ←
      require_state_field state.maven_verification "select_route" "maven_verification"
        "Route selection requires Maven verification to complete first." none
  route ← build_route_decision state
  ok (route_state state route)
