-- ===== src/Nodes/PomPlan.antt =====
-- nodes/remediation.py: the pom plans of the simple and the transitive lane, and their summaries.
use Prim.Native.Char.{code}
use execution_accelerator.Prelude.{
  String, Option, none, some, List, [], ◌∷◌, map, eqb, concat, or_text, raised, ok, ◌>>=◌,
  if◌then◌else◌,
}
use execution_accelerator.Schemas.{
  MavenVerification, PomMutationChange, PomMutationKind, PomMutationPlan, PomSectionTarget,
  RemediationStrategy, VulnerabilityDetails,
}
use execution_accelerator.State.{
  CodeDiffSummary, RemediationState, Step, require_state_field, uncaught,
}
use execution_accelerator.Nodes.Verification.{workspace_of}

-- `text.split(":", maxsplit=1)`, and `none` where there is no colon
unfoldable pub split_colon : String → Option (String × String)
split_colon String.[] = none
split_colon (String.◌∷◌ c s) =
    let rest : Option (String × String) = elim (split_colon s) [
      | none ↦ none
      | some (g, a) ↦ some (String.◌∷◌ c g, a)
    ] in
    if eqb (code c) b':' then some ("", s) else rest

-- Without a colon the second part of the split raises.
abbrev coordinates : Option (String × String) → Step (String × String)
coordinates none = raised (uncaught "IndexError")
coordinates (some parts) = ok parts

abbrev change_for :
    PomMutationKind
    → PomSectionTarget
    → String
    → String
    → String × String
    → VulnerabilityDetails
    → MavenVerification
    → PomMutationChange
change_for kind section hint file_path parts details maven = record {
  file_path = file_path;
  dependency = record { group_id = parts.0; artifact_id = parts.1; version = maven.target_version };
  mutation_kind = kind;
  target_section = section;
  previous_version = details.installed_version;
  target_version = maven.target_version;
  xml_path_hint = hint;
}

-- A plan has one change, which is kept beside it.
abbrev pub PlannedChange : Type 0
PlannedChange = PomMutationChange × PomMutationPlan

unfoldable pub build_simple_plan : RemediationState → String → Step PlannedChange
unfolding split_colon
build_simple_plan state repository = do
  details ←
      require_state_field state.vulnerability_details "_build_simple_plan" "vulnerability_details"
        "Simple remediation planning requires vulnerability details from Jira intake."
        (some repository)
  maven ←
      require_state_field state.maven_verification "_build_simple_plan" "maven_verification"
        "Simple remediation planning requires Maven verification results." (some repository)
  workspace ← workspace_of state repository
  parts ← coordinates (split_colon details.package_name)
  let change =
      change_for PomMutationKind.direct_version_bump PomSectionTarget.project_dependencies
        "./dependencies/dependency/version" (or_text workspace.manifest_path "pom.xml") parts
        details maven
  ok (
    change,
    record {
      repository = repository;
      strategy = RemediationStrategy.simple_update;
      summary = concat ("Bump " ∷ details.package_name ∷ " to " ∷ maven.target_version ∷ "." ∷ []);
      changes = change ∷ [];
    },
  )

unfoldable pub build_transitive_plan : RemediationState → String → Step PlannedChange
unfolding split_colon
build_transitive_plan state repository = do
  details ←
      require_state_field state.vulnerability_details "_build_transitive_plan"
        "vulnerability_details"
        "Transitive remediation planning requires vulnerability details from Jira intake."
        (some repository)
  maven ←
      require_state_field state.maven_verification "_build_transitive_plan" "maven_verification"
        "Transitive remediation planning requires Maven verification results." (some repository)
  workspace ← workspace_of state repository
  parts ← coordinates (split_colon details.package_name)
  let change =
      change_for PomMutationKind.dependency_management_override
        PomSectionTarget.dependency_management
        "./dependencyManagement/dependencies/dependency/version"
        (or_text workspace.manifest_path "pom.xml") parts details maven
  ok (
    change,
    record {
      repository = repository;
      strategy = RemediationStrategy.transitive_override;
      summary = concat (
          "Add a dependencyManagement override for " ∷ details.package_name ∷ " at "
          ∷ maven.target_version ∷ "." ∷ []);
      changes = change ∷ [];
    },
  )

unfoldable pub build_change_summary : PomMutationChange → String
build_change_summary change = elim change.target_section [
  | PomSectionTarget.dependency_management ↦ concat (
      "Added dependencyManagement override for " ∷ change.dependency.group_id ∷ ":"
      ∷ change.dependency.artifact_id ∷ " at " ∷ change.target_version ∷ "." ∷ [])
  | PomSectionTarget.project_dependencies ↦ concat (
      "Updated " ∷ change.dependency.group_id ∷ ":" ∷ change.dependency.artifact_id ∷ " from "
      ∷ change.previous_version ∷ " to " ∷ change.target_version ∷ "." ∷ [])
]

abbrev change_diff : PomMutationChange → CodeDiffSummary
change_diff change = record {
  file_path = change.file_path;
  change_summary = build_change_summary change;
  additions = 1;
  deletions = 1;
}

unfoldable pub build_diff_summary : PomMutationPlan → List CodeDiffSummary
unfolding build_change_summary
build_diff_summary plan = map change_diff plan.changes
