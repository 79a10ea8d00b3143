-- ===== src/Policy.antt =====
-- src/execution_accelerator/policy/engine.py: whether a remediation may run, and who must approve.
-- The file `config/policy.yaml` is read by a library; what it holds is a parameter.
pub mod Decisions
use execution_accelerator.Prelude.{
  ℕ, ◌≡◌, refl, String, Bool, true, false, not, ◌&&◌, ◌||◌, Option, none, some, List, [], ◌∷◌, ◌++◌,
  get_elem?, keep, one_of, distinct, sort_texts, join, concat, lookup, text_eq, if◌then◌else◌,
}
use execution_accelerator.Schemas.{
  PolicyDecision, RemediationRouteDecision, RemediationStrategy, RemediationTarget,
}
use execution_accelerator.State.{RemediationState, RepositoryWorkspace}

pub record PolicyConfig : Type 0 where
  pub draft_pr_only : Bool
  pub complex_refactor_requires_human_approval : Bool
  pub complex_refactor_requires_delivery_approval : Bool
  pub transitive_override_requires_human_approval : Bool
  pub approval_required_tags : List String
  pub blocked_tags : List String

-- The configuration where there is no file.
abbrev pub default_config : PolicyConfig
default_config = record {
  draft_pr_only = true;
  complex_refactor_requires_human_approval = true;
  complex_refactor_requires_delivery_approval = false;
  transitive_override_requires_human_approval = false;
  approval_required_tags = [];
  blocked_tags = [];
}

-- The workspace of the current repository, if it has a name and is known.
abbrev current_workspace : RemediationState → Option RepositoryWorkspace
current_workspace state = elim state.current_working_repo [
  | none ↦ none
  | some repository ↦ if text_eq repository "" then none else lookup repository state.repo_map
]

abbrev tags_of : Option RepositoryWorkspace → Option RemediationTarget → List String
tags_of (some workspace) target = distinct workspace.tags
tags_of none (some target) = distinct target.tags
tags_of none none = []

-- `_current_target_tags`, a set in some order
unfoldable pub current_target_tags : RemediationState → List String
current_target_tags state =
    tags_of (current_workspace state) (get_elem? state.targets state.current_target_index)

abbrev pub is_complex : Option RemediationRouteDecision → Bool
is_complex none = false
is_complex (some route) = elim route.strategy [
  | RemediationStrategy.complex_refactor ↦ true
  | _ ↦ false
]

abbrev pub is_transitive : Option RemediationRouteDecision → Bool
is_transitive none = false
is_transitive (some route) = elim route.strategy [
  | RemediationStrategy.transitive_override ↦ true
  | _ ↦ false
]

-- `_requires_delivery_approval`
unfoldable pub requires_delivery_approval : RemediationState → PolicyConfig → Bool
requires_delivery_approval state config =
    is_complex state.route_decision && config.complex_refactor_requires_delivery_approval

abbrev reason_if : Bool → String → List String
reason_if true reason = reason ∷ []
reason_if false reason = []

abbrev route_reason : Option RemediationRouteDecision → List String
route_reason none = []
route_reason (some route) =
    reason_if route.requires_human_approval
      (concat ("Route requires approval: " ∷ route.reason ∷ []))

abbrev pub tagged : List String → List String → List String
tagged target_tags tags = sort_texts (keep (λ tag. one_of tag tags) target_tags)

abbrev tag_reason : List String → List String
tag_reason [] = []
tag_reason (tag ∷ tags) =
    concat ("Repository tags require approval: " ∷ join ", " (tag ∷ tags) ∷ []) ∷ []

-- `_collect_approval_reasons`
unfoldable pub collect_approval_reasons :
    RemediationState → PolicyConfig → List String → List String
collect_approval_reasons state config target_tags =
    route_reason state.route_decision
    ++ (reason_if
          (is_complex state.route_decision && config.complex_refactor_requires_human_approval)
          "Policy requires approval for complex_refactor remediation."
        ++ (reason_if
              (is_transitive state.route_decision
                && config.transitive_override_requires_human_approval)
              "Policy requires approval for transitive_override remediation."
            ++ tag_reason (tagged target_tags config.approval_required_tags)))

abbrev pub is_empty : List String → Bool
is_empty [] = true
is_empty (s ∷ ss) = false

-- `text or None`
abbrev some_text : String → Option String
some_text t = if text_eq t "" then none else some t

abbrev pub decide : List String → RemediationState → PolicyConfig → List String → PolicyDecision
decide (tag ∷ tags) state config reasons = record {
  allowed = false;
  requires_human_approval = true;
  requires_delivery_approval = false;
  approval_reason = none;
  blocked_reason =
      some
        (concat ("Policy blocked remediation for repository tags: " ∷ join ", " (tag ∷ tags) ∷ []));
}
decide [] state config reasons = record {
  allowed = true;
  requires_human_approval = not (is_empty reasons) || state.requires_human_approval;
  requires_delivery_approval = requires_delivery_approval state config;
  approval_reason = some_text (join "; " (distinct reasons));
  blocked_reason = none;
}

-- `PolicyEngine.evaluate`
unfoldable pub evaluate : PolicyConfig → RemediationState → PolicyDecision
unfolding requires_delivery_approval
evaluate config state =
    let target_tags = current_target_tags state in
    decide (tagged target_tags config.blocked_tags) state config
      (collect_approval_reasons state config target_tags)
