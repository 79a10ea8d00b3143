-- ===== src/Tests/Decisions.antt =====
-- The policy and the choice of a lane at work.
use execution_accelerator.Prelude.{
  ◌≡◌, ◌≢◌, refl, ◌↔◌, false, some, [], ◌∷◌, sort_texts, distinct, remove, if◌then◌else◌,
}
use execution_accelerator.Schemas.{CompatibilityRisk, RemediationStrategy, VerificationStatus}
use execution_accelerator.State.{RemediationState}
use execution_accelerator.Policy.{
  collect_approval_reasons, current_target_tags, default_config, evaluate,
}
use execution_accelerator.Nodes.Lanes.{route_for-complex, route_for-unreviewed}
use execution_accelerator.Nodes.Verification.{is_transitive_kind, route_for}
use execution_accelerator.Graph.Run.{initial_state}
use execution_accelerator.Tests.Fixtures.{advisory, maven_check, simple_route, target}

abbrev routed : RemediationState
routed = record (initial_state "T-1") { targets = target ∷ []; route_decision = some simple_route }

routed_unreviewed : (evaluate default_config routed).requires_human_approval ≡ false
unfolding evaluate current_target_tags sort_texts distinct remove collect_approval_reasons
routed_unreviewed = refl

route_for-unreviewed_example :
    ((route_for advisory maven_check).requires_human_approval ≡ false) ↔ (
      (advisory.status ≡ VerificationStatus.verified)
      × (maven_check.status ≡ VerificationStatus.verified)
      × (maven_check.compatibility_risk ≢ CompatibilityRisk.high)
      × ((route_for advisory maven_check).strategy ≡ (
          if is_transitive_kind maven_check.dependency_kind
          then RemediationStrategy.transitive_override
          else RemediationStrategy.simple_update)))
route_for-unreviewed_example = route_for-unreviewed advisory maven_check

route_for-complex_example :
    ((route_for advisory maven_check).strategy ≡ RemediationStrategy.complex_refactor) ↔ (
      (advisory.status ≡ VerificationStatus.verified)
      × (maven_check.status ≡ VerificationStatus.verified)
      × (maven_check.compatibility_risk ≡ CompatibilityRisk.high))
route_for-complex_example = route_for-complex advisory maven_check
