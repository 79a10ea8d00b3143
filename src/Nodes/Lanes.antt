-- ===== src/Nodes/Lanes.antt =====
-- nodes/verification.py: which lane the two verifications lead to.
use execution_accelerator.Prelude.{◌≡◌, ◌≢◌, ◌↔◌, false, arith, if◌then◌else◌}
use execution_accelerator.Schemas.{
  AdvisoryVerification, CompatibilityRisk, MavenVerification, RemediationStrategy,
  VerificationStatus,
}
use execution_accelerator.Nodes.Verification.{is_transitive_kind, route_for}

-- The route that is chosen wants no approval by itself exactly if both targets are verified, the risk
-- is not high, and its lane is the override one for a transitive dependency and the simple one for a
-- direct dependency. Whether the lane waits for an approval is then the policy's choice.
pub route_for-unreviewed :
    (advisory : AdvisoryVerification) (maven : MavenVerification)
    → ((route_for advisory maven).requires_human_approval ≡ false) ↔ (
        (advisory.status ≡ VerificationStatus.verified)
        × (maven.status ≡ VerificationStatus.verified)
        × (maven.compatibility_risk ≢ CompatibilityRisk.high)
        × ((route_for advisory maven).strategy ≡ (
            if is_transitive_kind maven.dependency_kind
            then RemediationStrategy.transitive_override
            else RemediationStrategy.simple_update)))
unfolding route_for
route_for-unreviewed advisory maven = (λ h. ground arith, λ h. ground (arith, h))

-- The code rewriting lane is chosen exactly for verified targets of high risk.
pub route_for-complex :
    (advisory : AdvisoryVerification) (maven : MavenVerification)
    → ((route_for advisory maven).strategy ≡ RemediationStrategy.complex_refactor) ↔ (
        (advisory.status ≡ VerificationStatus.verified)
        × (maven.status ≡ VerificationStatus.verified)
        × (maven.compatibility_risk ≡ CompatibilityRisk.high))
unfolding route_for
route_for-complex advisory maven = (λ h. ground arith, λ h. ground (arith, h))
