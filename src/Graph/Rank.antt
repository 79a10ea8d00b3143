-- ===== src/Graph/Rank.antt =====
-- The order in which the nodes of one attempt follow each other.
use execution_accelerator.Prelude.{
  ℕ, ◌<◌, ◌≡◌, ◌≢◌, ◌⊎◌, Bool, true, false, Option, none, some, [], ok, leb, arith,
}
use execution_accelerator.State.{RemediationState}
use execution_accelerator.Graph.Edges.{
  Node, bootstrap_state, probe_credentials, ingest_and_parse_jira, load_repository_context,
  check_repository_idempotency, detect_maven_profile, verify_advisory, verify_maven_target,
  select_route, apply_policy, review_remediation_approval, prepare_complex_remediation,
  execute_complex_scaffold, remediate_simple, remediate_transitive, preflight_validate,
  validate_remediation, handle_validation_failure, prepare_delivery_approval,
  review_delivery_approval, publish_remediation, skip_publish_for_dry_run, classify_failure,
  escalate, next_node,
}

abbrev pub rank : Node → ℕ
rank detect_maven_profile = 15
rank verify_advisory = 14
rank verify_maven_target = 13
rank select_route = 12
rank apply_policy = 11
rank review_remediation_approval = 10
rank prepare_complex_remediation = 9
rank execute_complex_scaffold = 8
rank remediate_simple = 8
rank remediate_transitive = 8
rank preflight_validate = 7
rank validate_remediation = 6
rank handle_validation_failure = 5
rank prepare_delivery_approval = 5
rank review_delivery_approval = 4
rank publish_remediation = 3
rank skip_publish_for_dry_run = 3
rank classify_failure = 2
rank escalate = 1
rank _ = 0

-- The nodes behind the intake.
abbrev pub in_attempt : Node → Bool
in_attempt node = leb 1 (rank node)

abbrev pub at_attempt : Option Node → Bool
at_attempt none = true
at_attempt (some node) = in_attempt node

abbrev pub rank_at : Option Node → ℕ
rank_at none = 0
rank_at (some node) = rank node

-- The nodes that follow each other downwards within an attempt.
abbrev pub descends : Node → Bool
descends bootstrap_state = false
descends probe_credentials = false
descends ingest_and_parse_jira = false
descends load_repository_context = false
descends check_repository_idempotency = false
descends publish_remediation = false
descends skip_publish_for_dry_run = false
descends classify_failure = false
descends _ = true

-- An edge out of such a node leads downwards.
pub next_node-descends :
    (dry_run : Bool) (node : Node) (s : RemediationState) (target : Option Node)
    → descends node ≡ true
    → next_node dry_run node s ≡ ok target
    → rank_at target < rank node
unfolding next_node
next_node-descends dry_run bootstrap_state s target d h = cc
next_node-descends dry_run _ s target d h = ground arith

-- Behind a publication: a failure to classify, or the next repository, or the end.
pub next_node-published :
    (s : RemediationState) (target : Option Node)
    → next_node false publish_remediation s ≡ ok target
    → (target ≡ some classify_failure)
      ⊎ (target ≡ none)
      ⊎ ((target ≡ some detect_maven_profile) × (s.pending_repos ≢ []))
unfolding next_node
next_node-published s target h = ground arith
