-- ===== src/Graph/GuardDelivery.antt =====
-- The nodes of validation, delivery and failure keep the guard of the publication.
use execution_accelerator.Prelude.{
  String, ◌≡◌, refl, ◌∙◌, ◌⊎◌, inl, inr, Bool, true, false, Option, some, List, [], ◌∷◌,
  last?-append, ok, bind_ok, starts_with, arith,
}
use execution_accelerator.Schemas.{
  BranchPublicationResult, JiraCompletionResult, PullRequestSummary, ValidationCheck,
}
use execution_accelerator.State.{RemediationState}
use execution_accelerator.Nodes.Approval
use execution_accelerator.Nodes.Validation
use execution_accelerator.Nodes.Validation.{
  ValidationAdapter, error_code_of, build_validation_error_code,
}
use execution_accelerator.Nodes.Continuation.{completed_with, pending_without, repo_continuation}
use execution_accelerator.Nodes.Delivery
use execution_accelerator.Nodes.Delivery.{
  has_delivery_approval, skip_repository, finish_repository, delivery_failure_update,
}
use execution_accelerator.Nodes.Published.{Publication, failed, finished}
use execution_accelerator.Nodes.Retry
use execution_accelerator.Nodes.Retry.{
  RetryLimits, is_delivery_error, retry_lane, retry_target, select_retry_node,
}
use execution_accelerator.Graph.Edges.{
  Node, publish_remediation, prepare_delivery_approval, review_delivery_approval, classify_failure,
  validate_remediation, handle_validation_failure, skip_publish_for_dry_run, next_node,
  failure_target, select_post_validation_node, select_post_delivery_node,
}
use execution_accelerator.Graph.Attempt.{failed_publication, publish_edge}
use execution_accelerator.Graph.Descent.{decided_edge}
use execution_accelerator.Graph.Finish.{finish_repository-errors}
use execution_accelerator.Graph.Guard.{
  awaits_delivery, delivery_failed, guarded, is_plain, plain-guarded, ready,
}

-- A validation changes nothing of what waits.
pub validate-awaits :
    (a : ValidationAdapter) (s s' : RemediationState)
    → Validation.validate_remediation a s ≡ ok s'
    → awaits_delivery s' ≡ awaits_delivery s
unfolding Validation.validate_remediation
validate-awaits a s s' h = ground arith

pub validation_edge-guarded :
    (dry_run : Bool) (s : RemediationState) (target : Option Node)
    → awaits_delivery s ≡ false
    → next_node dry_run validate_remediation s ≡ ok target
    → guarded target s ≡ true
unfolding next_node select_post_validation_node guarded ready
validation_edge-guarded dry_run s target quiet h = ground arith

pub validate-guarded :
    (a : ValidationAdapter) (dry_run : Bool) (s s' : RemediationState) (target : Option Node)
    → guarded (some validate_remediation) s ≡ true
    → Validation.validate_remediation a s ≡ ok s'
    → next_node dry_run validate_remediation s' ≡ ok target
    → guarded target s' ≡ true
unfolding guarded
validate-guarded a dry_run s s' target g h edge =
    validation_edge-guarded dry_run s' target (validate-awaits a s s' h ∙ ground (arith, g)) edge

-- The codes of a validation error.
abbrev ValidationCode : String → Type 0
ValidationCode code =
    (code ≡ "validation_failed")
    ⊎ (code ≡ "validation_transient_failed")
    ⊎ (code ≡ "validation_compile_failed")
    ⊎ (code ≡ "validation_test_failed")
    ⊎ (code ≡ "validation_security_failed")
    ⊎ (code ≡ "validation_license_failed")

error_code_of-ValidationCode :
    (checks : List ValidationCheck) → ValidationCode (error_code_of checks)
unfolding error_code_of
error_code_of-ValidationCode [] = inl refl
error_code_of-ValidationCode (check ∷ checks) = ground (arith, error_code_of-ValidationCode checks)

-- None of them is the code of a delivery error.
ValidationCode-starts_with :
    (code : String) → ValidationCode code → starts_with code "delivery_" ≡ false
ValidationCode-starts_with code (inl h) = rw h refl
ValidationCode-starts_with code (inr (inl h)) = rw h refl
ValidationCode-starts_with code (inr (inr (inl h))) = rw h refl
ValidationCode-starts_with code (inr (inr (inr (inl h)))) = rw h refl
ValidationCode-starts_with code (inr (inr (inr (inr (inl h))))) = rw h refl
ValidationCode-starts_with code (inr (inr (inr (inr (inr h))))) = rw h refl

validation_code :
    (checks : List ValidationCheck) → starts_with (error_code_of checks) "delivery_" ≡ false
validation_code checks =
    ValidationCode-starts_with (error_code_of checks) (error_code_of-ValidationCode checks)

pub handle-after :
    (a : ValidationAdapter) (s s' : RemediationState)
    → Validation.handle_validation_failure a s ≡ ok s'
    → (awaits_delivery s' ≡ awaits_delivery s) × (delivery_failed s' ≡ false)
unfolding Validation.handle_validation_failure build_validation_error_code
handle-after a s s' h = grind (arith, validation_code, last?-append)

pub handle-guarded :
    (a : ValidationAdapter) (s s' : RemediationState)
    → guarded (some handle_validation_failure) s ≡ true
    → Validation.handle_validation_failure a s ≡ ok s'
    → guarded (some classify_failure) s' ≡ true
unfolding guarded
handle-guarded a s s' g h = ground (arith, handle-after a s s' h, g)

pub prepare_delivery-guarded :
    (s : RemediationState)
    → guarded (some prepare_delivery_approval) s ≡ true
    → guarded (some review_delivery_approval) (Approval.prepare_delivery_approval s) ≡ true
unfolding guarded Approval.prepare_delivery_approval
prepare_delivery-guarded s g = ground (arith, g)

-- A continuation awaits no approval.
continuation-awaits :
    (t : RemediationState) (pending completed : List String)
    → awaits_delivery (repo_continuation t pending completed) ≡ false
unfolding repo_continuation
continuation-awaits t [] completed = refl
continuation-awaits t (next ∷ pending) completed = refl

finish-awaits :
    (s : RemediationState) (repository : String) (branch : BranchPublicationResult)
    (pull_request : PullRequestSummary) (jira : JiraCompletionResult)
    → awaits_delivery (finish_repository s repository branch pull_request jira) ≡ false
unfolding finish_repository
finish-awaits s repository branch pull_request jira =
    continuation-awaits _ (pending_without s repository) (completed_with s repository)

pub skip-awaits :
    (dry_run : Bool) (s : RemediationState) (repository : String)
    → awaits_delivery (skip_repository dry_run s repository) ≡ false
unfolding skip_repository
skip-awaits dry_run s repository =
    continuation-awaits s (pending_without s repository) (completed_with s repository)

continuation-plain :
    (dry_run : Bool) (s : RemediationState) (target : Option Node)
    → s.errors ≡ []
    → next_node dry_run publish_remediation s ≡ ok target
    → is_plain target ≡ true
unfolding next_node select_post_delivery_node
continuation-plain dry_run s target none_left h = ground (arith, none_left, h)

pub skip-plain :
    (dry_run : Bool) (s : RemediationState) (target : Option Node)
    → next_node dry_run skip_publish_for_dry_run s ≡ ok target
    → is_plain target ≡ true
unfolding next_node select_post_delivery_node
skip-plain dry_run s target h = ground arith

-- A failed publication leaves what made it ready.
failure-ready :
    (s : RemediationState) (error : Delivery.DeliveryError) (p : Delivery.Published)
    → guarded (some publish_remediation) s ≡ true
    → guarded (some classify_failure) (delivery_failure_update s error p) ≡ true
unfolding guarded delivery_failure_update ready has_delivery_approval
failure-ready s error p g = ground (arith, g)

pub Publication-guarded :
    (dry_run : Bool) (s s' : RemediationState) (target : Option Node)
    → guarded (some publish_remediation) s ≡ true
    → Publication s s'
    → next_node dry_run publish_remediation s' ≡ ok target
    → guarded target s' ≡ true
Publication-guarded dry_run s s' target g (failed repository error p current e) h =
    let named : target ≡ some classify_failure =
      grind (arith, failed_publication s error p, publish_edge dry_run s') in
    rw (named, e) (failure-ready s error p g)
Publication-guarded dry_run s s' target g (finished repository branch pull_request jira current e)
      h =
    plain-guarded target s'
      (continuation-plain dry_run s' target
        (rw e (finish_repository-errors s repository branch pull_request jira)) h)
      (rw e (finish-awaits s repository branch pull_request jira))

pub skip-guarded :
    (dry_run : Bool) (s s' : RemediationState) (target : Option Node)
    → Delivery.skip_publish_for_dry_run dry_run s ≡ ok s'
    → next_node dry_run skip_publish_for_dry_run s' ≡ ok target
    → guarded target s' ≡ true
unfolding Delivery.skip_publish_for_dry_run
skip-guarded dry_run s s' target h edge =
    let (repository, found, done) = bind_ok (Delivery.skipped_repository s) _ h in
    plain-guarded target s' (skip-plain dry_run s' target edge)
      (ground (arith, skip-awaits dry_run s repository, done))

-- What a retry may name.
retry_target-cases :
    (limits : RetryLimits) (s : RemediationState)
    → ((retry_target limits s ≡ "publish_remediation") × (delivery_failed s ≡ true))
      ⊎ (retry_target limits s ≡ "escalate")
      ⊎ (retry_target limits s ≡ "execute_complex_scaffold")
      ⊎ (retry_target limits s ≡ "remediate_simple")
      ⊎ (retry_target limits s ≡ "remediate_transitive")
unfolding retry_target select_retry_node
retry_target-cases limits s = ground arith

-- A retry publishes again only after a failed delivery.
pub retry_target-publishes :
    (limits : RetryLimits) (s : RemediationState) (target : Option Node)
    → failure_target (retry_target limits s) ≡ ok target
    → (is_plain target ≡ true) ⊎ ((target ≡ some publish_remediation) × (delivery_failed s ≡ true))
retry_target-publishes limits s target h = elim (retry_target-cases limits s) [
  | inl (e, was) ↦ ground (arith, was, rw e at h)
  | inr (inl e) ↦ ground (arith, rw e at h)
  | inr (inr (inl e)) ↦ ground (arith, rw e at h)
  | inr (inr (inr (inl e))) ↦ ground (arith, rw e at h)
  | inr (inr (inr (inr e))) ↦ ground (arith, rw e at h)
]

pub classified_state :
    (limits : RetryLimits) (s : RemediationState)
    → (awaits_delivery (Retry.classify_failure limits s) ≡ awaits_delivery s)
      × (ready (Retry.classify_failure limits s) ≡ ready s)
unfolding Retry.classify_failure ready has_delivery_approval
classified_state limits s = (refl, refl)

pub classify-guarded :
    (dry_run : Bool) (limits : RetryLimits) (s : RemediationState) (target : Option Node)
    → guarded (some classify_failure) s ≡ true
    → next_node dry_run classify_failure (Retry.classify_failure limits s) ≡ ok target
    → guarded target (Retry.classify_failure limits s) ≡ true
unfolding guarded
classify-guarded dry_run limits s target g edge =
    let s' = Retry.classify_failure limits s in
    ground (
      arith,
      classified_state limits s,
      plain-guarded target s',
      retry_target-publishes limits s target (decided_edge dry_run limits s target edge),
      g,
    )
