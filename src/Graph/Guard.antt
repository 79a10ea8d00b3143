-- ===== src/Graph/Guard.antt =====
-- The condition under which each node of a thread stands, as far as it guards the publication.
use execution_accelerator.Prelude.{
  ◌≡◌, ap, Bool, true, false, not, ◌&&◌, ◌||◌, Option, none, some, last?, arith,
}
use execution_accelerator.Schemas.{RepositoryValidationResult}
use execution_accelerator.State.{RemediationState}
use execution_accelerator.Nodes.Classify.{is_failed}
use execution_accelerator.Nodes.Delivery.{has_delivery_approval}
use execution_accelerator.Nodes.Retry.{is_delivery_error}
use execution_accelerator.Graph.Edges.{
  Node, publish_remediation, prepare_delivery_approval, review_delivery_approval, classify_failure,
}
use execution_accelerator.Graph.Run.{is_delivery_stage}
use execution_accelerator.Graph.Untouched.{Untouched}

abbrev pub not_failed : Option RepositoryValidationResult → Bool
not_failed none = false
not_failed (some result) = not (is_failed result.status)

-- The latest validation is there and did not fail.
abbrev pub validated : RemediationState → Bool
validated s = not_failed (last? s.validation_results)

-- And the delivery is approved, where the policy wants that.
unfoldable pub ready : RemediationState → Bool
ready s = validated s && (not s.requires_delivery_approval || has_delivery_approval s)

abbrev pub awaits_delivery : RemediationState → Bool
awaits_delivery s = is_delivery_stage s.pending_approval_stage

abbrev pub delivery_failed : RemediationState → Bool
delivery_failed s = is_delivery_error (last? s.errors)

unfoldable pub guarded : Option Node → RemediationState → Bool
unfolding ready
guarded none s = not (awaits_delivery s) || validated s
guarded (some publish_remediation) s = ready s && not (awaits_delivery s)
guarded (some classify_failure) s = (not (delivery_failed s) || ready s) && not (awaits_delivery s)
guarded (some prepare_delivery_approval) s = validated s && not (awaits_delivery s)
guarded (some review_delivery_approval) s = validated s
guarded (some node) s = not (awaits_delivery s)

-- The nodes that may leave a thread before one of the four, or work on one of them.
abbrev pub is_plain : Option Node → Bool
is_plain none = true
is_plain (some publish_remediation) = false
is_plain (some classify_failure) = false
is_plain (some prepare_delivery_approval) = false
is_plain (some review_delivery_approval) = false
is_plain (some node) = true

pub plain-guarded :
    (target : Option Node) (s : RemediationState)
    → is_plain target ≡ true
    → awaits_delivery s ≡ false
    → guarded target s ≡ true
unfolding guarded
plain-guarded none s plain quiet = ground arith
plain-guarded (some _) s plain quiet = ground arith

pub Untouched-awaits_delivery :
    (s s' : RemediationState) → Untouched s s' → awaits_delivery s' ≡ awaits_delivery s
Untouched-awaits_delivery s s' u = ap is_delivery_stage u.stage
