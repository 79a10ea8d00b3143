-- ===== src/Nodes/Idempotency.antt =====
-- nodes/intake.py: repositories that have a pull request already are left out.
use execution_accelerator.Prelude.{
  String, ◌≡◌, refl, sym, ap, ◌∙◌, ◌≢◌, ◌⊎◌, inl, inr, Option, none, some, List, [], ◌∷◌, ◌++◌,
  concat, ok, bind_ok, arith,
}
use execution_accelerator.Schemas.{RemediationTarget, WorkflowStatus}
use execution_accelerator.State.{RemediationState, SkippedRepository}
use execution_accelerator.Nodes.Intake.{
  InventoryAdapter, Prepared, check_repository_idempotency, check_target, check_targets,
  completed_if_idle, inventory_record, skip_target,
}

-- Which targets of a list have a pull request, as the inventory answers for each.
pub data Answers (adapter : InventoryAdapter)
    : List RemediationTarget → List String → List SkippedRepository → Type 0 where
  done : Answers adapter [] [] []
  open_one :
      {target : RemediationTarget} {targets : List RemediationTarget} {pending : List String}
      {skipped : List SkippedRepository}
      → adapter.find_existing_pull_request target ≡ ok none
      → Answers adapter targets pending skipped
      → Answers adapter (target ∷ targets) (target.repository_name ∷ pending) skipped
  has_one :
      {target : RemediationTarget} {targets : List RemediationTarget} {pending : List String}
      {skipped : List SkippedRepository} {url : String}
      → adapter.find_existing_pull_request target ≡ ok (some url)
      → Answers adapter targets pending skipped
      → Answers adapter (target ∷ targets) pending (
          (record { name = target.repository_name; reason = concat ("existing_pr:" ∷ url ∷ []) })
          ∷ skipped)

append-cons :
    {A : Type 0} (xs : List A) (x : A) (ys : List A) → (xs ++ (x ∷ [])) ++ ys ≡ xs ++ (x ∷ ys)
append-cons [] x ys = refl
append-cons (z ∷ xs) x ys = ap (λ l. z ∷ l) (append-cons xs x ys)

append-empty : {A : Type 0} (xs : List A) → xs ++ [] ≡ xs
append-empty [] = refl
append-empty (z ∷ xs) = ap (λ l. z ∷ l) (append-empty xs)

-- What a loop over targets appends to the two lists.
abbrev Appends : InventoryAdapter → List RemediationTarget → Prepared → Prepared → Type 0
Appends adapter targets p p' =
    (pending : List String) × (skipped : List SkippedRepository) × Answers adapter targets pending
      skipped
    × (p'.pending_repos ≡ p.pending_repos ++ pending)
    × (p'.skipped_repos ≡ p.skipped_repos ++ skipped)

module _ (adapter : InventoryAdapter) (ticket_id : String) where
  check_target-open :
      (p q : Prepared) (target : RemediationTarget)
      → check_target adapter ticket_id p target none ≡ ok q
      → (q.pending_repos ≡ p.pending_repos ++ (target.repository_name ∷ []))
        × (q.skipped_repos ≡ p.skipped_repos)
  unfolding check_target
  check_target-open p q target h =
      let (workspace, prepared, made) =
        bind_ok (adapter.prepare_workspace ticket_id (inventory_record target)) _ h in
      ground (arith, made)

  first_answer :
      (target : RemediationTarget) (targets : List RemediationTarget) (p q p' : Prepared)
      (existing : Option String)
      → adapter.find_existing_pull_request target ≡ ok existing
      → check_target adapter ticket_id p target existing ≡ ok q
      → Appends adapter targets q p'
      → Appends adapter (target ∷ targets) p p'
  unfolding check_target
  first_answer target targets p q p' none asked checked (pending, skipped, answers, ps, ss) =
      let opened = check_target-open p q target checked in
      (
        target.repository_name ∷ pending,
        skipped,
        open_one asked answers,
        ps
            ∙ ap (λ l. l ++ pending) opened.0
            ∙ append-cons p.pending_repos target.repository_name pending,
        ss ∙ ap (λ l. l ++ skipped) opened.1,
      )
  first_answer target targets p q p' (some url) asked checked (pending, skipped, answers, ps, ss) =
      let e : skip_target p target url ≡ q = ground (arith, checked) in
      (
        pending,
        _,
        has_one asked answers,
        ps ∙ ap (λ r. r.pending_repos ++ pending) (sym e),
        ss ∙ ap (λ r. r.skipped_repos ++ skipped) (sym e) ∙ append-cons p.skipped_repos _ skipped,
      )

  check_targets-Appends :
      (targets : List RemediationTarget) (p p' : Prepared)
      → check_targets adapter ticket_id p targets ≡ ok p'
      → Appends adapter targets p p'
  unfolding check_targets
  check_targets-Appends [] p p' h =
      let e : p ≡ p' = ground (arith, h) in
      (
        [],
        [],
        done,
        ap (λ r. r.pending_repos) (sym e) ∙ sym (append-empty p.pending_repos),
        ap (λ r. r.skipped_repos) (sym e) ∙ sym (append-empty p.skipped_repos),
      )
  check_targets-Appends (target ∷ targets) p p' h =
      let (existing, asked, h1) = bind_ok (adapter.find_existing_pull_request target) _ h in
      let (q, checked, h2) = bind_ok (check_target adapter ticket_id p target existing) _ h1 in
      first_answer target targets p q p' existing asked checked
        (check_targets-Appends targets q p' h2)

-- After the idempotency check, the pending repositories are, in order, those of the targets for
-- which the inventory found no pull request; each other target is skipped with its pull request as
-- the reason, behind what was skipped before; and the workflow is completed if nothing is pending.
pub check_repository_idempotency-partition :
    (adapter : InventoryAdapter) (state state' : RemediationState)
    → check_repository_idempotency adapter state ≡ ok state'
    → (pending : List String) × (skipped : List SkippedRepository) × Answers adapter state.targets
        pending skipped
      × (state'.pending_repos ≡ pending)
      × (state'.skipped_repos ≡ state.skipped_repos ++ skipped)
      × ((pending ≢ []) ⊎ (state'.workflow_status ≡ WorkflowStatus.completed))
unfolding check_repository_idempotency
check_repository_idempotency-partition adapter state state' h =
    let (p', checked, made) =
      bind_ok (check_targets adapter state.initial_ticket_id _ state.targets) _ h in
    let (pending, skipped, answers, ps, ss) =
      check_targets-Appends adapter state.initial_ticket_id state.targets _ p' checked in
    (
      pending,
      skipped,
      answers,
      ground (arith, made, ps),
      ground (arith, made, ss),
      idle pending (ground (arith, made, ps)),
    )
  where
    idle :
        (pending : List String)
        → state'.workflow_status ≡ completed_if_idle pending state.workflow_status
        → (pending ≢ []) ⊎ (state'.workflow_status ≡ WorkflowStatus.completed)
    idle [] e = inr e
    idle (repo ∷ repos) e = inl (λ empty. cc)
