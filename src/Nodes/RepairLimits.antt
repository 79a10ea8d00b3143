-- ===== src/Nodes/RepairLimits.antt =====
-- What repairs keep: the budgets of the ticket and the limits of a patch.
use execution_accelerator.Prelude.{
  stripped, ℕ, suc, ◌+◌, ◌≤◌, ◌≡◌, String, List, [], ◌∷◌, All, ok, length,
}
use execution_accelerator.Schemas.{LlmCallRecord, RepairProposal}
use execution_accelerator.State.{RemediationState}
use execution_accelerator.Graph.Run.{initial_state}
use execution_accelerator.Llm.Call.{LlmBudget}
use execution_accelerator.Nodes.Repair.{
  RepairSettings, count_diff_lines, max_files_per_patch, max_lines_per_patch, repair,
}

-- The tokens of all recorded calls.
abbrev pub total_tokens : List LlmCallRecord → ℕ
total_tokens [] = 0
total_tokens (c ∷ cs) = c.token_count + total_tokens cs

-- The attempts are counted from a number on.
abbrev pub NumberedFrom : ℕ → List RepairProposal → Type 0
NumberedFrom n [] = Unit
NumberedFrom n (p ∷ ps) = (p.attempt_index ≡ n) × NumberedFrom (suc n) ps

-- At most ten files, and a diff that is an answer's, stripped, of which `_count_diff_lines` counts at
-- most five hundred lines before it is stripped.
abbrev pub IsLimited : RepairProposal → Type 0
IsLimited p =
    (length p.affected_files ≤ max_files_per_patch)
    × ((diff : String) × (p.unified_diff ≡ stripped diff)
        × (count_diff_lines diff ≤ max_lines_per_patch))

-- The calls and the tokens are within the budget, the tokens are those of the calls, and the
-- proposals are numbered from one on, each within the limits of a patch.
pub record IsWithinBudget (budget : LlmBudget) (state : RemediationState) : Type 0 where
  pub calls : length state.llm_calls ≤ budget.max_calls
  pub tokens : state.llm_tokens_used ≤ budget.max_tokens
  pub counted : state.llm_tokens_used ≡ total_tokens state.llm_calls
  pub numbered : NumberedFrom 1 state.repair_proposals
  pub limited : All IsLimited state.repair_proposals

-- The states that a new ticket comes to by repairs under one budget; each has settings of its own.
pub data Repaired (W : Type 0) (budget : LlmBudget) (ticket_id : String)
    : RemediationState → Type 0 where
  unrepaired : Repaired W budget ticket_id (initial_state ticket_id)
  repaired_again :
      {state state' : RemediationState}
      → Repaired W budget ticket_id state
      → (settings : RepairSettings W) → settings.budget ≡ budget
      → (w : W) → (repair settings state w).0 ≡ ok state'
      → Repaired W budget ticket_id state'
