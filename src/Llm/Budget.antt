-- ===== src/Llm/Budget.antt =====
-- The budgets of `structured_call`: calls and tokens.
use execution_accelerator.Prelude.{
  ℕ, ◌+◌, ◌≤◌, ◌<◌, ◌≡◌, ◌≢◌, refl, sym, String, Bool, Bool-cases, Option, List, [], ◌∷◌, Outcome,
  ok, raised, bind_ok, length, inl, inr, arith,
}
use execution_accelerator.Schemas.{LlmCallRecord}
use execution_accelerator.State.{RemediationState}
use execution_accelerator.Llm.Redact.{Pattern, Text, redact_prompt}
use execution_accelerator.Llm.Call.{
  Called, on_result, Answer, LlmBudget, LlmClient, LlmFailure, Schema, answered, refused_prompt,
  unless_blocked, within_calls, parse_or_retry, filled_text, call_record, enforce_call_budget,
  enforce_token_budget, recorded, should_block_on_match, structured_call,
}

enforce_call_budget_lem :
    (budget : LlmBudget) (state : RemediationState)
    → enforce_call_budget budget state ≡ ok tt
    → length state.llm_calls < budget.max_calls
unfolding enforce_call_budget
enforce_call_budget_lem budget state h = ground (arith, h)

enforce_token_budget_lem :
    (budget : LlmBudget) (state : RemediationState) (n : ℕ)
    → enforce_token_budget budget state n ≡ ok tt
    → state.llm_tokens_used + n ≤ budget.max_tokens
unfolding enforce_token_budget
enforce_token_budget_lem budget state n h = ground (arith, h)

call_record-token_count :
    {W : Type 0} (client : LlmClient W) (prompt_name : String) (n : ℕ) (call : LlmCallRecord)
    → call_record client prompt_name n ≡ ok call
    → call.token_count ≡ n
unfolding call_record
call_record-token_count client prompt_name n call h =
    let (provider, _, h1) = bind_ok (filled_text client.provider) _ h in
    let (model, _, h2) = bind_ok (filled_text client.model) _ h1 in
    let (name, _, h3) = bind_ok (filled_text prompt_name) _ h2 in ground (arith, h3)

-- A call within both budgets.
abbrev pub IsWithin : LlmBudget → RemediationState → LlmCallRecord → Type 0
IsWithin budget state call =
    (length state.llm_calls < budget.max_calls)
    × (state.llm_tokens_used + call.token_count ≤ budget.max_tokens)

recorded-tokens :
    {W A : Type 0} (client : LlmClient W) (budget : LlmBudget) (state : RemediationState)
    (prompt_name : String) (n : ℕ) (answer parsed : A) (call : LlmCallRecord)
    → recorded client budget state prompt_name n answer ≡ ok (parsed, call)
    → state.llm_tokens_used + call.token_count ≤ budget.max_tokens
recorded-tokens client budget state prompt_name n answer parsed call h =
    let (c, recorded_c, h2) = bind_ok (call_record client prompt_name n) _ h in
    let (u, enforced, h3) = bind_ok (enforce_token_budget budget state n) _ h2 in
    let same : c ≡ call = ground (arith, h3) in
    ground (
      arith,
      enforce_token_budget_lem budget state n enforced,
      same,
      call_record-token_count client prompt_name n c recorded_c,
    )

-- What a chain of calls that returns went through.
on_result_ok :
    {W A B : Type 0} (f : A → Called W B) (r : Outcome LlmFailure A) (w : W) (b : B)
    → (on_result f (r, w)).0 ≡ ok b
    → (a : A) × ((f a w).0 ≡ ok b)
on_result_ok f (ok a) w b h = (a, h)
on_result_ok f (raised failure) w b h = absurd (ground (arith, h))

module _ {W A : Type 0} (budget : LlmBudget) (client : LlmClient W) (state : RemediationState)
    (schema : Schema A) (prompt_name : String) (parsed : A) (call : LlmCallRecord) where
  answered-tokens :
      (redacted : Text) (reply : Answer) (w : W)
      → (answered client budget state schema prompt_name redacted reply w).0 ≡ ok (parsed, call)
      → state.llm_tokens_used + call.token_count ≤ budget.max_tokens
  answered-tokens redacted (text, n) w h =
      let first = parse_or_retry client schema redacted text w in
      let (answer, done) = on_result_ok _ first.0 first.1 (parsed, call) h in
      recorded-tokens client budget state prompt_name n answer parsed call done

  refused_prompt-raises :
      (names : List String) (w : W)
      → (refused_prompt client budget state schema prompt_name names w).0 ≢ ok (parsed, call)
  refused_prompt-raises [] w h = ground (arith, h)
  refused_prompt-raises (n ∷ ns) w h = ground (arith, h)

  unless_blocked-tokens :
      (strict : Option Bool) (redaction : Text × List String) (w : W)
      → (unless_blocked client budget state schema prompt_name strict redaction w).0
        ≡ ok (parsed, call)
      → state.llm_tokens_used + call.token_count ≤ budget.max_tokens
  unless_blocked-tokens strict (redacted, matched) w h =
      elim (Bool-cases (should_block_on_match client.provider matched strict)) [
        | inl blocks ↦ absurd (refused_prompt-raises matched w (rw blocks at h))
        | inr passes ↦
            let first = client.invoke_json redacted schema.hint w in
            let (reply, done) =
              on_result_ok (answered client budget state schema prompt_name redacted) first.0
                first.1 (parsed, call) (rw passes at h) in
            answered-tokens redacted reply first.1 done
      ]

  within_calls-IsWithin :
      (enough : Outcome LlmFailure (Unit {0})) (strict : Option Bool)
      (redaction : Text × List String) (w : W)
      → enough ≡ enforce_call_budget budget state
      → (within_calls client budget state schema prompt_name enough
          (unless_blocked client budget state schema prompt_name strict redaction)
          w).0
        ≡ ok (parsed, call)
      → IsWithin budget state call
  within_calls-IsWithin (raised failure) strict redaction w e h = absurd (ground (arith, h))
  within_calls-IsWithin (ok enough) strict redaction w e h =
      (enforce_call_budget_lem budget state (sym e), unless_blocked-tokens strict redaction w h)

-- A call of the model that returns an answer was within the budget of calls, and its record's
-- tokens, with those that the state counts already, are within the budget of tokens.
pub structured_call-IsWithin :
    {W A : Type 0} (patterns : List Pattern) (budget : LlmBudget) (client : LlmClient W)
    (state : RemediationState) (prompt : Text) (schema : Schema A) (prompt_name : String)
    (extra_secrets : List Text) (strict : Option Bool) (w : W) (parsed : A) (call : LlmCallRecord)
    → (structured_call patterns budget client state prompt schema prompt_name extra_secrets strict
        w).0
      ≡ ok (parsed, call)
    → IsWithin budget state call
unfolding structured_call
structured_call-IsWithin patterns budget client state prompt schema prompt_name extra_secrets strict
      w parsed call h =
    within_calls-IsWithin budget client state schema prompt_name parsed call
      (enforce_call_budget budget state) strict (redact_prompt patterns extra_secrets prompt) w refl
      h
