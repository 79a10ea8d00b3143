-- ===== src/Llm/Call.antt =====
-- llm/structured.py and llm/budget.py: `structured_call`. The client, the reading of an answer
-- (`json.loads` and the schema's validation) and the patterns are parameters.
use execution_accelerator.Prelude.{
  stripped, ℕ, ◌+◌, String, Bool, false, not, ◌&&◌, Option, none, some, List, [], ◌∷◌, ◌++◌,
  Outcome, ok, raised, codes, length, leb, ltb, text_eq, ◌>>=◌, if◌then◌else◌,
}
use execution_accelerator.Schemas.{LlmCallRecord}
use execution_accelerator.State.{RemediationState}
use execution_accelerator.Llm.Redact.{Pattern, Text, redact_prompt}

-- What ends a call: `LlmBudgetExceeded`, `PromptHasSensitiveData`, an exception of the client, an
-- answer that cannot be read (`json.JSONDecodeError`, `pydantic.ValidationError`), and, in a repair,
-- a template that cannot be filled in and `RepairBudgetExceeded`.
pub data LlmFailure : Type 0 where
  budget_exceeded : String → ℕ → ℕ → LlmFailure
  sensitive_data : String → LlmFailure
  client_error : String → LlmFailure
  invalid_answer : String → LlmFailure
  bad_template : String → LlmFailure
  repair_budget_exceeded : String → ℕ → ℕ → LlmFailure

-- A call on the outside, whose state it leaves changed: the state comes back after a failure, too.
abbrev pub Called : Type 0 → Type 0 → Type 0
Called W A = W → Outcome LlmFailure A × W

abbrev pub on_result :
    {W A B : Type 0} → (A → Called W B) → Outcome LlmFailure A × W → Outcome LlmFailure B × W
on_result f (ok a, w) = f a w
on_result f (raised failure, w) = (raised failure, w)

abbrev pub and_then_call : {W A B : Type 0} → Called W A → (A → Called W B) → Called W B
and_then_call m f w = on_result f (m w)

-- A raw answer and the tokens that it took.
abbrev pub Answer : Type 0
Answer = Text × ℕ

-- `LlmClient`: a prompt and a hint are sent, and the outside answers.
pub record LlmClient (W : Type 0) : Type 0 where
  pub provider : String
  pub model : String
  pub invoke_json : Text → Text → Called W Answer

-- A schema: the hint that `_schema_hint` renders, and the reading of an answer.
pub record Schema (A : Type 0) : Type 0 where
  pub hint : Text
  pub read : Text → Outcome LlmFailure A

-- `EA_MAX_LLM_CALLS_PER_TICKET` and `EA_MAX_LLM_TOKENS_PER_TICKET`
pub record LlmBudget : Type 0 where
  pub max_calls : ℕ
  pub max_tokens : ℕ

abbrev pub default_budget : LlmBudget
default_budget = record { max_calls = 20; max_tokens = 100000 }

-- `_should_block_on_match`; `strict` may be set by the caller.
abbrev pub hosted : String → Bool
hosted provider = not (text_eq provider "ollama") && not (text_eq provider "stub")

unfoldable pub should_block_on_match : String → List String → Option Bool → Bool
should_block_on_match provider [] strict = false
should_block_on_match provider (m ∷ ms) (some strict) = strict
should_block_on_match provider (m ∷ ms) none = hosted provider

-- `_enforce_call_budget`
unfoldable pub enforce_call_budget : LlmBudget → RemediationState → Outcome LlmFailure (Unit {0})
enforce_call_budget budget state =
    if leb budget.max_calls (length state.llm_calls)
    then raised (budget_exceeded "calls" (length state.llm_calls) budget.max_calls)
    else ok tt

-- `_enforce_token_budget`
unfoldable pub enforce_token_budget :
    LlmBudget → RemediationState → ℕ → Outcome LlmFailure (Unit {0})
enforce_token_budget budget state additional =
    if ltb budget.max_tokens (state.llm_tokens_used + additional)
    then raised (budget_exceeded "tokens" (state.llm_tokens_used + additional) budget.max_tokens)
    else ok tt

-- The prompt of the retry.
abbrev pub retry_prompt : Text → Text → Text
retry_prompt redacted_prompt schema_hint =
    redacted_prompt
    ++ (10
        ∷ 10
        ∷ (codes "Return STRICTLY valid JSON matching the schema below." ++ (10 ∷ schema_hint)))

-- The answer to the retry. Its tokens are dropped.
abbrev pub read_retry : {W A : Type 0} → Schema A → Answer → Called W A
read_retry schema (retry_text, retry_tokens) w = (schema.read retry_text, w)

abbrev pub or_retry :
    {W A : Type 0} → LlmClient W → Schema A → Text → Outcome LlmFailure A → Called W A
or_retry client schema redacted (ok parsed) w = (ok parsed, w)
or_retry client schema redacted (raised failure) w =
    and_then_call (client.invoke_json (retry_prompt redacted schema.hint) schema.hint)
      (read_retry schema) w

-- `_parse_or_retry`
unfoldable pub parse_or_retry : {W A : Type 0} → LlmClient W → Schema A → Text → Text → Called W A
parse_or_retry client schema redacted first_text =
    or_retry client schema redacted (schema.read first_text)

-- A text with `min_length=1`.
unfoldable pub filled_text : String → Outcome LlmFailure String
unfolding stripped
filled_text s =
    if text_eq (stripped s) "" then raised (invalid_answer "string_too_short") else ok (stripped s)

-- `LlmCallRecord(…)`
unfoldable pub call_record :
    {W : Type 0} → LlmClient W → String → ℕ → Outcome LlmFailure LlmCallRecord
unfolding filled_text
call_record client prompt_name token_count = do
  provider ← filled_text client.provider
  model ← filled_text client.model
  name ← filled_text prompt_name
  ok (record { provider = provider; model = model; prompt_name = name; token_count = token_count })

-- What follows the answer: the record of the call, and the budget of tokens.
abbrev pub recorded :
    {W A : Type 0}
    → LlmClient W
    → LlmBudget
    → RemediationState
    → String
    → ℕ
    → A
    → Outcome LlmFailure (A × LlmCallRecord)
recorded client budget state prompt_name token_count parsed = do
  call ← call_record client prompt_name token_count
  enforced ← enforce_token_budget budget state token_count
  ok (parsed, call)

module _ {W A : Type 0} (client : LlmClient W) (budget : LlmBudget) (state : RemediationState)
    (schema : Schema A) (prompt_name : String) where
  -- The first answer is read, or the one to the retry; its tokens are recorded.
  abbrev pub answered : Text → Answer → Called W (A × LlmCallRecord)
  answered redacted (raw_text, token_count) =
      and_then_call (parse_or_retry client schema redacted raw_text)
        λ parsed w. (recorded client budget state prompt_name token_count parsed, w)

  abbrev pub sends : Text → Called W (A × LlmCallRecord)
  sends redacted = and_then_call (client.invoke_json redacted schema.hint) (answered redacted)

  abbrev pub refused_prompt : List String → Called W (A × LlmCallRecord)
  refused_prompt [] w = (raised (sensitive_data ""), w)
  refused_prompt (name ∷ names) w = (raised (sensitive_data name), w)

  abbrev pub unless_blocked : Option Bool → Text × List String → Called W (A × LlmCallRecord)
  unless_blocked strict (redacted, matched) =
      if should_block_on_match client.provider matched strict
      then refused_prompt matched
      else sends redacted

  abbrev pub within_calls :
      Outcome LlmFailure (Unit {0}) → Called W (A × LlmCallRecord) → Called W (A × LlmCallRecord)
  within_calls (raised failure) called w = (raised failure, w)
  within_calls (ok enough) called w = called w

unfoldable pub structured_call :
    {W A : Type 0}
    → List Pattern
    → LlmBudget
    → LlmClient W
    → RemediationState
    → Text
    → Schema A
    → String
    → List Text
    → Option Bool
    → Called W (A × LlmCallRecord)
unfolding enforce_call_budget enforce_token_budget should_block_on_match parse_or_retry call_record
    redact_prompt
structured_call patterns budget client state prompt schema prompt_name extra_secrets strict =
    within_calls client budget state schema prompt_name (enforce_call_budget budget state) (
      unless_blocked client budget state schema prompt_name strict
        (redact_prompt patterns extra_secrets prompt))
