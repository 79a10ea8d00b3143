-- ===== src/Llm/Sent.antt =====
-- Which prompts `structured_call` sends. A client that keeps a list of what it is asked shows them.
use text.Mathlib.TextEquality.{eq_iff}
use execution_accelerator.Prelude.{
  ◌≤◌, ◌≡◌, ◌≢◌, refl, ◌⊎◌, inl, inr, String, Bool, true, false, Bool-cases, Option, none, some,
  List, [], ◌∷◌, ◌++◌, Outcome, ok, raised, length, leb, text_eq, arith,
}
use execution_accelerator.Schemas.{LlmCallRecord}
use execution_accelerator.State.{RemediationState}
use execution_accelerator.Llm.Redact.{Pattern, Text, redact_prompt, without_secrets}
use execution_accelerator.Llm.Clean.{IsClean, redact_prompt-unmatched}
use execution_accelerator.Llm.Call.{
  Answer, Called, LlmBudget, LlmClient, LlmFailure, Schema, answered, enforce_call_budget, hosted,
  on_result, or_retry, parse_or_retry, read_retry, recorded, refused_prompt, retry_prompt, sends,
  should_block_on_match, structured_call,
}

-- A client that also keeps the prompts that it is sent, in order.
abbrev pub noted :
    {W : Type 0}
    → List Text
    → Text
    → Outcome LlmFailure Answer × W
    → Outcome LlmFailure Answer × (W × List Text)
noted sent prompt (reply, w) = (reply, (w, sent ++ (prompt ∷ [])))

abbrev pub recording : {W : Type 0} → LlmClient W → LlmClient (W × List Text)
recording client = record {
  provider = client.provider;
  model = client.model;
  invoke_json = λ prompt hint (w, sent). noted sent prompt (client.invoke_json prompt hint w);
}

-- The prompts that were sent.
abbrev pub sent_by : {W B : Type 0} → Outcome LlmFailure B × (W × List Text) → List Text
sent_by (result, (w, sent)) = sent

-- The prompt itself, and at most one retry behind it.
abbrev pub AtMostRetried : Text → Text → List Text → Type 0
AtMostRetried redacted hint sent =
    (sent ≡ redacted ∷ []) ⊎ (sent ≡ redacted ∷ retry_prompt redacted hint ∷ [])

-- What follows an answer sends nothing, if its steps send nothing.
on_result-sent :
    {W A B : Type 0} (f : A → Called (W × List Text) B)
    → ((a : A) (v : W × List Text) → sent_by (f a v) ≡ v.1)
    → (r : Outcome LlmFailure A × (W × List Text)) → sent_by (on_result f r) ≡ r.1.1
on_result-sent f quiet (ok a, v) = quiet a v
on_result-sent f quiet (raised failure, v) = refl

module _ {W A : Type 0} (client : LlmClient W) (budget : LlmBudget) (state : RemediationState)
    (schema : Schema A) (prompt_name : String) (redacted : Text) where
  or_retry-sent :
      (first : Outcome LlmFailure A) (w : W)
      → AtMostRetried redacted schema.hint
          (sent_by (or_retry (recording client) schema redacted first (w, redacted ∷ [])))
  or_retry-sent (ok parsed) w = inl refl
  or_retry-sent (raised failure) w =
      let again = retry_prompt redacted schema.hint in
      inr (
        on_result-sent (read_retry schema) (λ a v. refl)
          (noted (redacted ∷ []) again (client.invoke_json again schema.hint w)))

  answered-sent :
      (reply : Answer) (w : W)
      → AtMostRetried redacted schema.hint (
          sent_by (
            answered
              (recording client)
              budget
              state
              schema
              prompt_name
              redacted
              reply
              (w, redacted ∷ [])))
  unfolding parse_or_retry
  answered-sent (text, n) w =
      let parsed =
        or_retry (recording client) schema redacted (schema.read text) (w, redacted ∷ []) in
      rw
        (on_result-sent (λ a v. (recorded (recording client) budget state prompt_name n a, v))
          (λ a v. refl) parsed)
        (or_retry-sent (schema.read text) w)

  sends-sent :
      (w : W)
      → AtMostRetried redacted schema.hint
          (sent_by (sends (recording client) budget state schema prompt_name redacted (w, [])))
  sends-sent w = replied (client.invoke_json redacted schema.hint w)
    where
      replied :
          (r : Outcome LlmFailure Answer × W)
          → AtMostRetried redacted schema.hint (
              sent_by (
                on_result
                  (answered (recording client) budget state schema prompt_name redacted)
                  (noted [] redacted r)))
      replied (ok reply, w) = answered-sent reply w
      replied (raised failure, w) = inl refl

-- Nothing was sent, and the call failed.
abbrev pub IsRefused : {W B : Type 0} → Outcome LlmFailure B × (W × List Text) → Type 0
IsRefused r = (sent_by r ≡ []) × ((e : LlmFailure) × (r.0 ≡ raised e))

refused_prompt-IsRefused :
    {W A : Type 0} (client : LlmClient W) (budget : LlmBudget) (state : RemediationState)
    (schema : Schema A) (prompt_name : String) (names : List String) (w : W)
    → IsRefused (refused_prompt (recording client) budget state schema prompt_name names (w, []))
refused_prompt-IsRefused client budget state schema prompt_name [] w = (refl, (_, refl))
refused_prompt-IsRefused client budget state schema prompt_name (n ∷ ns) w = (refl, (_, refl))

-- A caller may decide whether a prompt with a credential is stopped; else one for a provider other
-- than Ollama and the stub is.
abbrev pub Blocks : String → Option Bool → Type 0
Blocks provider (some strict) = strict ≡ true
Blocks provider none = (provider ≢ "ollama") × (provider ≢ "stub")

-- Why a call has to stop before a prompt is sent: the calls are used up, or a credential is found in
-- the prompt whose secrets are replaced, and it may not be sent to this provider.
abbrev pub MustStop :
    List Pattern → LlmBudget → String → RemediationState → Text → Option Bool → Type 0
MustStop patterns budget provider state plain strict =
    (budget.max_calls ≤ length state.llm_calls)
    ⊎ ((¬ IsClean patterns plain) × Blocks provider strict)

unequal : (s t : String) → s ≢ t → text_eq s t ≡ false
unequal s t apart = elim (Bool-cases (text_eq s t)) [
  | inl same ↦ absurd (apart ((eq_iff s t).0 same))
  | inr other ↦ other
]

apart : (s t : String) → text_eq s t ≡ false → s ≢ t
apart s t other same = absurd (ground (arith, other, (eq_iff s t).1 same))

hosted-Blocks : (provider : String) → hosted provider ≡ true → Blocks provider none
hosted-Blocks provider h =
    (apart provider "ollama" (ground (arith, h)), apart provider "stub" (ground (arith, h)))

Blocks-hosted : (provider : String) → Blocks provider none → hosted provider ≡ true
Blocks-hosted provider b = rw (unequal provider "ollama" b.0, unequal provider "stub" b.1) refl

blocking_match :
    (provider : String) (matched : List String) (strict : Option Bool)
    → should_block_on_match provider matched strict ≡ true
    → (matched ≢ []) × Blocks provider strict
unfolding should_block_on_match
blocking_match provider [] strict h = absurd (ground (arith, h))
blocking_match provider (m ∷ ms) (some strict) h = ((λ e. ground (arith, e)), h)
blocking_match provider (m ∷ ms) none h = ((λ e. ground (arith, e)), hosted-Blocks provider h)

passing_match :
    (provider : String) (matched : List String) (strict : Option Bool)
    → should_block_on_match provider matched strict ≡ false
    → Blocks provider strict
    → matched ≡ []
unfolding should_block_on_match
passing_match provider [] strict h b = refl
passing_match provider (m ∷ ms) (some strict) h b = absurd (ground (arith, h, b))
passing_match provider (m ∷ ms) none h b = absurd (ground (arith, h, Blocks-hosted provider b))

module _ {W A : Type 0} (patterns : List Pattern) (budget : LlmBudget) (client : LlmClient W)
    (state : RemediationState) (prompt : Text) (schema : Schema A) (prompt_name : String)
    (extra_secrets : List Text) (strict : Option Bool) where
  -- A call of a client that keeps its prompts, with none sent before.
  abbrev pub noted_call : W → Outcome LlmFailure (A × LlmCallRecord) × (W × List Text)
  noted_call w =
      structured_call patterns budget (recording client) state prompt schema prompt_name
        extra_secrets strict (w, [])

  -- A call fails without a prompt sent exactly if the calls are used up, or a pattern is found in the
  -- prompt whose secrets are replaced and the caller, or else the provider, wants that stopped. Any
  -- other call sends the redacted prompt, and at most one retry behind it.
  pub structured_call-sent :
      (w : W)
      → let plain = without_secrets extra_secrets prompt in
        (MustStop patterns budget client.provider state plain strict × IsRefused (noted_call w))
        ⊎ ((¬ MustStop patterns budget client.provider state plain strict)
            × AtMostRetried
                (redact_prompt patterns extra_secrets prompt).0
                schema.hint
                (sent_by (noted_call w)))
  unfolding structured_call enforce_call_budget
  structured_call-sent w =
      let redaction = redact_prompt patterns extra_secrets prompt in
      let unmatched = (redact_prompt-unmatched patterns extra_secrets prompt).0 in
      elim (Bool-cases (leb budget.max_calls (length state.llm_calls))) [
        | inl used ↦ rw used (inl (inl (ground (arith, used)), (refl, (_, refl))))
        | inr free ↦ elim (Bool-cases (should_block_on_match client.provider redaction.1 strict)) [
          | inl blocks ↦
              let (found, wanted) = blocking_match client.provider redaction.1 strict blocks in
              rw (free, blocks)
                (inl (
                  inr ((λ clean. found (unmatched.1 clean)), wanted),
                  refused_prompt-IsRefused client budget state schema prompt_name redaction.1 w,
                ))
          | inr passes ↦
              rw (free, passes)
                (inr (
                  λ m. elim m [
                    | inl used ↦ absurd (ground (arith, used, free))
                    | inr (found, wanted) ↦ found (
                        unmatched.0
                          (passing_match client.provider redaction.1 strict passes wanted))
                  ],
                  sends-sent client budget state schema prompt_name redaction.0 w,
                ))
        ]
      ]

empty_or_filled : (names : List String) → (names ≡ []) ⊎ (names ≢ [])
empty_or_filled [] = inl refl
empty_or_filled (n ∷ ns) = inr (λ e. ground (arith, e))

-- Where the caller does not choose otherwise, a prompt is only sent to a provider other than Ollama
-- and the stub if no pattern is found in the prompt whose secrets are replaced; what the client is
-- asked is that prompt, and at most one retry behind it.
pub structured_call-IsClean :
    {W A : Type 0} (patterns : List Pattern) (budget : LlmBudget) (client : LlmClient W)
    (state : RemediationState) (prompt : Text) (schema : Schema A) (prompt_name : String)
    (extra_secrets : List Text) (w : W)
    → client.provider ≢ "ollama"
    → client.provider ≢ "stub"
    → let plain = without_secrets extra_secrets prompt in
      let sent =
        sent_by (
          noted_call patterns budget client state prompt schema prompt_name extra_secrets none w) in
      sent ≢ [] → IsClean patterns plain × AtMostRetried plain schema.hint sent
structured_call-IsClean patterns budget client state prompt schema prompt_name extra_secrets w
      not_ollama not_stub sent =
    let redaction = redact_prompt patterns extra_secrets prompt in
    let (unmatched, kept) = redact_prompt-unmatched patterns extra_secrets prompt in
    elim (structured_call-sent patterns budget client state prompt schema prompt_name extra_secrets
      none w) [
        | inl (stop, refused) ↦ absurd (sent refused.0)
        | inr (passes, once) ↦ elim (empty_or_filled redaction.1) [
          | inl none_matched ↦ (unmatched.0 none_matched, rw (← kept none_matched) once)
          | inr found ↦
              absurd (passes (inr ((λ clean. found (unmatched.1 clean)), (not_ollama, not_stub))))
        ]
      ]
