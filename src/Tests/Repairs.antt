-- ===== src/Tests/Repairs.antt =====
-- Calls of a language model and repairs at concrete answers.
use text.Mathlib.TextEquality.{eq_iff}
use execution_accelerator.Prelude.{
  stripped, List, ℕ, zero, suc, ◌≡◌, ◌≢◌, refl, ap, map, ◌↔◌, ◌⊎◌, none, [], ◌∷◌, Outcome, ok,
  raised, codes, codes_eq, contains, length, if◌then◌else◌, arith, lookup, last?,
}
use execution_accelerator.Schemas.{FailureClassification, LlmCallRecord}
use execution_accelerator.State.{RemediationState}
use execution_accelerator.Graph.Run.{initial_state}
use execution_accelerator.Java.Symbols.{starts_text}
use execution_accelerator.Llm.Redact.{
  Pattern, Text, longest_first, redact_patterns, redact_prompt, replace_text, without_secrets,
}
use execution_accelerator.Llm.Call.{
  Answer, LlmClient, LlmFailure, Schema, call_record, default_budget, enforce_call_budget,
  enforce_token_budget, filled_text, invalid_answer, parse_or_retry, should_block_on_match,
  structured_call,
}
use execution_accelerator.Llm.Budget.{IsWithin, structured_call-IsWithin}
use execution_accelerator.Llm.Clean.{IsClean, redact_prompt-unmatched}
use execution_accelerator.Llm.Sent.{
  AtMostRetried, IsRefused, MustStop, noted_call, recording, sent_by, structured_call-IsClean,
  structured_call-sent,
}
use execution_accelerator.Nodes.Repair.{
  LlmPatchProposal, RepairSettings, context_from_state, count_diff_lines, enforce_patch_limits,
  is_changed_line, render_prompt, repair, repair_proposal, split_lines, split_lines_from,
}

-- An added line that begins with `++` counts as a header, so the diff has one changed line less.
added_increment : count_diff_lines "--- a\n+++ b\n-i++;\n+++i;\n" ≡ 1
unfolding count_diff_lines split_lines split_lines_from is_changed_line starts_text
added_increment = refl

aws_key : Pattern
aws_key = record {
  name = "aws_access_key";
  search = contains (codes "AKIA");
  substitute = replace_text (codes "AKIA") (codes "[REDACTED]") 0;
}

patch : LlmPatchProposal
patch = record {
  rationale = "The method was renamed.";
  unified_diff = "-a\n+b\n";
  affected_files = "A.java" ∷ [];
}

-- The first answer of this model cannot be read, the second one can; the number counts the answers.
answers : Text → Text → ℕ → Outcome LlmFailure Answer × ℕ
answers prompt hint zero = (ok (codes "sorry", 60000), 1)
answers prompt hint (suc n) = (ok (codes "{}", 50000), suc (suc n))

client : LlmClient ℕ
client = record { provider = "anthropic"; model = "m"; invoke_json = answers }

schema : Schema LlmPatchProposal
schema = record {
  hint = codes "{}";
  read = λ text.
      if codes_eq text (codes "{}") then ok patch else raised (invalid_answer "Expecting value");
}

compile_repair : RepairSettings ℕ
compile_repair = record {
  patterns = aws_key ∷ [];
  budget = default_budget;
  client = client;
  schema = schema;
  format = λ template fields. ok template;
  prompt_name = "repair_compile";
  default_prompt = codes "Fix it.";
  prompt_loader = none;
  failure_class = FailureClassification.compile_error;
}

first_call : Outcome LlmFailure (LlmPatchProposal × LlmCallRecord) × (ℕ × List Text)
first_call =
    noted_call (aws_key ∷ []) default_budget client (initial_state "T-1") (codes "Fix it.") schema
      "repair_compile" [] none 0

call : LlmCallRecord
call = record {
  provider = "anthropic";
  model = "m";
  prompt_name = "repair_compile";
  token_count = 60000;
}

-- Both answers together took more tokens than the budget has; only those of the first one count.
retry_uncounted : (first_call.0 ≡ ok (patch, call)) × (length (sent_by first_call) ≡ 2)
unfolding first_call client schema answers call structured_call redact_prompt without_secrets
    longest_first redact_patterns aws_key contains enforce_call_budget enforce_token_budget
    should_block_on_match parse_or_retry call_record filled_text stripped
retry_uncounted = (refl, refl)

structured_call-IsWithin_example : IsWithin default_budget (initial_state "T-1") call
unfolding first_call
structured_call-IsWithin_example =
    structured_call-IsWithin (aws_key ∷ []) default_budget (recording client) (initial_state "T-1")
      (codes "Fix it.") schema "repair_compile" [] none (0, []) patch call retry_uncounted.0

redact_prompt-unmatched_example :
    let plain = without_secrets (codes "pw" ∷ []) (codes "use pw") in
    let redaction = redact_prompt (aws_key ∷ []) (codes "pw" ∷ []) (codes "use pw") in
    ((redaction.1 ≡ []) ↔ IsClean (aws_key ∷ []) plain) × ((redaction.1 ≡ []) → redaction.0 ≡ plain)
redact_prompt-unmatched_example =
    redact_prompt-unmatched (aws_key ∷ []) (codes "pw" ∷ []) (codes "use pw")

-- A secret that the caller gives is replaced, and no pattern is found any more.
secret_replaced :
    redact_prompt (aws_key ∷ []) (codes "pw" ∷ []) (codes "use pw") ≡ (codes "use [REDACTED]", [])
unfolding redact_prompt without_secrets longest_first redact_patterns replace_text starts_text
    aws_key contains
secret_replaced = refl

-- A key in the prompt keeps it from a hosted model, although it would be replaced.
key_refused :
    sent_by (
      noted_call
        (aws_key ∷ [])
        default_budget
        client
        (initial_state "T-1")
        (codes "AKIA")
        schema
        "repair_compile"
        []
        none
        0)
    ≡ []
unfolding client schema answers structured_call redact_prompt without_secrets longest_first
    redact_patterns aws_key contains enforce_call_budget should_block_on_match replace_text
    starts_text
key_refused = refl

structured_call-sent_example :
    let plain = without_secrets [] (codes "Fix it.") in
    let state = initial_state "T-1" in
    (MustStop (aws_key ∷ []) default_budget client.provider state plain none × IsRefused first_call)
    ⊎ ((¬ MustStop (aws_key ∷ []) default_budget client.provider state plain none)
        × AtMostRetried
            (redact_prompt (aws_key ∷ []) [] (codes "Fix it.")).0
            schema.hint
            (sent_by first_call))
unfolding first_call
structured_call-sent_example =
    structured_call-sent (aws_key ∷ []) default_budget client (initial_state "T-1")
      (codes "Fix it.") schema "repair_compile" [] none 0

first_call-sent : sent_by first_call ≢ []
first_call-sent h = ground (arith, ap length h, retry_uncounted.1)

structured_call-IsClean_example :
    let plain = without_secrets [] (codes "Fix it.") in
    IsClean (aws_key ∷ []) plain × AtMostRetried plain schema.hint (sent_by first_call)
unfolding first_call client
structured_call-IsClean_example =
    structured_call-IsClean (aws_key ∷ []) default_budget client (initial_state "T-1")
      (codes "Fix it.") schema "repair_compile" [] 0
      (λ e. absurd (ground (arith, (eq_iff "anthropic" "ollama").1 e)))
      (λ e. absurd (ground (arith, (eq_iff "anthropic" "stub").1 e))) first_call-sent

state_of : Outcome LlmFailure RemediationState → RemediationState
state_of (ok state) = state
state_of (raised failure) = initial_state "T-1"

repaired_state : RemediationState
repaired_state = state_of (repair compile_repair (initial_state "T-1") 0).0

-- The diff is stored without its last line break.
stored_diff : map (λ p. p.unified_diff) repaired_state.repair_proposals ≡ "-a\n+b" ∷ []
unfolding repaired_state state_of compile_repair repair context_from_state render_prompt
    enforce_patch_limits repair_proposal count_diff_lines split_lines split_lines_from
    is_changed_line starts_text lookup last? patch client schema answers structured_call
    redact_prompt without_secrets longest_first redact_patterns aws_key contains enforce_call_budget
    enforce_token_budget should_block_on_match parse_or_retry call_record filled_text stripped
stored_diff = refl

-- Stripped, the first line of a diff may count that did not before.
leading_blank : (count_diff_lines " +a" ≡ 0) × (count_diff_lines (stripped " +a") ≡ 1)
unfolding count_diff_lines split_lines split_lines_from is_changed_line starts_text stripped
leading_blank = (refl, refl)
