-- ===== src/Llm/Redact.antt =====
-- llm/redact.py: credentials in a prompt are replaced before it is sent. A compiled pattern of `re`
-- is a parameter: whether it is found in a text, and the text with its matches replaced.
use execution_accelerator.Prelude.{
  ℕ, zero, suc, ◌-◌, String, Bool, ◌||◌, List, [], ◌∷◌, ◌++◌, codes, codes_eq, length, leb, any,
  if◌then◌else◌,
}
use execution_accelerator.Java.Symbols.{is_nil, starts_text}

abbrev pub Text : Type 0
Text = List ℕ

-- `(name, pattern)`: `pattern.search(text)` and `pattern.sub(REDACTION_TOKEN, text)`
pub record Pattern : Type 0 where
  pub name : String
  pub search : Text → Bool
  pub substitute : Text → Text

abbrev redaction_token : Text
redaction_token = codes "[REDACTED]"

-- `text.replace(old, new)` for an `old` that is not empty. `skip` counts the characters of the last
-- match that are still to pass.
unfoldable pub replace_text : Text → Text → ℕ → Text → Text
unfolding starts_text
replace_text old new skip [] = []
replace_text old new (suc skip) (c ∷ cs) = replace_text old new skip cs
replace_text old new zero (c ∷ cs) =
    let kept = c ∷ replace_text old new zero cs in
    let replaced = new ++ replace_text old new (length old - 1) cs in
    if starts_text old (c ∷ cs) then replaced else kept

abbrev insert_longest : Text → List Text → List Text
insert_longest s [] = s ∷ []
insert_longest s (t ∷ ts) =
    if leb (length t) (length s) then s ∷ t ∷ ts else t ∷ insert_longest s ts

-- `sorted({s for s in extra_secrets if s}, key=len, reverse=True)`; secrets of one length stand in
-- the order of the set, which is here the one in which they are given.
unfoldable pub longest_first : List Text → List Text
longest_first [] = []
longest_first (s ∷ ss) =
    let rest = longest_first ss in
    if is_nil s || any (codes_eq s) rest then rest else insert_longest s rest

abbrev replace_each : List Text → Text → Text
replace_each [] prompt = prompt
replace_each (s ∷ ss) prompt = replace_each ss (replace_text s redaction_token 0 prompt)

-- The first loop of `redact_prompt`.
unfoldable pub without_secrets : List Text → Text → Text
unfolding longest_first replace_text
without_secrets extra_secrets prompt = replace_each (longest_first extra_secrets) prompt

-- The second loop of `redact_prompt`, with the names that have matched so far.
unfoldable pub redact_patterns : List Pattern → Text → List String → Text × List String
redact_patterns [] redacted matched = (redacted, matched)
redact_patterns (p ∷ ps) redacted matched =
    if p.search redacted
    then redact_patterns ps (p.substitute redacted) (matched ++ (p.name ∷ []))
    else redact_patterns ps redacted matched

unfoldable pub redact_prompt : List Pattern → List Text → Text → Text × List String
unfolding redact_patterns without_secrets
redact_prompt patterns extra_secrets prompt =
    redact_patterns patterns (without_secrets extra_secrets prompt) []
