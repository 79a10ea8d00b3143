-- ===== src/Llm/Clean.antt =====
-- What `redact_prompt` matches.
use execution_accelerator.Prelude.{
  ◌≡◌, ◌≢◌, refl, sym, ◌∙◌, ◌↔◌, String, false, Bool-cases, List, [], ◌∷◌, ◌++◌, All, inl, inr,
  arith,
}
use mathlib.Core.List.{append_assoc, append-nil}
use execution_accelerator.Llm.Redact.{
  Pattern, Text, redact_patterns, redact_prompt, without_secrets,
}

-- No pattern is found in a text.
abbrev pub IsClean : List Pattern → Text → Type 0
IsClean patterns text = All (λ p. p.search text ≡ false) patterns

append_filled : (xs : List String) (x : String) (ys : List String) → xs ++ (x ∷ ys) ≢ []
append_filled [] x ys h = ground (arith, h)
append_filled (z ∷ xs) x ys h = ground (arith, h)

-- The names that have matched are kept in front.
redact_patterns-prefix :
    (patterns : List Pattern) (text : Text) (matched : List String)
    → (new : List String) × ((redact_patterns patterns text matched).1 ≡ matched ++ new)
unfolding redact_patterns
redact_patterns-prefix [] text matched = ([], sym (append-nil matched))
redact_patterns-prefix (p ∷ ps) text matched = elim (Bool-cases (p.search text)) [
  | inl found ↦
      let (new, e) = redact_patterns-prefix ps (p.substitute text) (matched ++ (p.name ∷ [])) in
      (p.name ∷ new, rw (found, e) (append_assoc matched (p.name ∷ []) new))
  | inr missing ↦ rw missing (redact_patterns-prefix ps text matched)
]

redact_patterns-IsClean :
    (patterns : List Pattern) (text : Text)
    → (redact_patterns patterns text []).1 ≡ []
    → IsClean patterns text × ((redact_patterns patterns text []).0 ≡ text)
unfolding redact_patterns
redact_patterns-IsClean [] text h = (tt, refl)
redact_patterns-IsClean (p ∷ ps) text h = elim (Bool-cases (p.search text)) [
  | inl found ↦
      let (new, e) = redact_patterns-prefix ps (p.substitute text) (p.name ∷ []) in
      absurd (append_filled [] p.name new (sym e ∙ (rw found at h)))
  | inr missing ↦
      let rest = redact_patterns-IsClean ps text (rw missing at h) in
      ((missing, rest.0), rw missing rest.1)
]

redact_patterns-unmatched :
    (patterns : List Pattern) (text : Text)
    → IsClean patterns text
    → (redact_patterns patterns text []).1 ≡ []
unfolding redact_patterns
redact_patterns-unmatched [] text h = refl
redact_patterns-unmatched (p ∷ ps) text h = rw h.0 (redact_patterns-unmatched ps text h.1)

-- Redaction names no pattern exactly if none is found in the prompt whose secrets are replaced, and
-- then that is the prompt it returns.
pub redact_prompt-unmatched :
    (patterns : List Pattern) (extra_secrets : List Text) (prompt : Text)
    → let plain = without_secrets extra_secrets prompt in
      let redaction = redact_prompt patterns extra_secrets prompt in
      ((redaction.1 ≡ []) ↔ IsClean patterns plain) × ((redaction.1 ≡ []) → redaction.0 ≡ plain)
unfolding redact_prompt
redact_prompt-unmatched patterns extra_secrets prompt =
    let plain = without_secrets extra_secrets prompt in
    (
      (
        λ h. (redact_patterns-IsClean patterns plain h).0,
        λ c. redact_patterns-unmatched patterns plain c,
      ),
      λ h. (redact_patterns-IsClean patterns plain h).1,
    )
