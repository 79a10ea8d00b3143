-- ===== src/Java/Matching.antt =====
-- The parenthesis that `_find_matching_parenthesis` finds is the first one at which the text is
-- balanced again.
use execution_accelerator.Prelude.{
  ℕ, suc, ◌+◌, ◌≤◌, ◌≡◌, ◌≢◌, refl, ap, ◌∙◌, ◌⊎◌, inl, inr, true, Bool-cases, some, List, [], ◌∷◌,
  ◌++◌, length, eqb, arith, if◌then◌else◌,
}
use execution_accelerator.Version.Parts.{ℤ, pos}
use execution_accelerator.Version.Range.{is_zero, pred, succ}
use execution_accelerator.Java.Parentheses.{find_matching_parenthesis, from_index, scan_parentheses}

-- The depth behind a character.
abbrev pub step : ℤ → ℕ → ℤ
step d c = if eqb c b'(' then succ d else if eqb c b')' then pred d else d

-- The depth behind a text: opening parentheses less closing ones.
unfoldable pub depth : ℤ → List ℕ → ℤ
depth d [] = d
depth d (c ∷ cs) = depth (step d c) cs

is_zero-pred : (d : ℤ) → is_zero (pred d) ≡ true → d ≡ pos 1
is_zero-pred d h = ground arith

-- A character either closes the text, or the loop goes on behind it.
scan-cons :
    (c : ℕ) (cs : List ℕ) (index : ℕ) (d : ℤ)
    → ((c ≡ b')') × (d ≡ pos 1) × (scan_parentheses (c ∷ cs) index d ≡ some index))
      ⊎ (((c ≡ b')') × (d ≡ pos 1) → ⊥)
          × (scan_parentheses (c ∷ cs) index d ≡ scan_parentheses cs (suc index) (step d c)))
unfolding scan_parentheses
scan-cons c cs index d = elim (Bool-cases (eqb c b'(')) [
  | inl opens ↦ inr (λ h. ground (arith, h, opens), rw opens refl)
  | inr other ↦ elim (Bool-cases (eqb c b')')) [
    | inr skipped ↦ inr (λ h. ground (arith, h, skipped), rw (other, skipped) refl)
    | inl closes ↦ elim (Bool-cases (is_zero (pred d))) [
      | inl zero_depth ↦
          inl
            (ground (arith, closes), is_zero-pred d zero_depth, rw (other, closes, zero_depth) refl)
      | inr deep ↦ inr (λ h. ground (arith, h, deep), rw (other, closes, deep) refl)
    ]
  ]
]

-- Where a text closes, reading from a depth.
abbrev ClosesAt : List ℕ → ℤ → List ℕ → List ℕ → Type 0
ClosesAt cs d before behind = (cs ≡ before ++ (b')' ∷ behind)) × (depth d before ≡ pos 1)

scan-empty : (index found : ℕ) (d : ℤ) → scan_parentheses [] index d ≢ some found
unfolding scan_parentheses
scan-empty index found d h = ground (arith, h)

scan_sound :
    (cs : List ℕ) (index : ℕ) (d : ℤ) (found : ℕ)
    → scan_parentheses cs index d ≡ some found
    → (before : List ℕ) × (behind : List ℕ) × ClosesAt cs d before behind
      × (found ≡ index + length before)
unfolding depth
scan_sound [] index d found h = absurd (scan-empty index found d h)
scan_sound (c ∷ cs) index d found h = elim (scan-cons c cs index d) [
  | inl (paren, one, e) ↦ ([], cs, (rw paren refl, one), ground (arith, h, e))
  | inr (still, e) ↦
      let (before, behind, closes, place) =
        scan_sound cs (suc index) (step d c) found (rw e at h) in
      (c ∷ before, behind, (ap (λ l. c ∷ l) closes.0, closes.1), omega arith)
]

-- A place at which the text closes is found, or one before it.
scan_complete :
    (before behind : List ℕ) (index : ℕ) (d : ℤ)
    → depth d before ≡ pos 1
    → (found : ℕ) × (scan_parentheses (before ++ (b')' ∷ behind)) index d ≡ some found)
      × (found ≤ index + length before)
unfolding depth
scan_complete [] behind index d one = elim (scan-cons b')' behind index d) [
  | inl (paren, at_one, e) ↦ (index, e, omega arith)
  | inr (still, e) ↦ absurd (still (refl, one))
]
scan_complete (c ∷ before) behind index d one =
    elim (scan-cons c (before ++ (b')' ∷ behind)) index d) [
      | inl (paren, at_one, e) ↦ (index, e, omega arith)
      | inr (still, e) ↦
          let (found, later, bound) = scan_complete before behind (suc index) (step d c) one in
          (found, e ∙ later, omega arith)
    ]

-- The parenthesis that is found closes the text from the given index on: it is a closing one, and
-- between the index and it, one opening parenthesis more than closing ones stands.
pub find_matching_parenthesis_lem :
    (text : List ℕ) (open_paren_index found : ℕ)
    → find_matching_parenthesis text open_paren_index ≡ some found
    → (before : List ℕ) × (behind : List ℕ) × (from_index open_paren_index text
        ≡ before ++ (b')' ∷ behind))
      × (depth (pos 0) before ≡ pos 1)
      × (found ≡ open_paren_index + length before)
unfolding find_matching_parenthesis
find_matching_parenthesis_lem text open_paren_index found h =
    let (before, behind, closes, place) =
      scan_sound (from_index open_paren_index text) open_paren_index (pos 0) found h in
    (before, behind, closes.0, closes.1, place)

-- Where the text from the given index on has a closing parenthesis behind a text with one opening
-- parenthesis more than closing ones, a parenthesis is found, and none behind that one.
pub find_matching_parenthesis_first :
    (text : List ℕ) (open_paren_index : ℕ) (before behind : List ℕ)
    → from_index open_paren_index text ≡ before ++ (b')' ∷ behind)
    → depth (pos 0) before ≡ pos 1
    → (found : ℕ) × (find_matching_parenthesis text open_paren_index ≡ some found)
      × (found ≤ open_paren_index + length before)
unfolding find_matching_parenthesis
find_matching_parenthesis_first text open_paren_index before behind split one =
    rw split (scan_complete before behind open_paren_index (pos 0) one)
