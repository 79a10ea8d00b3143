-- ===== src/Java/Parentheses.antt =====
-- `_find_matching_parenthesis` of nodes/remediation.py: the place of the parenthesis that closes.
use execution_accelerator.Prelude.{
  ℕ, zero, suc, Option, none, some, List, [], ◌∷◌, eqb, if◌then◌else◌,
}
use execution_accelerator.Version.Parts.{ℤ, pos}
use execution_accelerator.Version.Range.{is_zero, pred, succ}

-- The loop from an index on. A closing parenthesis counts down, and the depth may fall below zero.
unfoldable pub scan_parentheses : List ℕ → ℕ → ℤ → Option ℕ
scan_parentheses [] index depth = none
scan_parentheses (c ∷ cs) index depth =
    let opened = scan_parentheses cs (suc index) (succ depth) in
    let closed = scan_parentheses cs (suc index) (pred depth) in
    let skipped = scan_parentheses cs (suc index) depth in
    if eqb c b'('
    then opened
    else if eqb c b')'
    then (if is_zero (pred depth) then some index else closed)
    else skipped

-- The rest of a text from an index on.
abbrev pub from_index : ℕ → List ℕ → List ℕ
from_index zero cs = cs
from_index (suc n) [] = []
from_index (suc n) (c ∷ cs) = from_index n cs

unfoldable pub find_matching_parenthesis : List ℕ → ℕ → Option ℕ
unfolding scan_parentheses
find_matching_parenthesis text open_paren_index =
    scan_parentheses (from_index open_paren_index text) open_paren_index (pos 0)
