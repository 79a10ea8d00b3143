-- ===== src/Version/Parts.antt =====
-- `_normalize_parts` of services/version_range.py: a version as a list of numbers and words.
-- The patterns are read on ASCII text, where `\d` is 0-9.
use execution_accelerator.Prelude.{
  ℕ, ◌+◌, ◌-◌, ◌*◌, String, Bool, true, ◌&&◌, ◌||◌, List, [], ◌∷◌, codes, codes_eq, lower, strip,
  is_digit, is_letter, eqb, if◌then◌else◌,
}

-- `negsuc n` is -(n + 1).
pub data ℤ : Type 0 where
  pos : ℕ → ℤ
  negsuc : ℕ → ℤ

-- `int | str`, one part of a version
pub data Part : Type 0 where
  int : ℤ → Part
  str : List ℕ → Part

-- `_SPLIT_PATTERN`, one of `.`, `-`, `_` and `+`
abbrev is_separator : ℕ → Bool
is_separator c = eqb c b'.' || eqb c b'-' || eqb c b'_' || eqb c b'+'

-- `_SPLIT_PATTERN.split`: a separator ends a token, and tokens may be empty.
extend_token : ℕ → List (List ℕ) → List (List ℕ)
extend_token c [] = (c ∷ []) ∷ []
extend_token c (t ∷ ts) = (c ∷ t) ∷ ts

pub split_tokens : List ℕ → List (List ℕ)
unfolding extend_token
split_tokens [] = [] ∷ []
split_tokens (c ∷ cs) =
    if is_separator c then [] ∷ split_tokens cs else extend_token c (split_tokens cs)

-- `_TOKEN_PATTERN.findall`: the longest runs of digits or of letters; other characters are skipped.
abbrev same_class : ℕ → ℕ → Bool
same_class c d = (is_digit c && is_digit d) || (is_letter c && is_letter d)

extend_run : ℕ → List ℕ → List (List ℕ) → List (List ℕ)
extend_run c [] runs = (c ∷ []) ∷ runs
extend_run c (d ∷ ds) runs = if same_class c d then extend_token c runs else (c ∷ []) ∷ runs

pub find_pieces : List ℕ → List (List ℕ)
unfolding extend_run extend_token
find_pieces [] = []
find_pieces (c ∷ cs) =
    let runs = find_pieces cs in if is_digit c || is_letter c then extend_run c cs runs else runs

-- `_QUALIFIER_ORDER`
abbrev pub qualifier_order : List (String × ℤ)
qualifier_order =
    ("snapshot", negsuc 4)
    ∷ ("alpha", negsuc 3)
    ∷ ("a", negsuc 3)
    ∷ ("beta", negsuc 2)
    ∷ ("b", negsuc 2)
    ∷ ("milestone", negsuc 1)
    ∷ ("m", negsuc 1)
    ∷ ("rc", negsuc 0)
    ∷ ("cr", negsuc 0)
    ∷ ("", pos 0)
    ∷ ("final", pos 0)
    ∷ ("ga", pos 0)
    ∷ ("release", pos 0)
    ∷ ("sp", pos 1)
    ∷ []

-- `_QUALIFIER_ORDER.get(piece, piece)`
pub qualifier_part : List (String × ℤ) → List ℕ → Part
qualifier_part [] piece = str piece
qualifier_part ((name, order) ∷ rest) piece =
    if codes_eq (codes name) piece then int order else qualifier_part rest piece

-- `piece.isdigit()`
all_digits : List ℕ → Bool
all_digits [] = true
all_digits (c ∷ cs) = is_digit c && all_digits cs

-- `int(piece)`
digits_value : ℕ → List ℕ → ℕ
digits_value n [] = n
digits_value n (c ∷ cs) = digits_value (n * 10 + (c - b'0')) cs

-- A piece is never empty.
pub piece_part : List ℕ → Part
unfolding all_digits digits_value qualifier_part
piece_part piece =
    if all_digits piece
    then int (pos (digits_value 0 piece))
    else qualifier_part qualifier_order piece

token_parts : List (List ℕ) → List Part → List Part
token_parts [] rest = rest
token_parts (p ∷ ps) rest = piece_part p ∷ token_parts ps rest

tokens_parts : List (List ℕ) → List Part
unfolding token_parts
tokens_parts [] = []
tokens_parts ([] ∷ ts) = tokens_parts ts
tokens_parts ((c ∷ cs) ∷ ts) = token_parts (find_pieces (c ∷ cs)) (tokens_parts ts)

unfoldable pub normalize_parts : List ℕ → List Part
unfolding tokens_parts split_tokens find_pieces piece_part lower strip
normalize_parts version = tokens_parts (split_tokens (lower (strip version)))
