-- ===== src/Prelude/Text.antt =====
-- Text: the native `String`, walked as a list of code points where the program looks inside.
-- `lower`, `strip` and `is_digit` are Python's on ASCII text.
use Prim.Native.Nat.{ℕ, suc, zero, ◌+◌, ◌/◌, ◌%◌}
use Prim.Native.Char.{Char, code}
use Prim.Native.String.{String}
use Prim.Native.String
use text.Mathlib.Text.{◌==◌ as str_eq, is_lt}
use mathlib.Core.Path.{◌≡◌, refl}
use native.Mathlib.Omega.{arith}
use mathlib.Core.Bool.{Bool, true, false, ◌&&◌, ◌||◌}
use mathlib.Core.List.{List, [], ◌∷◌, reverse}
use mathlib.Core.Option.{Option, none, some}
use execution_accelerator.Prelude.Tests.{leb, ltb, eqb, if◌then◌else◌}

abbrev pub text_eq : String → String → Bool
text_eq = str_eq

-- `x in {a, b, …}` over texts
abbrev pub one_of : String → List String → Bool
one_of s [] = false
one_of s (t ∷ ts) = str_eq s t || one_of s ts

-- The code points of a text.
abbrev pub codes : String → List ℕ
codes String.[] = []
codes (String.◌∷◌ c s) = code c ∷ codes s

-- Concatenation of the parts of an f-string.
abbrev pub concat : List String → String
concat [] = ""
concat (s ∷ ss) = String.◌++◌ s (concat ss)

-- `sep.join(parts)`
abbrev pub join : String → List String → String
join sep [] = ""
join sep (s ∷ ss) = elim ss [ [] ↦ s | _ ∷ _ ↦ String.◌++◌ s (String.◌++◌ sep (join sep ss)) ]

-- `s or default` for a text that may be missing or empty
abbrev pub or_text : Option String → String → String
or_text none d = d
or_text (some s) d = if str_eq s "" then d else s

abbrev pub is_upper : ℕ → Bool
is_upper c = leb b'A' c && leb c b'Z'

abbrev pub is_digit : ℕ → Bool
is_digit c = leb b'0' c && leb c b'9'

abbrev pub is_letter : ℕ → Bool
is_letter c = (leb b'a' c && leb c b'z') || (leb b'A' c && leb c b'Z')

abbrev pub is_space : ℕ → Bool
is_space c = (leb 9 c && leb c 13) || (leb 28 c && leb c 32)

-- `s.lower()`
unfoldable pub lower : List ℕ → List ℕ
lower [] = []
lower (c ∷ cs) = (if is_upper c then c + 32 else c) ∷ lower cs

abbrev pub codes_eq : List ℕ → List ℕ → Bool
codes_eq [] [] = true
codes_eq [] (d ∷ ds) = false
codes_eq (c ∷ cs) [] = false
codes_eq (c ∷ cs) (d ∷ ds) = eqb c d && codes_eq cs ds

abbrev is_prefix : List ℕ → List ℕ → Bool
is_prefix [] cs = true
is_prefix (n ∷ ns) [] = false
is_prefix (n ∷ ns) (c ∷ cs) = eqb n c && is_prefix ns cs

-- `needle in text`
unfoldable pub contains : List ℕ → List ℕ → Bool
contains needle [] = is_prefix needle []
contains needle (c ∷ cs) = is_prefix needle (c ∷ cs) || contains needle cs

unfoldable pub lstrip : List ℕ → List ℕ
lstrip [] = []
lstrip (c ∷ cs) = if is_space c then lstrip cs else c ∷ cs

-- `s.strip()`
unfoldable pub strip : List ℕ → List ℕ
unfolding lstrip
strip cs = reverse (lstrip (reverse (lstrip cs)))

pub strip_lem : (cs : List ℕ) → strip cs ≡ reverse (lstrip (reverse (lstrip cs)))
unfolding strip
strip_lem cs = refl

abbrev drop_spaces : String → String
drop_spaces String.[] = ""
drop_spaces (String.◌∷◌ c s) = if is_space (code c) then drop_spaces s else String.◌∷◌ c s

abbrev or_dropped : Char → String → String
or_dropped c String.[] = if is_space (code c) then "" else String.◌∷◌ c ""
or_dropped c (String.◌∷◌ d s) = String.◌∷◌ c (String.◌∷◌ d s)

abbrev drop_last_spaces : String → String
drop_last_spaces String.[] = ""
drop_last_spaces (String.◌∷◌ c s) = or_dropped c (drop_last_spaces s)

-- `text.strip()`, which the configuration of `BaseSchemaModel` does to each text of a schema.
unfoldable pub stripped : String → String
stripped s = drop_last_spaces (drop_spaces s)

digit_text : ℕ → String
digit_text zero = "0"
digit_text (suc zero) = "1"
digit_text (suc (suc zero)) = "2"
digit_text (suc (suc (suc zero))) = "3"
digit_text (suc (suc (suc (suc zero)))) = "4"
digit_text (suc (suc (suc (suc (suc zero))))) = "5"
digit_text (suc (suc (suc (suc (suc (suc zero)))))) = "6"
digit_text (suc (suc (suc (suc (suc (suc (suc zero))))))) = "7"
digit_text (suc (suc (suc (suc (suc (suc (suc (suc zero)))))))) = "8"
digit_text _ = "9"

-- One digit for each round; a number is below its own successor, so `suc n` rounds are enough.
decimal_rounds : ℕ → ℕ → String → String
decimal_rounds zero n rest = rest
decimal_rounds (suc f) n rest =
    let more = decimal_rounds f (n / 10) (String.◌++◌ (digit_text (n % 10)) rest) in
    if ltb n 10 then String.◌++◌ (digit_text n) rest else more

-- `str(n)`
unfoldable pub decimal : ℕ → String
unfolding decimal_rounds digit_text
decimal n = decimal_rounds (suc n) n ""

-- `d.get(key)`
unfoldable pub lookup {ℓ} : {V : Type ℓ} → String → List (String × V) → Option V
lookup key [] = none
lookup key ((k, v) ∷ rest) = if str_eq k key then some v else lookup key rest

-- `d[key] = value`: the place of a key that is there is kept.
unfoldable pub assign {ℓ} : {V : Type ℓ} → String → V → List (String × V) → List (String × V)
assign key value [] = (key, value) ∷ []
assign key value ((k, v) ∷ rest) =
    if str_eq k key then (k, value) ∷ rest else (k, v) ∷ assign key value rest

-- `[t for t in texts if t != s]`
unfoldable pub remove : String → List String → List String
remove s [] = []
remove s (t ∷ ts) = if str_eq s t then remove s ts else t ∷ remove s ts

-- Each text once, at its first place: `dict.fromkeys`, and a set of texts.
unfoldable pub distinct : List String → List String
distinct [] = []
distinct (s ∷ ss) = s ∷ remove s (distinct ss)

insert_text : String → List String → List String
insert_text s [] = s ∷ []
insert_text s (t ∷ ts) = if is_lt (String.compare t s) then t ∷ insert_text s ts else s ∷ t ∷ ts

-- `sorted(texts)`
unfoldable pub sort_texts : List String → List String
unfolding insert_text
sort_texts [] = []
sort_texts (s ∷ ss) = insert_text s (sort_texts ss)

insert_text-filled : (s : String) (ss : List String) → insert_text s ss ≡ [] → ⊥
unfolding insert_text
insert_text-filled s [] e = ground (arith, e)
insert_text-filled s (t ∷ ss) e = ground (arith, e)

-- Sorting loses nothing.
pub sort_texts-empty : (ss : List String) → sort_texts ss ≡ [] → ss ≡ []
unfolding sort_texts
sort_texts-empty [] e = refl
sort_texts-empty (s ∷ ss) e = absurd (insert_text-filled s (sort_texts ss) e)
