-- ===== src/ToughPath/Difference.antt =====
-- What `diff_public_apis` finds.
use mathlib.Core.Path.{subst}
use text.Mathlib.TextEquality.{eq_iff}
use text.Mathlib.TextPositions.{eq_refl}
use execution_accelerator.Prelude.{
  ◌≡◌, refl, sym, ap, ◌∙◌, ◌↔◌, ◌⊎◌, inl, inr, String, true, false, Bool-cases, Option, none, some,
  List, [], ◌∷◌, Member, lookup, text_eq, map, arith,
}
use execution_accelerator.Java.Gathered.{IsDistinct}
use execution_accelerator.ToughPath.ApiDiff.{
  PublicApi, PublicSymbol, changed_symbols, diff_public_apis, missing_symbols, normalized_signature,
}

option_cases : {A : Type 0} (m : Option A) → (m ≡ none) ⊎ ((a : A) × (m ≡ some a))
option_cases none = inl refl
option_cases (some a) = inr (a, refl)

-- A symbol of one interface whose name the other one does not have.
abbrev pub IsMissing : PublicApi → PublicApi → PublicSymbol → Type 0
IsMissing other api s = (fqn : String) × Member (fqn, s) api × (lookup fqn other ≡ none)

-- Symbols of one name, of the old interface and of the new one, with different normalized
-- signatures: a run of blanks counts as one, and those at the ends do not count.
abbrev pub IsChanged : PublicApi → PublicApi → PublicSymbol → PublicSymbol → Type 0
IsChanged new old o n =
    (fqn : String) × Member (fqn, o) old
    × (lookup fqn new ≡ some n)
    × (text_eq (normalized_signature o) (normalized_signature n) ≡ false)

missing_symbols-lost :
    (other api : PublicApi) (fqn : String) (symbol : PublicSymbol)
    → lookup fqn other ≡ none
    → missing_symbols other ((fqn, symbol) ∷ api) ≡ symbol ∷ missing_symbols other api
unfolding missing_symbols
missing_symbols-lost other api fqn symbol e = rw (e, missing_symbols) refl

missing_symbols-kept :
    (other api : PublicApi) (fqn : String) (symbol a : PublicSymbol)
    → lookup fqn other ≡ some a
    → missing_symbols other ((fqn, symbol) ∷ api) ≡ missing_symbols other api
unfolding missing_symbols
missing_symbols-kept other api fqn symbol a e = rw (e, missing_symbols) refl

missing_symbols-IsMissing :
    (other api : PublicApi) (s : PublicSymbol)
    → Member s (missing_symbols other api) ↔ IsMissing other api s
unfolding missing_symbols
missing_symbols-IsMissing other [] s = (λ m. absurd m, λ (f, m, e). absurd m)
missing_symbols-IsMissing other ((fqn, symbol) ∷ api) s =
    let rest = missing_symbols-IsMissing other api s in
    elim (option_cases (lookup fqn other)) [
      | inl e ↦ rw (missing_symbols-lost other api fqn symbol e) (
        λ m. elim m [
          | inl p ↦ (fqn, inl (ap (λ x. (fqn, x)) p), e)
          | inr k ↦ let (f, n, q) = rest.0 k in (f, inr n, q)
        ],
        λ (f, m, q). elim m [ inl p ↦ inl (ap (λ x. x.1) p) | inr n ↦ inr (rest.1 (f, n, q)) ],
      )
      | inr (a, e) ↦ rw (missing_symbols-kept other api fqn symbol a e) (
        λ k. let (f, n, q) = rest.0 k in (f, inr n, q),
        λ (f, m, q). elim m [
          | inl p ↦
              let same : fqn ≡ f = ap (λ x. x.0) p in
              absurd (ground (arith, sym e ∙ (ap (λ x. lookup x other) same ∙ q)))
          | inr n ↦ rest.1 (f, n, q)
        ],
      )
    ]

changed_symbols-lost :
    (new api : PublicApi) (fqn : String) (symbol : PublicSymbol)
    → lookup fqn new ≡ none
    → changed_symbols new ((fqn, symbol) ∷ api) ≡ changed_symbols new api
unfolding changed_symbols
changed_symbols-lost new api fqn symbol e = rw (e, changed_symbols) refl

changed_symbols-same :
    (new api : PublicApi) (fqn : String) (symbol a : PublicSymbol)
    → lookup fqn new ≡ some a
    → text_eq (normalized_signature symbol) (normalized_signature a) ≡ true
    → changed_symbols new ((fqn, symbol) ∷ api) ≡ changed_symbols new api
unfolding changed_symbols
changed_symbols-same new api fqn symbol a e same = rw (e, changed_symbols) (rw same refl)

changed_symbols-other :
    (new api : PublicApi) (fqn : String) (symbol a : PublicSymbol)
    → lookup fqn new ≡ some a
    → text_eq (normalized_signature symbol) (normalized_signature a) ≡ false
    → changed_symbols new ((fqn, symbol) ∷ api) ≡ (symbol, a) ∷ changed_symbols new api
unfolding changed_symbols
changed_symbols-other new api fqn symbol a e other = rw (e, changed_symbols) (rw other refl)

-- A name has one symbol in an interface.
lookup-one :
    (new : PublicApi) (f g : String) (a : Option PublicSymbol) (b : Option PublicSymbol)
    → f ≡ g
    → lookup f new ≡ a
    → lookup g new ≡ b
    → a ≡ b
lookup-one new f g a b same e q = sym e ∙ (ap (λ x. lookup x new) same ∙ q)

module _ (new : PublicApi) where
  changed_symbols-IsChanged :
      (old : PublicApi) (o n : PublicSymbol)
      → Member (o, n) (changed_symbols new old) ↔ IsChanged new old o n
  unfolding changed_symbols
  changed_symbols-IsChanged [] o n = (λ m. absurd m, λ (f, m, e, d). absurd m)
  changed_symbols-IsChanged ((fqn, symbol) ∷ old) o n =
      let rest = changed_symbols-IsChanged old o n in
      let later : Member (o, n) (changed_symbols new old)
          → IsChanged new ((fqn, symbol) ∷ old) o n =
        λ k. let (f, m, q, d) = rest.0 k in (f, inr m, q, d) in
      elim (option_cases (lookup fqn new)) [
        | inl e ↦ rw (changed_symbols-lost new old fqn symbol e) (
          later,
          λ (f, m, q, d). elim m [
            | inl p ↦
                absurd (ground (arith, lookup-one new fqn f none (some n) (ap (λ x. x.0) p) e q))
            | inr k ↦ rest.1 (f, k, q, d)
          ],
        )
        | inr (a, e) ↦
            elim (Bool-cases (text_eq (normalized_signature symbol) (normalized_signature a))) [
              | inl same ↦ rw (changed_symbols-same new old fqn symbol a e same) (
                later,
                λ (f, m, q, d). elim m [
                  | inl p ↦
                      let found = lookup-one new fqn f (some a) (some n) (ap (λ x. x.0) p) e q in
                      absurd (ground (arith, same, d, ap (λ x. x.1) p, found))
                  | inr k ↦ rest.1 (f, k, q, d)
                ],
              )
              | inr other ↦ rw (changed_symbols-other new old fqn symbol a e other) (
                λ m. elim m [
                  | inl p ↦ (
                    fqn,
                    inl (ap (λ x. (fqn, x.0)) p),
                    e ∙ ap (λ x. some x.1) p,
                    subst
                        (λ x. text_eq (normalized_signature x.0) (normalized_signature x.1) ≡ false)
                        p other,
                  )
                  | inr k ↦ later k
                ],
                λ (f, m, q, d). elim m [
                  | inl p ↦
                      let found = lookup-one new fqn f (some a) (some n) (ap (λ x. x.0) p) e q in
                      inl (ground (arith, ap (λ x. x.1) p, found))
                  | inr k ↦ inr (rest.1 (f, k, q, d))
                ],
              )
            ]
      ]

-- A symbol is removed exactly if its name is missing from the new interface, added exactly if its
-- name is missing from the old one; and two symbols are a change exactly if they have one name in the
-- two interfaces and their normalized signatures differ.
pub diff_public_apis_lem :
    (old new : PublicApi)
    → let diff = diff_public_apis old new in
      ((s : PublicSymbol) → Member s diff.removed ↔ IsMissing new old s)
      × ((s : PublicSymbol) → Member s diff.added ↔ IsMissing old new s)
      × ((o n : PublicSymbol) → Member (o, n) diff.changed ↔ IsChanged new old o n)
unfolding diff_public_apis
diff_public_apis_lem old new = (
  missing_symbols-IsMissing new old,
  missing_symbols-IsMissing old new,
  changed_symbols-IsChanged new old,
)

-- The names of an interface.
abbrev pub names : PublicApi → List String
names api = map (λ x. x.0) api

names-Member :
    (api : PublicApi) (f : String) (s : PublicSymbol) → Member (f, s) api → Member f (names api)
names-Member [] f s m = m
names-Member (x ∷ api) f s (inl p) = inl (ap (λ y. y.0) p)
names-Member (x ∷ api) f s (inr m) = inr (names-Member api f s m)

lookup-Member :
    (api : PublicApi) (f : String) (s : PublicSymbol)
    → IsDistinct (names api)
    → Member (f, s) api
    → lookup f api ≡ some s
unfolding lookup
lookup-Member [] f s d m = absurd m
lookup-Member ((g, t) ∷ api) f s d (inl p) =
    let same : g ≡ f = ap (λ y. y.0) p in
    let found : t ≡ s = ap (λ y. y.1) p in rw (same, eq_refl f, found) refl
lookup-Member ((g, t) ∷ api) f s d (inr m) = elim (Bool-cases (text_eq g f)) [
  | inl e ↦
      absurd
        (d.0 (subst (λ h. Member h (names api)) (sym ((eq_iff g f).0 e)) (names-Member api f s m)))
  | inr other ↦ rw other (lookup-Member api f s d.1 m)
]

empty_of : {A : Type 0} (xs : List A) → ((x : A) → ¬ Member x xs) → xs ≡ []
empty_of [] h = refl
empty_of (x ∷ xs) h = absurd (h x (inl refl))

-- An interface whose names are distinct does not differ from itself.
pub diff_public_apis_self :
    (api : PublicApi)
    → IsDistinct (names api)
    → diff_public_apis api api ≡ record { removed = []; added = []; changed = [] }
unfolding diff_public_apis
diff_public_apis_self api d =
    let gone : missing_symbols api api ≡ [] = empty_of (missing_symbols api api) (λ s m.
      let (f, k, e) = (missing_symbols-IsMissing api api s).0 m in
      ground (arith, lookup-Member api f s d k, e)) in
    let still : changed_symbols api api ≡ [] = empty_of (changed_symbols api api) (λ (o, n) m.
      let (f, k, e, q) = (changed_symbols-IsChanged api api o n).0 m in
      let same : some o ≡ some n = sym (lookup-Member api f o d k) ∙ e in
      ground (arith, same, q, eq_refl (normalized_signature o))) in
    rw (gone, still) refl
