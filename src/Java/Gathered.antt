-- ===== src/Java/Gathered.antt =====
-- What the loops over symbol mappings gather: each rewrite of a related mapping, and each only once.
use mathlib.Core.Path.{subst}
use execution_accelerator.Prelude.{
  ◌≡◌, refl, sym, ◌↔◌, ◌⊎◌, inl, inr, Bool, true, false, Bool-cases, List, [], ◌∷◌, ◌++◌, any,
  Member, arith,
}
use execution_accelerator.Schemas.{SymbolMappingEntry}
use execution_accelerator.Java.Rewrites.{append_new, gather}

-- No element stands in a list twice.
abbrev pub IsDistinct : {A : Type 0} → List A → Type 0
IsDistinct [] = Unit
IsDistinct (x ∷ xs) = ¬ Member x xs × IsDistinct xs

Member-append :
    {A : Type 0} (r : A) (xs ys : List A) → Member r (xs ++ ys) ↔ (Member r xs ⊎ Member r ys)
Member-append r [] ys = (λ m. inr m, λ m. elim m [ inl n ↦ absurd n | inr k ↦ k ])
Member-append r (x ∷ xs) ys =
    let rest = Member-append r xs ys in
    (
      λ m. elim m [
        | inl p ↦ inl (inl p)
        | inr n ↦ elim (rest.0 n) [ inl k ↦ inl (inr k) | inr k ↦ inr k ]
      ],
      λ m. elim m [
        | inl n ↦ elim n [ inl p ↦ inl p | inr k ↦ inr (rest.1 (inl k)) ]
        | inr k ↦ inr (rest.1 (inr k))
      ],
    )

IsDistinct-snoc :
    {A : Type 0} (xs : List A) (x : A) → IsDistinct xs → ¬ Member x xs → IsDistinct (xs ++ (x ∷ []))
IsDistinct-snoc [] x d n = ((λ m. absurd m), tt)
IsDistinct-snoc (y ∷ xs) x d n = (
  λ m. elim ((Member-append y xs (x ∷ [])).0 m) [
    | inl k ↦ d.0 k
    | inr k ↦ elim k [ inl p ↦ n (inl (sym p)) | inr nothing ↦ nothing ]
  ],
  IsDistinct-snoc xs x d.1 (λ m. n (inr m)),
)

-- A rewrite of a mapping that counts.
abbrev pub IsCandidate :
    {A : Type 0}
    → (SymbolMappingEntry → Bool)
    → (SymbolMappingEntry → List A)
    → List SymbolMappingEntry
    → A
    → Type 0
IsCandidate related candidates ms r =
    (m : SymbolMappingEntry) × Member m ms × (related m ≡ true) × Member r (candidates m)

-- What a loop gathers from nothing.
abbrev pub Gathers :
    {A : Type 0}
    → (SymbolMappingEntry → Bool)
    → (SymbolMappingEntry → List A)
    → List SymbolMappingEntry
    → List A
    → Type 0
Gathers {A} related candidates ms rewrites =
    IsDistinct rewrites × ((r : A) → Member r rewrites ↔ IsCandidate related candidates ms r)

module _ {A : Type 0} (same : A → A → Bool)
    (same_iff : (x y : A) → (same x y ≡ true) ↔ (x ≡ y)) where
  any-Member : (x : A) (xs : List A) → any (same x) xs ≡ true → Member x xs
  any-Member x [] h = cc
  any-Member x (y ∷ xs) h = elim (Bool-cases (same x y)) [
    | inl e ↦ inl (sym ((same_iff x y).0 e))
    | inr e ↦ inr (any-Member x xs (rw e at h))
  ]

  Member-any : (x : A) (xs : List A) → any (same x) xs ≡ false → ¬ Member x xs
  Member-any x [] h m = m
  Member-any x (y ∷ xs) h m = elim (Bool-cases (same x y)) [
    | inl e ↦ ground (arith, h, e)
    | inr e ↦ elim m [
      | inl p ↦ ground (arith, e, (same_iff x y).1 (sym p))
      | inr k ↦ Member-any x xs (rw e at h) k
    ]
  ]

  append_new-Member :
      (r : A) (xs acc : List A) → Member r (append_new same xs acc) ↔ (Member r acc ⊎ Member r xs)
  unfolding append_new
  append_new-Member r [] acc = (λ m. inl m, λ m. elim m [ inl k ↦ k | inr k ↦ absurd k ])
  append_new-Member r (x ∷ xs) acc = elim (Bool-cases (any (same x) acc)) [
    | inl there ↦
        let rest = append_new-Member r xs acc in
        rw there (
          λ m. elim (rest.0 m) [ inl k ↦ inl k | inr k ↦ inr (inr k) ],
          λ m. elim m [
            | inl k ↦ rest.1 (inl k)
            | inr k ↦ elim k [
              | inl p ↦ rest.1 (inl (subst (λ y. Member y acc) p (any-Member x acc there)))
              | inr n ↦ rest.1 (inr n)
            ]
          ],
        )
    | inr missing ↦
        let rest = append_new-Member r xs (acc ++ (x ∷ [])) in
        let added = Member-append r acc (x ∷ []) in
        rw missing (
          λ m. elim (rest.0 m) [
            | inl k ↦ elim (added.0 k) [
              | inl n ↦ inl n
              | inr n ↦ elim n [ inl p ↦ inr (inl p) | inr nothing ↦ absurd nothing ]
            ]
            | inr k ↦ inr (inr k)
          ],
          λ m. elim m [
            | inl k ↦ rest.1 (inl (added.1 (inl k)))
            | inr k ↦ elim k [
              | inl p ↦ rest.1 (inl (added.1 (inr (inl p))))
              | inr n ↦ rest.1 (inr n)
            ]
          ],
        )
  ]

  append_new-IsDistinct : (xs acc : List A) → IsDistinct acc → IsDistinct (append_new same xs acc)
  unfolding append_new
  append_new-IsDistinct [] acc d = d
  append_new-IsDistinct (x ∷ xs) acc d = elim (Bool-cases (any (same x) acc)) [
    | inl there ↦ rw there (append_new-IsDistinct xs acc d)
    | inr missing ↦ rw missing (
        append_new-IsDistinct xs (acc ++ (x ∷ []))
          (IsDistinct-snoc acc x d (Member-any x acc missing)))
  ]

  gather-Member :
      (related : SymbolMappingEntry → Bool) (candidates : SymbolMappingEntry → List A) (r : A)
      (ms : List SymbolMappingEntry) (acc : List A)
      → Member r (gather same related candidates ms acc)
        ↔ (Member r acc ⊎ IsCandidate related candidates ms r)
  unfolding gather
  gather-Member related candidates r [] acc =
      (λ m. inl m, λ m. elim m [ inl k ↦ k | inr (c, k, p, n) ↦ absurd k ])
  gather-Member related candidates r (c ∷ ms) acc = elim (Bool-cases (related c)) [
    | inl rel ↦
        let rest = gather-Member related candidates r ms (append_new same (candidates c) acc) in
        let added = append_new-Member r (candidates c) acc in
        rw rel (
          λ m. elim (rest.0 m) [
            | inl k ↦ elim (added.0 k) [ inl n ↦ inl n | inr n ↦ inr (c, inl refl, rel, n) ]
            | inr (d, k, p, n) ↦ inr (d, inr k, p, n)
          ],
          λ m. elim m [
            | inl k ↦ rest.1 (inl (added.1 (inl k)))
            | inr (d, inl p, q, n) ↦
                rest.1 (inl (added.1 (inr (subst (λ x. Member r (candidates x)) (sym p) n))))
            | inr (d, inr k, q, n) ↦ rest.1 (inr (d, k, q, n))
          ],
        )
    | inr unrelated ↦
        let rest = gather-Member related candidates r ms acc in
        rw unrelated (
          λ m. elim (rest.0 m) [ inl k ↦ inl k | inr (d, k, p, n) ↦ inr (d, inr k, p, n) ],
          λ m. elim m [
            | inl k ↦ rest.1 (inl k)
            | inr (d, inl p, q, n) ↦
                absurd (ground (arith, unrelated, subst (λ x. related x ≡ true) (sym p) q))
            | inr (d, inr k, q, n) ↦ rest.1 (inr (d, k, q, n))
          ],
        )
  ]

  gather-IsDistinct :
      (related : SymbolMappingEntry → Bool) (candidates : SymbolMappingEntry → List A)
      (ms : List SymbolMappingEntry) (acc : List A)
      → IsDistinct acc
      → IsDistinct (gather same related candidates ms acc)
  unfolding gather
  gather-IsDistinct related candidates [] acc d = d
  gather-IsDistinct related candidates (c ∷ ms) acc d = elim (Bool-cases (related c)) [
    | inl rel ↦ rw rel (
        gather-IsDistinct related candidates ms (append_new same (candidates c) acc)
          (append_new-IsDistinct (candidates c) acc d))
    | inr unrelated ↦ rw unrelated (gather-IsDistinct related candidates ms acc d)
  ]

  pub gather-Gathers :
      (related : SymbolMappingEntry → Bool) (candidates : SymbolMappingEntry → List A)
      (ms : List SymbolMappingEntry)
      → Gathers related candidates ms (gather same related candidates ms [])
  gather-Gathers related candidates ms = (
    gather-IsDistinct related candidates ms [] tt,
    λ r.
        let all = gather-Member related candidates r ms [] in
        (λ m. elim (all.0 m) [ inl nothing ↦ absurd nothing | inr c ↦ c ], λ c. all.1 (inr c)),
  )
