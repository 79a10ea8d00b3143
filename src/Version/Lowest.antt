-- ===== src/Version/Lowest.antt =====
-- `pick_lowest_fix_version` picks a lowest fix, and fails only where there is none.
use execution_accelerator.Prelude.{
  ℕ, ◌≡◌, sym, ◌≢◌, ◌↔◌, ◌⊎◌, inl, inr, Bool, true, false, Bool-cases, none, some, List, [], ◌∷◌,
  find?, Member, All, arith,
}
use execution_accelerator.Version.Compare.{Ordering, compare_versions}
use execution_accelerator.Version.Order.{compare_versions_flip, compare_versions-Coherent}
use execution_accelerator.Version.Range.{is_fix_version}
use execution_accelerator.Version.Select.{sorts_before, insert, sorted, pick_lowest_fix_version}

-- Not above.
abbrev pub AtMost : List ℕ → List ℕ → Type 0
AtMost v w = compare_versions v w ≢ Ordering.gt

abbrev IsSorted : List (List ℕ) → Type 0
IsSorted [] = Unit
IsSorted (v ∷ vs) = All (AtMost v) vs × IsSorted vs

AtMost-trans : (u v w : List ℕ) → AtMost u v → AtMost v w → AtMost u w
AtMost-trans u v w h k = ground (arith, compare_versions-Coherent u v w)

AtMost-refl : (v : List ℕ) → AtMost v v
AtMost-refl v = ground (arith, compare_versions_flip v v)

AtMost-of_lt : (v w : List ℕ) → sorts_before v w ≡ true → AtMost v w
AtMost-of_lt v w h = ground arith

AtMost-of_not_lt : (v w : List ℕ) → sorts_before w v ≡ false → AtMost v w
AtMost-of_not_lt v w h = ground (arith, compare_versions_flip v w)

All-insert :
    (P : List ℕ → Type 0) (v : List ℕ) (ws : List (List ℕ)) → P v → All P ws → All P (insert v ws)
unfolding insert
All-insert P v [] h k = (h, tt)
All-insert P v (w ∷ ws) h k = elim (Bool-cases (sorts_before w v)) [
  | inl e ↦ rw e (k.0, All-insert P v ws h k.1)
  | inr e ↦ rw e (h, k)
]

All-AtMost :
    (v w : List ℕ) (ws : List (List ℕ)) → AtMost v w → All (AtMost w) ws → All (AtMost v) ws
All-AtMost v w [] h k = tt
All-AtMost v w (x ∷ ws) h k = (AtMost-trans v w x h k.0, All-AtMost v w ws h k.1)

insert-IsSorted : (v : List ℕ) (ws : List (List ℕ)) → IsSorted ws → IsSorted (insert v ws)
unfolding insert
insert-IsSorted v [] h = (tt, tt)
insert-IsSorted v (w ∷ ws) h = elim (Bool-cases (sorts_before w v)) [
  | inl e ↦ rw e (All-insert (AtMost w) v ws (AtMost-of_lt w v e) h.0, insert-IsSorted v ws h.1)
  | inr e ↦ let first = AtMost-of_not_lt v w e in rw e ((first, All-AtMost v w ws first h.0), h)
]

sorted-IsSorted : (vs : List (List ℕ)) → IsSorted (sorted vs)
unfolding sorted
sorted-IsSorted [] = tt
sorted-IsSorted (v ∷ vs) = insert-IsSorted v (sorted vs) (sorted-IsSorted vs)

-- An insertion adds its element and keeps the others.
Member-insert :
    (u v : List ℕ) (ws : List (List ℕ)) → Member u (insert v ws) ↔ ((v ≡ u) ⊎ Member u ws)
unfolding insert
Member-insert u v [] = (λ m. m, λ m. m)
Member-insert u v (w ∷ ws) = elim (Bool-cases (sorts_before w v)) [
  | inl e ↦ rw e (
    λ m. elim m [
      | inl p ↦ inr (inl p)
      | inr n ↦ elim ((Member-insert u v ws).0 n) [ inl q ↦ inl q | inr q ↦ inr (inr q) ]
    ],
    λ m. elim m [
      | inl p ↦ inr ((Member-insert u v ws).1 (inl p))
      | inr n ↦ elim n [ inl q ↦ inl q | inr q ↦ inr ((Member-insert u v ws).1 (inr q)) ]
    ],
  )
  | inr e ↦ rw e (λ m. m, λ m. m)
]

Member-sorted : (u : List ℕ) (vs : List (List ℕ)) → Member u (sorted vs) ↔ Member u vs
unfolding sorted
Member-sorted u [] = (λ m. m, λ m. m)
Member-sorted u (v ∷ vs) = (
  λ m. elim ((Member-insert u v (sorted vs)).0 m) [
    | inl p ↦ inl p
    | inr n ↦ inr ((Member-sorted u vs).0 n)
  ],
  λ m.
      (Member-insert u v (sorted vs)).1
        (elim m [ inl p ↦ inl p | inr n ↦ inr ((Member-sorted u vs).1 n) ]),
)

All-Member : (P : List ℕ → Type 0) (vs : List (List ℕ)) (u : List ℕ) → All P vs → Member u vs → P u
All-Member P [] u h m = absurd m
All-Member P (v ∷ vs) u h m = elim m [ inl e ↦ rw (sym e) h.0 | inr n ↦ All-Member P vs u h.1 n ]

-- The first element that passes a test, in a sorted list.
find-lowest :
    (test : List ℕ → Bool) (vs : List (List ℕ)) {r : List ℕ}
    → IsSorted vs
    → find? test vs ≡ some r
    → Member r vs × (test r ≡ true) × ((v : List ℕ) → Member v vs → test v ≡ true → AtMost r v)
find-lowest test [] h e = cc
find-lowest test (w ∷ ws) {r} h e = elim (Bool-cases (test w)) [
  | inl t ↦
      let first : w ≡ r = ground (arith, e, t) in
      (
        inl first,
        rw (← first) t,
        λ v m k. elim m [
          | inl p ↦ rw (← first, ← p) (AtMost-refl w)
          | inr n ↦ rw (← first) (All-Member (AtMost w) ws v h.0 n)
        ],
      )
  | inr t ↦
      let rest = find-lowest test ws h.1 (rw t at e) in
      (inr rest.0, rest.1, λ v m k. elim m [ inl p ↦ absurd (cc (p, t, k)) | inr n ↦ rest.2 v n k ])
]

find-none :
    (test : List ℕ → Bool) (vs : List (List ℕ))
    → find? test vs ≡ none
    → (v : List ℕ) → Member v vs
    → test v ≡ false
find-none test [] e v m = absurd m
find-none test (w ∷ ws) e v m = elim (Bool-cases (test w)) [
  | inl t ↦ absurd (cc (rw t at e))
  | inr t ↦ elim m [ inl p ↦ rw (← p) t | inr n ↦ find-none test ws (rw t at e) v n ]
]

module _ (set_of : List (List ℕ) → List (List ℕ))
    (same_members : (v : List ℕ) (vs : List (List ℕ)) → Member v (set_of vs) ↔ Member v vs)
    (versions : List (List ℕ)) (current_version : List ℕ) (affected_ranges : List (List ℕ)) where
  -- The version that is picked is one of the given versions, is a fix, and no fix among the given
  -- versions is below it, whatever order the set is read in.
  pub pick_lowest_fix_version_lowest :
      (r v : List ℕ)
      → pick_lowest_fix_version set_of versions current_version affected_ranges ≡ some r
      → Member v versions
      → Member r versions
        × (is_fix_version r current_version affected_ranges ≡ true)
        × ((is_fix_version v current_version affected_ranges ≡ false)
            ⊎ (compare_versions r v ≢ Ordering.gt))
  unfolding pick_lowest_fix_version
  pick_lowest_fix_version_lowest r v e m =
      let found =
        find-lowest (λ v. is_fix_version v current_version affected_ranges)
          (sorted (set_of versions)) (sorted-IsSorted (set_of versions)) e in
      (
        (same_members r versions).0 ((Member-sorted r (set_of versions)).0 found.0),
        found.1,
        elim (Bool-cases (is_fix_version v current_version affected_ranges)) [
          | inl k ↦
              inr (
                found.2 v ((Member-sorted v (set_of versions)).1 ((same_members v versions).1 m)) k)
          | inr k ↦ inl k
        ],
      )

  -- Where nothing is picked, none of the given versions is a fix.
  pub pick_lowest_fix_version-none :
      pick_lowest_fix_version set_of versions current_version affected_ranges ≡ none
      → (v : List ℕ) → Member v versions
      → is_fix_version v current_version affected_ranges ≡ false
  unfolding pick_lowest_fix_version
  pick_lowest_fix_version-none e v m =
      find-none (λ w. is_fix_version w current_version affected_ranges) (sorted (set_of versions)) e
        v ((Member-sorted v (set_of versions)).1 ((same_members v versions).1 m))
