-- ===== src/Nodes/NextTarget.antt =====
-- nodes/delivery.py: the target at which the next repository begins (`_find_target_index`).
use execution_accelerator.Prelude.{
  ℕ, suc, ◌+◌, ◌≡◌, refl, ap, ◌⊎◌, inl, inr, Bool-cases, true, false, String, none, some, List, [],
  ◌∷◌, ◌++◌, All, length, text_eq, arith,
}
use execution_accelerator.Schemas.{RemediationTarget}
use execution_accelerator.State.{RemediationState}
use execution_accelerator.Nodes.Continuation.{find_target_index, target_index_from}

-- None of the targets is in the repository.
abbrev pub Elsewhere : String → List RemediationTarget → Type 0
Elsewhere name targets = All (λ target. text_eq target.repository_name name ≡ false) targets

-- A target in the repository, with none before it, and what is before it.
abbrev pub FirstIn : String → List RemediationTarget → List RemediationTarget → Type 0
FirstIn name targets before =
    (target : RemediationTarget) × (behind : List RemediationTarget) × (targets
      ≡ before ++ (target ∷ behind))
    × Elsewhere name before
    × (text_eq target.repository_name name ≡ true)

target_index_from_cases :
    (index : ℕ) (targets : List RemediationTarget) (name : String)
    → ((before : List RemediationTarget) × FirstIn name targets before
        × (target_index_from index targets name ≡ some (index + length before)))
      ⊎ (Elsewhere name targets × (target_index_from index targets name ≡ none))
unfolding target_index_from
target_index_from_cases index [] name = inr (tt, refl)
target_index_from_cases index (t ∷ targets) name =
    elim (Bool-cases (text_eq t.repository_name name)) [
      | inl here ↦ inl ([], (t, targets, refl, tt, here), rw here (ap some (omega arith)))
      | inr other ↦ elim (target_index_from_cases (suc index) targets name) [
        | inl (before, (target, behind, split, elsewhere, there), found) ↦ inl (
          t ∷ before,
          (target, behind, ap (λ l. t ∷ l) split, (other, elsewhere), there),
          rw (other, found) (ap some (omega arith)),
        )
        | inr (elsewhere, missing) ↦ inr ((other, elsewhere), rw (other, missing) refl)
      ]
    ]

-- The index is that of the first target in the repository; where there is none, it is kept.
abbrev pub PointsAt : RemediationState → String → ℕ → Type 0
PointsAt state name index =
    ((before : List RemediationTarget) × FirstIn name state.targets before
      × (index ≡ length before))
    ⊎ (Elsewhere name state.targets × (index ≡ state.current_target_index))

pub find_target_index-PointsAt :
    (state : RemediationState) (name : String) → PointsAt state name (find_target_index state name)
unfolding find_target_index
find_target_index-PointsAt state name = elim (target_index_from_cases 0 state.targets name) [
  | inl (before, first, found) ↦ inl (before, first, rw (found, find_target_index) (omega arith))
  | inr (elsewhere, missing) ↦ inr (elsewhere, rw (missing, find_target_index) refl)
]
