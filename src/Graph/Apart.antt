-- ===== src/Graph/Apart.antt =====
-- Lists of repositories with nothing in common, and what a finished repository leaves of them
-- (`_build_repo_continuation_update` of nodes/delivery.py).
use execution_accelerator.Prelude.{
  ◌≡◌, refl, false, inl, inr, Bool-cases, String, List, [], ◌∷◌, ◌++◌, All, arith, one_of, remove,
}
use execution_accelerator.State.{RemediationState}
use execution_accelerator.Nodes.Continuation.{completed_with, pending_without}

-- No text of the first list stands in the second one.
abbrev pub IsApart : List String → List String → Type 0
IsApart completed pending = All (λ r. one_of r pending ≡ false) completed

remove-one_of :
    (r x : String) (ps : List String) → one_of x ps ≡ false → one_of x (remove r ps) ≡ false
unfolding remove
remove-one_of r x [] h = refl
remove-one_of r x (p ∷ ps) h = ground (arith, h, remove-one_of r x ps)

remove_gone : (r : String) (ps : List String) → one_of r (remove r ps) ≡ false
unfolding remove
remove_gone r [] = refl
remove_gone r (p ∷ ps) = ground (arith, remove_gone r ps)

remove-IsApart :
    (r : String) (completed pending : List String)
    → IsApart completed pending
    → IsApart completed (remove r pending)
remove-IsApart r [] pending h = tt
remove-IsApart r (x ∷ completed) pending h =
    (remove-one_of r x pending h.0, remove-IsApart r completed pending h.1)

append-IsApart :
    (r : String) (completed pending : List String)
    → IsApart completed pending
    → one_of r pending ≡ false
    → IsApart (completed ++ (r ∷ [])) pending
append-IsApart r [] pending h e = (e, tt)
append-IsApart r (x ∷ completed) pending h e = (h.0, append-IsApart r completed pending h.1 e)

pub completed_with-IsApart :
    (s : RemediationState) (r : String)
    → IsApart s.completed_repos s.pending_repos
    → IsApart (completed_with s r) (pending_without s r)
completed_with-IsApart s r h =
    let kept = remove-IsApart r s.completed_repos s.pending_repos h in
    elim (Bool-cases (one_of r s.completed_repos)) [
      | inl there ↦ rw there kept
      | inr missing ↦ rw missing (
          append-IsApart r s.completed_repos (remove r s.pending_repos) kept
            (remove_gone r s.pending_repos))
    ]
