-- ===== src/Version/Select.antt =====
-- `pick_lowest_fix_version` of services/version_range.py. The order in which a Python set is read
-- is not specified, so it is a parameter; `sorted` is stable and asks only `_VersionSortKey.__lt__`.
use execution_accelerator.Prelude.{ℕ, Bool, Option, List, [], ◌∷◌, find?, if◌then◌else◌}
use execution_accelerator.Version.Compare.{compare_versions}
use execution_accelerator.Version.Range.{is_lt, is_fix_version}

-- `_VersionSortKey.__lt__`
abbrev pub sorts_before : List ℕ → List ℕ → Bool
sorts_before version other = is_lt (compare_versions version other)

unfoldable pub insert : List ℕ → List (List ℕ) → List (List ℕ)
insert v [] = v ∷ []
insert v (w ∷ ws) = if sorts_before w v then w ∷ insert v ws else v ∷ w ∷ ws

-- `sorted(versions, key=_VersionSortKey)`
unfoldable pub sorted : List (List ℕ) → List (List ℕ)
unfolding insert
sorted [] = []
sorted (v ∷ vs) = insert v (sorted vs)

-- The loop returns the first candidate that is a fix.
unfoldable pub pick_lowest_fix_version :
    (List (List ℕ) → List (List ℕ)) → List (List ℕ) → List ℕ → List (List ℕ) → Option (List ℕ)
pick_lowest_fix_version set_of versions current_version affected_ranges =
    find? (λ candidate. is_fix_version candidate current_version affected_ranges)
      (sorted (set_of versions))
