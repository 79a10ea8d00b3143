-- ===== src/Nodes/Recoverable.antt =====
-- nodes/validation.py: which failed validation is recoverable.
use execution_accelerator.Prelude.{
  ◌≡◌, refl, ◌↔◌, ◌⊎◌, inl, inr, Bool, true, false, List, [], ◌∷◌, All, All-at, All-intro, Member,
  any, Bool-cases, arith,
}
use execution_accelerator.Schemas.{RepositoryValidationResult, ValidationCheck}
use execution_accelerator.Nodes.Classify.{is_failed}
use execution_accelerator.Nodes.Validation.{
  is_recoverable_validation_failure, is_retryable_check, recoverable_checks,
}

-- A failed check among the checks.
abbrev pub AnyFailed : List ValidationCheck → Type 0
AnyFailed checks = (check : ValidationCheck) × Member check checks × (is_failed check.status ≡ true)

-- Each failed check is one that a retry may mend.
abbrev pub FailedRetryable : List ValidationCheck → Type 0
FailedRetryable checks =
    (check : ValidationCheck)
    → Member check checks
    → is_failed check.status ≡ true
    → is_retryable_check check ≡ true

-- The loop, by its first check.
loop-passed :
    (seen : Bool) (check : ValidationCheck) (checks : List ValidationCheck)
    → is_failed check.status ≡ false
    → recoverable_checks seen (check ∷ checks) ≡ recoverable_checks seen checks
unfolding recoverable_checks
loop-passed seen check checks h = rw h refl

loop-counted :
    (seen : Bool) (check : ValidationCheck) (checks : List ValidationCheck)
    → is_failed check.status ≡ true
    → is_retryable_check check ≡ true
    → recoverable_checks seen (check ∷ checks) ≡ recoverable_checks true checks
unfolding recoverable_checks
loop-counted seen check checks h r = ground (arith, h, r)

loop-stopped :
    (seen : Bool) (check : ValidationCheck) (checks : List ValidationCheck)
    → is_failed check.status ≡ true
    → is_retryable_check check ≡ false
    → recoverable_checks seen (check ∷ checks) ≡ false
unfolding recoverable_checks
loop-stopped seen check checks h r = ground (arith, h, r)

failed_of :
    (seen : Bool) (check : ValidationCheck) (checks : List ValidationCheck)
    → (seen ≡ true) ⊎ AnyFailed checks
    → (seen ≡ true) ⊎ AnyFailed (check ∷ checks)
failed_of seen check checks (inl h) = inl h
failed_of seen check checks (inr (c, m, f)) = inr (c, inr m, f)

recoverable_sound :
    (seen : Bool) (checks : List ValidationCheck)
    → recoverable_checks seen checks ≡ true
    → ((seen ≡ true) ⊎ AnyFailed checks) × FailedRetryable checks
unfolding recoverable_checks
recoverable_sound seen [] h = (inl h, λ c m f. absurd m)
recoverable_sound seen (check ∷ checks) h = elim (Bool-cases (is_failed check.status)) [
  | inr passed ↦
      let rest = recoverable_sound seen checks (rw (loop-passed seen check checks passed) at h) in
      (
        failed_of seen check checks rest.0,
        λ c m f. elim m [
          | inl p ↦ absurd (ground (arith, rw (← p) at f, passed))
          | inr n ↦ rest.1 c n f
        ],
      )
  | inl failed ↦ elim (Bool-cases (is_retryable_check check)) [
    | inr stuck ↦ absurd (ground (arith, h, loop-stopped seen check checks failed stuck))
    | inl mendable ↦
        let rest =
          recoverable_sound true checks
            (rw (loop-counted seen check checks failed mendable) at h) in
        (
          inr (check, inl refl, failed),
          λ c m f. elim m [ inl p ↦ rw (← p) mendable | inr n ↦ rest.1 c n f ],
        )
  ]
]

recoverable_complete :
    (seen : Bool) (checks : List ValidationCheck)
    → (seen ≡ true) ⊎ AnyFailed checks
    → FailedRetryable checks
    → recoverable_checks seen checks ≡ true
unfolding recoverable_checks
recoverable_complete seen [] (inl h) r = h
recoverable_complete seen [] (inr (c, m, f)) r = absurd m
recoverable_complete seen (check ∷ checks) some_failed r =
    elim (Bool-cases (is_failed check.status)) [
      | inl failed ↦
          rw (loop-counted seen check checks failed (r check (inl refl) failed))
            (recoverable_complete true checks (inl refl) (λ c m f. r c (inr m) f))
      | inr passed ↦ rw (loop-passed seen check checks passed) (
          recoverable_complete seen checks (failed_below some_failed passed)
            (λ c m f. r c (inr m) f))
    ]
  where
    failed_below :
        (seen ≡ true) ⊎ AnyFailed (check ∷ checks)
        → is_failed check.status ≡ false
        → (seen ≡ true) ⊎ AnyFailed checks
    failed_below (inl h) passed = inl h
    failed_below (inr (c, inl p, f)) passed = absurd (ground (arith, rw (← p) at f, passed))
    failed_below (inr (c, inr n, f)) passed = inr (c, n, f)

any-AnyFailed :
    (checks : List ValidationCheck)
    → any (λ check. is_failed check.status) checks ≡ true
    → AnyFailed checks
any-AnyFailed (check ∷ checks) h = elim (Bool-cases (is_failed check.status)) [
  | inl failed ↦ (check, inl refl, failed)
  | inr passed ↦ let (c, m, f) = any-AnyFailed checks (rw passed at h) in (c, inr m, f)
]
any-AnyFailed [] h = cc

AnyFailed-any :
    (checks : List ValidationCheck)
    → AnyFailed checks
    → any (λ check. is_failed check.status) checks ≡ true
AnyFailed-any [] (c, m, f) = absurd m
AnyFailed-any (check ∷ checks) (c, inl p, f) = ground (arith, rw (← p) at f)
AnyFailed-any (check ∷ checks) (c, inr m, f) = ground (arith, AnyFailed-any checks (c, m, f))

-- A check that did not fail, or that a retry may mend.
abbrev pub Mendable : ValidationCheck → Type 0
Mendable check = (is_failed check.status ≡ false) ⊎ (is_retryable_check check ≡ true)

Mendable-FailedRetryable :
    (checks : List ValidationCheck) → All Mendable checks → FailedRetryable checks
Mendable-FailedRetryable checks h c m f = ground (arith, All-at Mendable checks h c m, f)

FailedRetryable-Mendable :
    (checks : List ValidationCheck) → FailedRetryable checks → All Mendable checks
FailedRetryable-Mendable checks h =
    All-intro checks
      λ c m. elim (Bool-cases (is_failed c.status)) [ inl f ↦ inr (h c m f) | inr p ↦ inl p ]

-- A validation is recoverable exactly if some check failed and a retry may mend each failed check:
-- one failed check that no retry mends is enough to escalate.
pub is_recoverable_validation_failure_lem :
    (result : RepositoryValidationResult)
    → (is_recoverable_validation_failure result ≡ true)
      ↔ ((any (λ check. is_failed check.status) result.checks ≡ true) × All Mendable result.checks)
unfolding is_recoverable_validation_failure
is_recoverable_validation_failure_lem result = (
  λ h.
      let (found, all) = recoverable_sound false result.checks h in
      let any_failed : AnyFailed result.checks = elim found [
        | inl impossible ↦ absurd (ground (arith, impossible))
        | inr f ↦ f
      ] in
      (AnyFailed-any result.checks any_failed, FailedRetryable-Mendable result.checks all),
  λ h.
      recoverable_complete false result.checks (inr (any-AnyFailed result.checks h.0))
        (Mendable-FailedRetryable result.checks h.1),
)
