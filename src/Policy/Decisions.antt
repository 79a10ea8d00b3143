-- ===== src/Policy/Decisions.antt =====
-- policy/engine.py: when the policy blocks, and when it lets a remediation run unreviewed.
use execution_accelerator.Prelude.{
  String, ◌≡◌, refl, ◌↔◌, inl, inr, false, List, [], ◌∷◌, Member, keep, one_of, sort_texts,
  sort_texts-empty, Bool-cases, arith, Bool, Option, none, some,
}
use execution_accelerator.Schemas.{RemediationRouteDecision}
use execution_accelerator.Policy.{tagged}

keep-none :
    (tags wanted : List String)
    → keep (λ tag. one_of tag wanted) tags ≡ []
    → (tag : String) → Member tag tags
    → one_of tag wanted ≡ false
keep-none [] wanted e tag m = absurd m
keep-none (t ∷ tags) wanted e tag m = elim (Bool-cases (one_of t wanted)) [
  | inl h ↦ absurd (ground (arith, rw h at e))
  | inr h ↦ elim m [ inl p ↦ rw (← p) h | inr n ↦ keep-none tags wanted (rw h at e) tag n ]
]

none-keep :
    (tags wanted : List String)
    → ((tag : String) → Member tag tags → one_of tag wanted ≡ false)
    → keep (λ tag. one_of tag wanted) tags ≡ []
none-keep [] wanted h = refl
none-keep (t ∷ tags) wanted h = rw (h t (inl refl)) (none-keep tags wanted (λ tag m. h tag (inr m)))

pub tagged-none :
    (tags wanted : List String)
    → (tagged tags wanted ≡ []) ↔ ((tag : String) → Member tag tags → one_of tag wanted ≡ false)
unfolding sort_texts
tagged-none tags wanted =
    (λ e. keep-none tags wanted (sort_texts-empty _ e), λ h. rw (none-keep tags wanted h) refl)

-- The mark of a route, if there is one.
abbrev pub route_marked : Option RemediationRouteDecision → Bool
route_marked none = false
route_marked (some route) = route.requires_human_approval
