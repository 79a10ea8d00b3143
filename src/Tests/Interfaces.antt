-- ===== src/Tests/Interfaces.antt =====
-- Interfaces of two versions.
use execution_accelerator.Prelude.{
  stripped, ◌≡◌, refl, ◌↔◌, inl, inr, String, [], ◌∷◌, Member, lookup, map,
}
use execution_accelerator.Java.Gathered.{IsDistinct}
use execution_accelerator.ToughPath.ApiDiff.{
  PublicApi, PublicSymbol, changed_symbols, diff_public_apis, missing_symbols, normalized_signature,
  to_diff_entries,
}
use execution_accelerator.ToughPath.Difference.{
  IsChanged, IsMissing, diff_public_apis_lem, diff_public_apis_self, names,
}

method : String → String → PublicSymbol
method fqn signature = record { fqn = fqn; kind = "method"; signature = signature }

old_api : PublicApi
old_api =
    ("A#run()", method "A#run()" "public void  run()")
    ∷ ("A#stop()", method "A#stop()" "public void stop()")
    ∷ []

new_api : PublicApi
new_api =
    ("A#run()", method "A#run()" "public void run()")
    ∷ ("A#stop()", method "A#stop()" "public int stop()")
    ∷ ("A#close()", method "A#close()" "public void close()")
    ∷ []

-- Blanks make no change; a type of the result does.
new_api-changes :
    map (λ e. e.impact) (to_diff_entries (diff_public_apis old_api new_api))
    ≡ "Signature changed from `public void stop()` to `public int stop()`."
      ∷ "Added in target version: public void close()" ∷ []
unfolding to_diff_entries diff_public_apis missing_symbols changed_symbols normalized_signature
    stripped lookup old_api new_api method
new_api-changes = refl

diff_public_apis_lem_example :
    let diff = diff_public_apis old_api new_api in
    ((s : PublicSymbol) → Member s diff.removed ↔ IsMissing new_api old_api s)
    × ((s : PublicSymbol) → Member s diff.added ↔ IsMissing old_api new_api s)
    × ((o n : PublicSymbol) → Member (o, n) diff.changed ↔ IsChanged new_api old_api o n)
diff_public_apis_lem_example = diff_public_apis_lem old_api new_api

old_api-IsDistinct : IsDistinct (names old_api)
unfolding old_api
old_api-IsDistinct = (λ m. elim m [ inl p ↦ cc | inr n ↦ n ], (λ m. m, tt))

diff_public_apis_self_example :
    diff_public_apis old_api old_api ≡ record { removed = []; added = []; changed = [] }
diff_public_apis_self_example = diff_public_apis_self old_api old_api-IsDistinct
