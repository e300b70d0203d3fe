-- ===== src/Paths/Components.antt =====
-- What the parts of a path look like.
use mathlib.Core.List.{append-nil}
use multi_tenant_file_delive.Prelude.{◌≡◌, refl, ◌++◌, text_eq, [], ◌∷◌, Option-cases, inl, inr}
use multi_tenant_file_delive.Text.{Text, text}
use multi_tenant_file_delive.Text.Searching.{take-append-drop}
use multi_tenant_file_delive.Paths.{name, suffix_index, suffix, stem, parts}

-- The stem followed by the suffix is the name.
pub stem-append-suffix : (p : Text) → stem p ++ suffix p ≡ name p
unfolding stem suffix
stem-append-suffix p = elim (Option-cases (suffix_index (name p))) [
  | inl whole ↦ rw (whole, append-nil)
  | inr (i, e) ↦ rw e (take-append-drop i (name p))
]

-- A name of the form `report.xlsx` inside two directories.
nested :
    (parts (text "acme/2024//./report.xlsx") ≡ text "acme" ∷ text "2024" ∷ text "report.xlsx" ∷ [])
    × (name (text "acme/2024//./report.xlsx") ≡ text "report.xlsx")
    × (stem (text "acme/report.xlsx") ≡ text "report")
    × (suffix (text ".bashrc") ≡ [])
unfolding parts name stem suffix suffix_index
nested = (refl, refl, refl, refl)
