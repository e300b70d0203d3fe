-- ===== src/Prelude/Sorting.antt =====
-- `order_by`: insertion sort by a Boolean order, and the orders of texts and of ids.
use Prim.Native.Nat.{ℕ, suc, Ordering}
use Prim.Native.String.{String, compare}
use mathlib.Core.Path.{◌≡◌, refl}
use mathlib.Core.Bool.{Bool, true, false, ◌&&◌, ◌||◌}
use mathlib.Core.List.{List, [], ◌∷◌}
use native.Mathlib.Omega.{arith}
use multi_tenant_file_delive.Prelude.Tests.{ltb, ◌==◌, nat_eq, if◌then◌else◌}
use multi_tenant_file_delive.Prelude.Lists.{count_p, length}

-- Lexicographic, by code points.
unfoldable pub text_leb : List ℕ → List ℕ → Bool
text_leb [] t = true
text_leb (a ∷ s) [] = false
text_leb (a ∷ s) (b ∷ t) = ltb a b || (a == b && text_leb s t)

abbrev pub str_leb : String → String → Bool
str_leb s t = elim (compare s t) [ Ordering.gt ↦ false | _ ↦ true ]

module _ {ℓ} {A : Type ℓ} (le : A → A → Bool) where
  unfoldable pub insert_by : A → List A → List A
  insert_by x [] = x ∷ []
  insert_by x (y ∷ ys) = let rest = insert_by x ys in if le x y then x ∷ y ∷ ys else y ∷ rest

  unfoldable pub sort_by : List A → List A
  unfolding insert_by
  sort_by [] = []
  sort_by (x ∷ xs) = insert_by x (sort_by xs)

  count_p-insert_by :
      (p : A → Bool) (x : A) (xs : List A) → count_p p (insert_by x xs) ≡ count_p p (x ∷ xs)
  unfolding insert_by
  count_p-insert_by p x [] = refl
  count_p-insert_by p x (y ∷ ys) = ground (arith, count_p-insert_by p x ys)

  -- Sorting keeps how many elements pass a test.
  pub count_p-sort_by : (p : A → Bool) (xs : List A) → count_p p (sort_by xs) ≡ count_p p xs
  unfolding sort_by
  count_p-sort_by p [] = refl
  count_p-sort_by p (x ∷ xs) =
      ground (arith, count_p-insert_by p x (sort_by xs), count_p-sort_by p xs)

  length-insert_by : (x : A) (xs : List A) → length (insert_by x xs) ≡ suc (length xs)
  unfolding insert_by
  length-insert_by x [] = refl
  length-insert_by x (y ∷ ys) = ground (arith, length-insert_by x ys)

  pub length-sort_by : (xs : List A) → length (sort_by xs) ≡ length xs
  unfolding sort_by
  length-sort_by [] = refl
  length-sort_by (x ∷ xs) = omega (arith, length-insert_by x (sort_by xs), length-sort_by xs)
