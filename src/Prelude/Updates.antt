-- ===== src/Prelude/Updates.antt =====
-- Updates of the rows that pass a test, and what they leave alone.

use mathlib.Core.Path.{◌≡◌, refl}
use mathlib.Core.Logic.{inl, inr}
use mathlib.Core.Bool.{Bool, true, false, ◌&&◌}
use mathlib.Core.Option.{some}
use mathlib.Core.List.{List, [], ◌∷◌, map}
use native.Mathlib.Omega.{arith}
use multi_tenant_file_delive.Prelude.Tests.{Bool-cases, if◌then◌else◌}
use multi_tenant_file_delive.Prelude.Lists.{count_p, keep, any, find, update_where}

module _ {ℓ} {A : Type ℓ} where
  pub update_where-cong :
      {p q : A → Bool} (f : A → A) (xs : List A)
      → ((x : A) → p x ≡ q x)
      → update_where p f xs ≡ update_where q f xs
  update_where-cong f [] h = refl
  update_where-cong f (x ∷ xs) h = rw (h x, update_where-cong f xs h) refl

  pub any-cong : {p q : A → Bool} (xs : List A) → ((x : A) → p x ≡ q x) → any p xs ≡ any q xs
  any-cong [] h = refl
  any-cong (x ∷ xs) h = rw (h x, any-cong xs h) refl

  pub any-updated :
      (p q : A → Bool) (f : A → A) (xs : List A)
      → ((x : A) → q (f x) ≡ q x)
      → any q (update_where p f xs) ≡ any q xs
  any-updated p q f [] h = refl
  any-updated p q f (x ∷ xs) h = ground (arith, h x, any-updated p q f xs h)

  pub update_where-twice :
      (p : A → Bool) (f : A → A) (xs : List A)
      → ((x : A) → p (f x) ≡ p x)
      → ((x : A) → f (f x) ≡ f x)
      → update_where p f (update_where p f xs) ≡ update_where p f xs
  update_where-twice p f [] h k = refl
  update_where-twice p f (x ∷ xs) h k = elim (Bool-cases (p x)) [
    | inl hit ↦ rw (hit, h x, hit, k x, update_where-twice p f xs h k) refl
    | inr miss ↦ rw (miss, miss, update_where-twice p f xs h k) refl
  ]

  -- An update of rows that all pass does not change which row is the first to pass.
  pub find-updated :
      (p q : A → Bool) (f : A → A) (xs : List A) (x : A)
      → ((y : A) → p y ≡ true → q y ≡ true)
      → ((y : A) → q (f y) ≡ q y)
      → find q xs ≡ some x
      → p x ≡ true
      → find q (update_where p f xs) ≡ some (f x)
  find-updated p q f [] x h k e hit = absurd (ground arith)
  find-updated p q f (y ∷ xs) x h k e hit = elim (Bool-cases (q y)) [
    | inl here ↦ let same : y ≡ x = ground arith in rw (same, hit, k x, rw same at here) refl
    | inr later ↦
        let unselected : p y ≡ false = ground (arith, h y) in
        rw (unselected, later) (find-updated p q f xs x h k (rw later at e) hit)
  ]

  -- How many of the kept elements pass a test.
  pub count_p-keep :
      (p q : A → Bool) (xs : List A) → count_p p (keep q xs) ≡ count_p (λ x. q x && p x) xs
  count_p-keep p q [] = refl
  count_p-keep p q (x ∷ xs) = ground (arith, count_p-keep p q xs)

  pub count_p-cong :
      {p q : A → Bool} (xs : List A) → ((x : A) → p x ≡ q x) → count_p p xs ≡ count_p q xs
  count_p-cong [] h = refl
  count_p-cong (x ∷ xs) h = rw (h x, count_p-cong xs h) refl

-- Lists mapped over.
module _ {A : Type 0} where
  pub map_id_lem : (xs : List A) → map (λ (x : A). x) xs ≡ xs
  map_id_lem [] = refl
  map_id_lem (x ∷ xs) = rw (map_id_lem xs)

  pub map_twice : (f g : A → A) (xs : List A) → map f (map g xs) ≡ map (λ x. f (g x)) xs
  map_twice f g [] = refl
  map_twice f g (x ∷ xs) = rw (map_twice f g xs)

  pub map_ext : {f g : A → A} → ((x : A) → f x ≡ g x) → (xs : List A) → map f xs ≡ map g xs
  map_ext h [] = refl
  map_ext h (x ∷ xs) = rw (h x, map_ext h xs)

  pub update_where-map :
      (p : A → Bool) (f : A → A) (xs : List A)
      → update_where p f xs ≡ map (λ x. if p x then f x else x) xs
  update_where-map p f [] = refl
  update_where-map p f (x ∷ xs) = rw (update_where-map p f xs)
