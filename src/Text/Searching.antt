-- ===== src/Text/Searching.antt =====
-- Where `rfind` stops, and what `starts_with` says.
use multi_tenant_file_delive.Prelude.{
  ℕ, zero, suc, ◌<◌, ◌≡◌, refl, some, true, List, [], ◌∷◌, ◌++◌, arith, length,
}
use multi_tenant_file_delive.Text.{Text, rfind, take, drop, starts_with}

pub rfind-lt-length : (c : ℕ) (s : Text) (i : ℕ) → rfind c s ≡ some i → i < length s
unfolding rfind
rfind-lt-length c [] i h = ground arith
rfind-lt-length c (x ∷ s) zero h = omega arith
rfind-lt-length c (x ∷ s) (suc i) h = ground (arith, rfind-lt-length c s i)

pub take-append-drop {ℓ} : {A : Type ℓ} (n : ℕ) (xs : List A) → take n xs ++ drop n xs ≡ xs
take-append-drop zero xs = refl
take-append-drop (suc n) [] = refl
take-append-drop (suc n) (x ∷ xs) = rw (take-append-drop n xs)

-- A text that starts with a prefix is the prefix and the rest.
pub starts_with-eq-append : (s p : Text) → starts_with s p ≡ true → p ++ drop (length p) s ≡ s
unfolding starts_with
starts_with-eq-append s [] h = refl
starts_with-eq-append [] (q ∷ p) h = ground arith
starts_with-eq-append (c ∷ s) (q ∷ p) h = ground (arith, starts_with-eq-append s p)
