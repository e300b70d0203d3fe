-- ===== src/Text/Splitting.antt =====
-- `split` cuts at every separator, `join` puts the separators back.
use multi_tenant_file_delive.Prelude.{
  ℕ, ◌≡◌, ◌≢◌, refl, Bool, true, false, not, List, [], ◌∷◌, arith, ◌==◌, ==_refl, ◌++◌, nat_eq, all,
  All, if◌then◌else◌, Bool-cases, inl, inr,
}
use multi_tenant_file_delive.Text.{Text, split, push, join}

-- The separator does not occur in a text.
abbrev pub without : ℕ → Text → Bool
without sep = all (λ c. not (c == sep))

abbrev Without : ℕ → Text → Type 0
Without sep p = without sep p ≡ true

push-Without :
    (sep c : ℕ) (ps : List Text)
    → (c == sep) ≡ false
    → All (Without sep) ps
    → All (Without sep) (push c ps)
unfolding push
push-Without sep c [] h a = ground arith
push-Without sep c (p ∷ ps) h a = ground arith

-- No part that `split` returns contains the separator.
pub split-Without : (sep : ℕ) (s : Text) → All (λ p. without sep p ≡ true) (split sep s)
unfolding split
split-Without sep [] = (refl, tt)
split-Without sep (c ∷ s) = elim (Bool-cases (c == sep)) [
  | inl here ↦ rw here (refl, split-Without sep s)
  | inr more ↦ rw more (push-Without sep c (split sep s) more (split-Without sep s))
]

split-ne-nil : (sep : ℕ) (s : Text) → split sep s ≢ []
unfolding split push
split-ne-nil sep [] = ground arith
split-ne-nil sep (c ∷ s) = ground arith

-- One round of `split`, undone by `join`.
join-step :
    (sep c : ℕ) (parts : List Text)
    → parts ≢ []
    → join sep (if c == sep then [] ∷ parts else push c parts) ≡ c ∷ join sep parts
unfolding join push
join-step sep c [] h = absurd (h refl)
join-step sep c (p ∷ []) h = ground arith
join-step sep c (p ∷ q ∷ ps) h = ground arith

split-step : (sep c : ℕ) (s : Text) → join sep (split sep (c ∷ s)) ≡ c ∷ join sep (split sep s)
unfolding split
split-step sep c s = join-step sep c (split sep s) (split-ne-nil sep s)

-- Joining the parts of a split gives the text back.
pub join-split : (sep : ℕ) (s : Text) → join sep (split sep s) ≡ s
join-split sep [] = unfold split join in refl
join-split sep (c ∷ s) = rw (split-step sep c s) (rw (join-split sep s))

push-append : (c : ℕ) (ps qs : List Text) → ps ≢ [] → push c (ps ++ qs) ≡ push c ps ++ qs
unfolding push
push-append c [] qs h = absurd (h refl)
push-append c (p ∷ ps) qs h = refl

-- Splitting at a separator that stands between two texts.
pub split-append : (sep : ℕ) (a b : Text) → split sep (a ++ (sep ∷ b)) ≡ split sep a ++ split sep b
unfolding split
split-append sep [] b = rw (==_refl sep) refl
split-append sep (c ∷ a) b = elim (Bool-cases (c == sep)) [
  | inl here ↦ rw (here, split-append sep a b) refl
  | inr more ↦
      rw (more, split-append sep a b)
        (push-append c (split sep a) (split sep b) (split-ne-nil sep a))
]

split-whole : (sep : ℕ) (p : Text) → without sep p ≡ true → split sep p ≡ p ∷ []
unfolding split push
split-whole sep [] h = refl
split-whole sep (c ∷ p) h = elim (Bool-cases (c == sep)) [
  | inl here ↦ absurd (ground arith)
  | inr more ↦ rw (more, split-whole sep p (ground arith)) refl
]

-- Splitting the parts that were joined, where no part has the separator.
pub split-join :
    (sep : ℕ) (p : Text) (ps : List Text)
    → All (λ q. without sep q ≡ true) (p ∷ ps)
    → split sep (join sep (p ∷ ps)) ≡ p ∷ ps
unfolding join
split-join sep p [] h = split-whole sep p h.0
split-join sep p (q ∷ ps) h =
    rw (split-append sep p (join sep (q ∷ ps)), split-whole sep p h.0, split-join sep q ps h.1) refl
