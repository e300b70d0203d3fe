-- ===== src/Uploader/Chunks.antt =====
-- The chunks of a file: `_iter_chunks` of control-plane/app/services/s3_uploader.py.
use native.Mathlib.Nat.{zero-add}
use multi_tenant_file_delive.Prelude.{
  ℕ, zero, suc, ◌+◌, ◌-◌, ◌<◌, ◌≤◌, ◌≡◌, refl, sym, ap, ◌∙◌, true, Option, some, List, [], ◌∷◌,
  ◌++◌, arith, length, length-append, ltb, Bool-cases, inl, inr,
}
use multi_tenant_file_delive.Text.{take, drop}
use multi_tenant_file_delive.Text.Searching.{take-append-drop}
use multi_tenant_file_delive.Uploader.{Bytes, chunks_from, iter_chunks}

abbrev pub concat : List Bytes → Bytes
concat [] = []
concat (c ∷ cs) = c ++ concat cs

-- All chunks but the last are full, and none is empty.
abbrev pub IsCut : ℕ → List Bytes → Type 0
IsCut size [] = Unit {0}
IsCut size (c ∷ []) = (0 < length c) × (length c ≤ size)
IsCut size (c ∷ d ∷ cs) = (length c ≡ size) × IsCut size (d ∷ cs)

abbrev nothing : {A : Type 0} → List A
nothing = []

module _ {A : Type 0} where
  drop-nil : (n : ℕ) → drop n (nothing {A = A}) ≡ nothing
  drop-nil zero = refl
  drop-nil (suc n) = refl

  drop-drop : (m n : ℕ) (xs : List A) → drop n (drop m xs) ≡ drop (m + n) xs
  drop-drop zero n xs = rw zero-add refl
  drop-drop (suc m) n [] = drop-nil n ∙ sym (drop-nil (suc m + n))
  drop-drop (suc m) n (x ∷ xs) =
      let e : suc m + n ≡ suc (m + n) = omega arith in rw e (drop-drop m n xs)

  length-drop : (n : ℕ) (xs : List A) → length (drop n xs) ≡ length xs - n
  length-drop zero xs = omega arith
  length-drop (suc n) [] = omega arith
  length-drop (suc n) (x ∷ xs) = omega (arith, length-drop n xs)

  length-take_le : (n : ℕ) (xs : List A) → length (take n xs) ≤ n
  length-take_le zero xs = omega arith
  length-take_le (suc n) [] = omega arith
  length-take_le (suc n) (x ∷ xs) = omega (arith, length-take_le n xs)

nonempty_cut :
    (size : ℕ) (d : Bytes) (cs : List Bytes) → 0 < size → IsCut size (d ∷ cs) → 0 < length d
nonempty_cut size d [] h cut = cut.0
nonempty_cut size d (e ∷ cs) h cut = omega arith

-- How long the two halves of a text are.
halves :
    (size : ℕ) (xs : Bytes)
    → (length (take size xs) + length (drop size xs) ≡ length xs)
      × (length (drop size xs) ≡ length xs - size)
      × (length (take size xs) ≤ size)
halves size xs = (
  sym (length-append (take size xs) (drop size xs)) ∙ ap length (take-append-drop size xs),
  length-drop size xs,
  length-take_le size xs,
)

-- One chunk more, in front of what is cut already.
IsCut-more :
    (size : ℕ) (xs : Bytes) (cs : List Bytes)
    → 0 < size
    → 0 < length xs
    → concat cs ≡ drop size xs
    → IsCut size cs
    → IsCut size (take size xs ∷ cs)
IsCut-more size xs [] pos some_left rest cut =
    omega (arith, halves size xs, ap (λ (t : Bytes). length t) rest)
IsCut-more size xs (d ∷ cs) pos some_left rest cut = (
  omega (
    arith,
    halves size xs,
    ap (λ (t : Bytes). length t) rest,
    length-append d (concat cs),
    nonempty_cut size d cs pos cut,
  ),
  cut,
)

-- What the loop yields from an offset on, if the fuel is more than the bytes that are left.
record Cuts (content : Bytes) (size offset : ℕ) (result : Option (List Bytes)) (cs : List Bytes)
    : Type 0 where
  yields : result ≡ some cs
  whole : concat cs ≡ drop offset content
  cut : IsCut size cs

drop-all : (n : ℕ) (xs : Bytes) → length xs ≤ n → drop n xs ≡ []
drop-all zero [] h = refl
drop-all zero (x ∷ xs) h = absurd (omega arith)
drop-all (suc n) [] h = refl
drop-all (suc n) (x ∷ xs) h = drop-all n xs (omega arith)

chunks_from-Cuts :
    (fuel offset : ℕ) (content : Bytes) (size : ℕ)
    → 0 < size
    → length content - offset < fuel
    → (cs : List Bytes) × Cuts content size offset (chunks_from fuel offset content size) cs
unfolding chunks_from
chunks_from-Cuts zero offset content size pos enough = absurd (omega arith)
chunks_from-Cuts (suc fuel) offset content size pos enough =
    elim (Bool-cases (ltb offset (length content))) [
      | inr over ↦ (
        [],
        record {
          yields = rw over refl;
          whole = sym (drop-all offset content (ground arith));
          cut = tt;
        },
      )
      | inl more ↦
          let (cs, ih) = chunks_from-Cuts fuel (offset + size) content size pos (fewer more) in
          let rest = drop offset content in
          let next = ih.whole ∙ sym (drop-drop offset size content) in
          (
            take size rest ∷ cs,
            record {
              yields = rw (more, ih.yields) refl;
              whole = ap (λ (t : Bytes). take size rest ++ t) next ∙ take-append-drop size rest;
              cut = IsCut-more size rest cs pos (left more) next ih.cut;
            },
          )
    ]
  where
    fewer : ltb offset (length content) ≡ true → length content - (offset + size) < fuel
    fewer more = ground arith

    left : ltb offset (length content) ≡ true → 0 < length (drop offset content)
    left more = ground (arith, length-drop offset content)

-- Cutting ends, with the fuel that it is given, for every positive size; the chunks in their order are
-- the file, none is empty or longer than the size, and all but the last have exactly the size.
pub iter_chunks-roundtrip :
    (content : Bytes) (size : ℕ)
    → 0 < size
    → (cs : List Bytes) × (iter_chunks content size ≡ some cs)
      × (concat cs ≡ content)
      × IsCut size cs
unfolding iter_chunks
iter_chunks-roundtrip content size pos =
    let (cs, cuts) = chunks_from-Cuts (suc (length content)) 0 content size pos (omega arith) in
    (cs, cuts.yields, cuts.whole, cuts.cut)
