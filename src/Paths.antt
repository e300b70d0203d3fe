-- ===== src/Paths.antt =====
-- `pathlib.PurePosixPath` (Python 3.12), as far as the classifier uses it: a path is its root and
-- the components behind it, with empty components and `.` dropped.
pub mod Components
pub mod Normal
use multi_tenant_file_delive.Prelude.{
  ℕ, ◌+◌, Bool, true, false, not, ◌&&◌, ◌||◌, Option, none, some, List, [], ◌∷◌, ◌++◌, ◌==◌, nat_eq,
  text_eq, text_beq, length, keep, ltb, any, if◌then◌else◌,
}
use multi_tenant_file_delive.Text.{Text, text, starts_with, split, join, rfind, take, drop}

abbrev pub slash : ℕ
slash = b'/'

-- `/`, or `//` where the path begins with exactly two slashes.
unfoldable pub root : Text → Text
unfolding starts_with
root p =
    if starts_with p (text "//") && not (starts_with p (text "///"))
    then text "//"
    else if starts_with p (text "/")
    then text "/"
    else []

abbrev pub is_component : Text → Bool
is_component c = not (c == []) && not (c == text ".")

-- The components behind the root.
unfoldable pub tail : Text → List Text
unfolding split text_beq
tail p = keep is_component (split slash p)

-- `PurePosixPath(p).parts`
unfoldable pub parts : Text → List Text
unfolding root tail
parts p = if root p == [] then tail p else root p ∷ tail p

last_or_nil : List Text → Text
last_or_nil [] = []
last_or_nil (c ∷ []) = c
last_or_nil (c ∷ d ∷ cs) = last_or_nil (d ∷ cs)

-- `PurePosixPath(p).name`
unfoldable pub name : Text → Text
unfolding tail last_or_nil
name p = last_or_nil (tail p)

-- The index of the dot before the suffix: neither the first nor the last character.
unfoldable pub suffix_index : Text → Option ℕ
unfolding rfind
suffix_index n = elim (rfind b'.' n) [
  | some i ↦ if ltb 0 i && ltb (i + 1) (length n) then some i else none
  | none ↦ none
]

cut_suffix : Option ℕ → Text → Text
cut_suffix none n = []
cut_suffix (some i) n = drop i n

cut_stem : Option ℕ → Text → Text
cut_stem none n = n
cut_stem (some i) n = take i n

-- `PurePosixPath(p).suffix`
unfoldable pub suffix : Text → Text
unfolding cut_suffix
suffix p = cut_suffix (suffix_index (name p)) (name p)

-- `PurePosixPath(p).stem`
unfoldable pub stem : Text → Text
unfolding cut_stem
stem p = cut_stem (suffix_index (name p)) (name p)

init : List Text → List Text
init [] = []
init (c ∷ []) = []
init (c ∷ d ∷ cs) = c ∷ init (d ∷ cs)

-- `str(PurePosixPath(p).parent)`
unfoldable pub parent : Text → Text
unfolding root tail init join
parent p = let s = root p ++ join slash (init (tail p)) in if s == [] then text "." else s

-- `any(part == ".." for part in parts)`, the loop that looks for a step upwards.
unfoldable pub climbs : Text → Bool
unfolding parts text_beq
climbs p = any (λ part. part == text "..") (parts p)
