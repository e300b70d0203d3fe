-- ===== src/Paths/Normal.antt =====
-- `os.path.join` and `os.path.normpath` of `posixpath` (Python 3.12).
pub mod Joining
use mathlib.Core.List.{reverse, append_assoc, reverse-cons, append-nil}
use multi_tenant_file_delive.Prelude.{
  ℕ, ◌≡◌, refl, sym, ap, ◌∙◌, Bool, true, false, not, ◌&&◌, ◌||◌, List, [], ◌∷◌, ◌++◌, ◌==◌,
  text_eq, nat_eq, keep, any, if◌then◌else◌, arith, Bool-cases, inl, inr, text_beq,
}
use multi_tenant_file_delive.Text.{Text, text, starts_with, ends_with, split, join, push}
use multi_tenant_file_delive.Paths.{slash, root, is_component}

-- `os.path.join(a, b)`
unfoldable pub join_path : Text → Text → Text
unfolding starts_with ends_with
join_path a b =
    if starts_with b (text "/")
    then b
    else if a == [] || ends_with a (text "/")
    then a ++ b
    else a ++ (slash ∷ b)

-- A `..`: it takes away the component before it, and stays where there is none to take away. The
-- components are in reverse.
abbrev pub climb : Bool → List Text → List Text
climb absolute [] = if absolute then [] else text ".." ∷ []
climb absolute (c ∷ cs) = if c == text ".." then text ".." ∷ c ∷ cs else cs

abbrev pub add_component : Bool → List Text → Text → List Text
add_component absolute stack c =
    if is_component c then (if c == text ".." then climb absolute stack else c ∷ stack) else stack

unfoldable pub add_components : Bool → List Text → List Text → List Text
add_components absolute stack [] = stack
add_components absolute stack (c ∷ cs) = add_components absolute (add_component absolute stack c) cs

abbrev pub is_absolute : Text → Bool
is_absolute p = not (root p == [])

-- The components that `normpath` keeps.
unfoldable pub normal_parts : Text → List Text
unfolding add_components root split
normal_parts p = reverse (add_components (is_absolute p) [] (split slash p))

abbrev pub or_dot : Text → Text
or_dot p = if p == [] then text "." else p

-- A root and the components behind it, as a path.
unfoldable pub render : Text → List Text → Text
unfolding join
render r parts = or_dot (r ++ join slash parts)

-- `os.path.normpath(p)`
unfoldable pub normpath : Text → Text
unfolding render normal_parts
normpath p = render (root p) (normal_parts p)

add_components-append :
    (absolute : Bool) (stack xs ys : List Text)
    → add_components absolute stack (xs ++ ys)
      ≡ add_components absolute (add_components absolute stack xs) ys
unfolding add_components
add_components-append absolute stack [] ys = refl
add_components-append absolute stack (x ∷ xs) ys =
    add_components-append absolute (add_component absolute stack x) xs ys

-- Components that do not climb are added on top.
add_components_down :
    (absolute : Bool) (stack xs : List Text)
    → any (λ c. c == text "..") xs ≡ false
    → reverse (add_components absolute stack xs) ≡ reverse stack ++ keep is_component xs
unfolding add_components
add_components_down absolute stack [] h = sym (append-nil _)
add_components_down absolute stack (x ∷ xs) h = elim (Bool-cases (is_component x)) [
  | inl real ↦
      rw (real, not_up)
        (add_components_down absolute (x ∷ stack) xs rest_down
          ∙ rw (reverse-cons x stack, append_assoc))
  | inr nothing ↦ rw nothing (add_components_down absolute stack xs rest_down)
]
  where
    not_up : (x == text "..") ≡ false
    not_up = ground arith

    rest_down : any (λ c. c == text "..") xs ≡ false
    rest_down = ground arith
