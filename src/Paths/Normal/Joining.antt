-- ===== src/Paths/Normal/Joining.antt =====
-- The normal form of a directory joined with a name that does not climb: `os.path.join` and
-- `os.path.normpath`.
use mathlib.Core.List.{reverse, reverse-cons, reverse-reverse, append_assoc}
use multi_tenant_file_delive.Prelude.{
  ◌≡◌, ◌≢◌, refl, sym, ap, ◌∙◌, Bool, true, false, List, [], ◌∷◌, ◌++◌, ◌==◌, text_eq, nat_eq, keep,
  any, arith, Bool-cases, inl, inr, text_beq,
}
use multi_tenant_file_delive.Text.{Text, text, starts_with, ends_with, split}
use multi_tenant_file_delive.Text.Splitting.{split-append}
use multi_tenant_file_delive.Paths.{slash, root, is_component}
use multi_tenant_file_delive.Paths.Normal.{
  join_path, add_components, add_components-append, add_components_down, is_absolute, normal_parts,
}

-- The root does not change when something follows that is no slash.
root-append :
    (dir t : Text) → dir ≢ [] → starts_with t (text "/") ≡ false → root (dir ++ t) ≡ root dir
unfolding root starts_with text_beq
root-append [] t some_text plain = absurd (some_text refl)
root-append (a ∷ []) [] some_text plain = refl
root-append (a ∷ []) (x ∷ t) some_text plain = ground arith
root-append (a ∷ b ∷ []) [] some_text plain = refl
root-append (a ∷ b ∷ []) (x ∷ t) some_text plain = ground arith
root-append (a ∷ b ∷ c ∷ d) t some_text plain = refl

-- Nor when a slash follows a name.
root-append-slash :
    (dir t : Text)
    → dir ≢ []
    → ends_with dir (text "/") ≡ false
    → root (dir ++ (slash ∷ t)) ≡ root dir
unfolding root starts_with ends_with text_beq
root-append-slash [] t some_text plain = absurd (some_text refl)
root-append-slash (a ∷ []) t some_text plain = ground arith
root-append-slash (a ∷ b ∷ []) t some_text plain = ground arith
root-append-slash (a ∷ b ∷ c ∷ d) t some_text plain = refl

leading_slash : (s : Text) → starts_with s (text "/") ≡ true → (t : Text) × (s ≡ slash ∷ t)
unfolding starts_with
leading_slash [] h = absurd (cc)
leading_slash (c ∷ s) h = (s, ground arith)

-- A directory that ends with a slash is something followed by it.
final_slash : (dir : Text) → ends_with dir (text "/") ≡ true → (d : Text) × (dir ≡ d ++ slash ∷ [])
unfolding ends_with
final_slash dir h =
    let (t, e) = leading_slash (reverse dir) h in
    (reverse t, sym (reverse-reverse dir) ∙ (ap reverse e ∙ reverse-cons slash t))

-- The components of a name that does not climb come behind those of the directory.
joined_parts :
    (absolute : Bool) (d name : Text)
    → any (λ c. c == text "..") (split slash name) ≡ false
    → reverse (add_components absolute [] (split slash (d ++ (slash ∷ name))))
      ≡ reverse (add_components absolute [] (split slash d)) ++ keep is_component (split slash name)
joined_parts absolute d name down =
    rw (split-append slash d name, add_components-append)
      (add_components_down absolute _ (split slash name) down)

-- A slash at the end adds nothing.
trailing_slash :
    (absolute : Bool) (d : Text)
    → add_components absolute [] (split slash (d ++ (slash ∷ [])))
      ≡ add_components absolute [] (split slash d)
trailing_slash absolute d = rw (split-append slash d [], add_components-append) nothing_more
  where
    nothing_more :
        add_components absolute (add_components absolute [] (split slash d)) (split slash [])
        ≡ add_components absolute [] (split slash d)
    nothing_more = unfold add_components split text_beq in refl

join_path-slashed :
    (dir name : Text)
    → starts_with name (text "/") ≡ false
    → ends_with dir (text "/") ≡ true
    → join_path dir name ≡ dir ++ name
unfolding join_path
join_path-slashed dir name relative slashed = rw (relative, slashed) (ground arith)

join_path-plain :
    (dir name : Text)
    → dir ≢ []
    → starts_with name (text "/") ≡ false
    → ends_with dir (text "/") ≡ false
    → join_path dir name ≡ dir ++ (slash ∷ name)
unfolding join_path text_beq
join_path-plain [] name some_text relative plain = absurd (some_text refl)
join_path-plain (a ∷ dir) name some_text relative plain = rw (relative, plain) refl

normal_parts_lem :
    (p : Text) → normal_parts p ≡ reverse (add_components (is_absolute p) [] (split slash p))
normal_parts_lem p = unfold normal_parts in refl

-- Joining a directory with a name that neither starts at the root nor climbs: the root is that of
-- the directory, and the components of the name come behind its own.
pub join_path-parts :
    (dir name : Text)
    → dir ≢ []
    → starts_with name (text "/") ≡ false
    → any (λ c. c == text "..") (split slash name) ≡ false
    → (root (join_path dir name) ≡ root dir)
      × (normal_parts (join_path dir name)
          ≡ normal_parts dir ++ keep is_component (split slash name))
join_path-parts dir name some_text relative down = elim (Bool-cases (ends_with dir (text "/"))) [
  | inl slashed ↦
      let (d, ends) = final_slash dir slashed in
      let same_root = root-append dir name some_text relative in
      let whole : dir ++ name ≡ d ++ (slash ∷ name) =
        ap (λ (p : Text). p ++ name) ends ∙ append_assoc d (slash ∷ []) name in
      let stacked =
        ap (λ (p : Text). add_components (is_absolute dir) [] (split slash p)) ends
        ∙ trailing_slash (is_absolute dir) d in
      rw (join_path-slashed dir name relative slashed) (
        same_root,
        rw
            (
              normal_parts_lem (dir ++ name),
              same_root,
              whole,
              normal_parts_lem dir,
              joined_parts (is_absolute dir) d name down,
            )
            (ap (λ (xs : List Text). reverse xs ++ keep is_component (split slash name))
              (sym stacked)),
      )
  | inr plain ↦
      let same_root = root-append-slash dir name some_text plain in
      rw (join_path-plain dir name some_text relative plain) (
        same_root,
        rw (normal_parts_lem (dir ++ (slash ∷ name)), same_root, normal_parts_lem dir)
            (joined_parts (is_absolute dir) dir name down),
      )
]
