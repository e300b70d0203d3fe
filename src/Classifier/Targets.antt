-- ===== src/Classifier/Targets.antt =====
-- `_extract_target_raw`, `_filename_segment` and `_resolve_target` of
-- control-plane/app/services/classifier.py.
use multi_tenant_file_delive.Prelude.{
  ℕ, String, Bool, true, false, ◌&&◌, Option, none, some, List, [], ◌∷◌, ◌==◌, string_eq, nat_eq,
  text_eq, length, zero, suc, any, if◌then◌else◌,
}
use multi_tenant_file_delive.Text.{Text, starts_with, strip, push, lstrip_by, is_space}
use multi_tenant_file_delive.Paths.{parts, stem}
use multi_tenant_file_delive.Classifier.Profile.{ProfileConfig, TargetConfig, Delimiter}
use multi_tenant_file_delive.Classifier.Python.{Python}

-- `re.split` on the alternation of the escaped delimiters: at each position the first delimiter
-- that matches is taken. The number counts the characters of a match that are still to be skipped.
match_delimiter : List Delimiter → Text → Option ℕ
match_delimiter [] s = none
match_delimiter ((c, cs) ∷ ds) s =
    if starts_with s (c ∷ cs) then some (length cs) else match_delimiter ds s

unfoldable pub split_any : ℕ → List Delimiter → Text → List Text
unfolding match_delimiter push
split_any skip ds [] = [] ∷ []
split_any (suc skip) ds (c ∷ s) = split_any skip ds s
split_any zero ds (c ∷ s) = elim (match_delimiter ds (c ∷ s)) [
  | some more ↦ [] ∷ split_any more ds s
  | none ↦ push c (split_any zero ds s)
]

-- `segments[-1]`, where there are at least two.
last_segment : List Text → Option Text
last_segment [] = none
last_segment (s ∷ []) = none
last_segment (s ∷ t ∷ []) = some t
last_segment (s ∷ t ∷ u ∷ ss) = last_segment (t ∷ u ∷ ss)

if_not_empty : Option Text → Text × String
unfolding strip
if_not_empty none = ([], "unknown_target")
if_not_empty (some s) = if strip s == [] then ([], "unknown_target") else (strip s, "")

unfoldable pub filename_segment : Text → ProfileConfig → Text × String
unfolding split_any last_segment if_not_empty
filename_segment filename profile = elim profile.target_extraction.delimiters [
  | [] ↦ ([], "unknown_target")
  | d ∷ ds ↦ if_not_empty (last_segment (split_any 0 (d ∷ ds) (stem filename)))
]

-- `broadcast_target or ""`
or_empty : Option Text → Text
or_empty none = []
or_empty (some t) = t

-- `parts[0]`, where there are at least two.
top_directory : List Text → Option Text
top_directory [] = none
top_directory (p ∷ []) = none
top_directory (p ∷ q ∷ ps) = some p

directory_or : Option Text → Text × String → Text × String
directory_or none fallback = fallback
directory_or (some dir) fallback = (dir, "")

unfoldable pub extract_target_raw : Text → Text → ProfileConfig → Text × String
unfolding or_empty top_directory directory_or filename_segment
extract_target_raw src_path filename profile =
    if profile.target_extraction.strategy == "broadcast"
    then (or_empty profile.target_extraction.broadcast_target, "")
    else directory_or (top_directory (parts src_path)) (filename_segment filename profile)

module _ (py : Python) where
  -- what is left behind `^\d+\.\s*`; `none` where the pattern does not match
  after_number : Bool → Text → Option Text
  after_number seen [] = none
  after_number seen (c ∷ s) =
      if py.is_digit c
      then after_number true s
      else if seen && c == b'.'
      then some (lstrip_by is_space s)
      else none

  or_whole : Text → Option Text → Text
  or_whole key none = key
  or_whole key (some rest) = rest

  -- `re.sub(r"^\d+\.\s*", "", key)`
  unfoldable pub strip_number : Text → Text
  unfolding after_number or_whole
  strip_number key = or_whole key (after_number false key)

  -- One round of the loop over the targets: how the target matches.
  unfoldable pub match_target : Text → TargetConfig → Option String
  match_target raw_lower tc =
      if py.lower tc.key == raw_lower
      then some "exact"
      else if any (λ alias. py.lower alias == raw_lower) tc.aliases
      then some "alias"
      else if tc.strip_number_prefix && (py.lower (strip_number tc.key) == raw_lower)
      then some "strip_number_prefix"
      else none

  unfoldable pub resolve_in : Text → List TargetConfig → Option Text × String
  resolve_in raw_lower [] = (none, "")
  resolve_in raw_lower (tc ∷ tcs) = elim (match_target raw_lower tc) [
    | some method ↦ (some tc.key, method)
    | none ↦ resolve_in raw_lower tcs
  ]

  unfoldable pub resolve_target : Text → ProfileConfig → Option Text × String
  unfolding resolve_in
  resolve_target raw profile = resolve_in (py.lower raw) profile.targets
