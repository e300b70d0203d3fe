-- ===== src/Classifier/Matching.antt =====
-- Which target and which document type the classifier picks.

use multi_tenant_file_delive.Prelude.{
  ◌≡◌, refl, ap, ◌⊎◌, inl, inr, ◌==◌, any, arith, true, false, none, some, Option, String, List, [],
  ◌∷◌, ◌++◌, text_eq, All, Bool-cases, if◌then◌else◌,
}
use multi_tenant_file_delive.Text.{Text}
use multi_tenant_file_delive.Classifier.Profile.{ProfileConfig, TargetConfig}
use multi_tenant_file_delive.Classifier.Python.{Python}
use multi_tenant_file_delive.Classifier.Targets.{
  match_target, resolve_in, resolve_target, strip_number,
}
use multi_tenant_file_delive.Classifier.Documents.{best_match}

module _ (py : Python) (raw_lower : Text) where
  -- The three ways to answer to the name.
  abbrev pub IsNamed : Text → Type 0
  IsNamed key = py.lower key ≡ raw_lower

  abbrev pub HasAlias : List Text → Type 0
  HasAlias [] = ⊥
  HasAlias (alias ∷ aliases) = IsNamed alias ⊎ HasAlias aliases

  abbrev pub IsNumbered : TargetConfig → Type 0
  IsNumbered tc = (tc.strip_number_prefix ≡ true) × IsNamed (strip_number py tc.key)

  -- The target answers to the name in none of them.
  abbrev pub IsStranger : TargetConfig → Type 0
  IsStranger tc = (¬ IsNamed tc.key) × (¬ HasAlias tc.aliases) × (¬ IsNumbered tc)

  -- The target answers by the given method, which is the first that holds.
  abbrev pub Answers : TargetConfig → String → Type 0
  Answers tc method =
      ((method ≡ "exact") × IsNamed tc.key)
      ⊎ ((method ≡ "alias") × (¬ IsNamed tc.key) × HasAlias tc.aliases)
      ⊎ ((method ≡ "strip_number_prefix")
          × (¬ IsNamed tc.key)
          × (¬ HasAlias tc.aliases)
          × IsNumbered tc)

  -- The list has a target that answers by the given method, and none before it answers.
  abbrev pub FirstMatch : List TargetConfig → Text → String → Type 0
  FirstMatch tcs key method =
      (before : List TargetConfig) × (tc : TargetConfig) × (after : List TargetConfig) × (tcs
        ≡ before ++ (tc ∷ after))
      × All IsStranger before
      × Answers tc method
      × (tc.key ≡ key)

  abbrev pub Resolution : List TargetConfig → Option Text × String → Type 0
  Resolution tcs (none, method) = All IsStranger tcs
  Resolution tcs (some key, method) = FirstMatch tcs key method

  IsNamed-refuted : (key : Text) → (py.lower key == raw_lower) ≡ false → ¬ IsNamed key
  IsNamed-refuted key differs same =
      absurd (cc ((text_eq.equal_iff (py.lower key) raw_lower).1 same, differs))

  IsNamed-equal : (key : Text) → (py.lower key == raw_lower) ≡ true → IsNamed key
  IsNamed-equal key = (text_eq.equal_iff (py.lower key) raw_lower).0

  any-HasAlias :
      (aliases : List Text)
      → any (λ alias. py.lower alias == raw_lower) aliases ≡ true
      → HasAlias aliases
  any-HasAlias [] h = absurd (cc)
  any-HasAlias (alias ∷ aliases) h = elim (Bool-cases (py.lower alias == raw_lower)) [
    | inl same ↦ inl (IsNamed-equal alias same)
    | inr differs ↦ inr (any-HasAlias aliases (rw differs at h))
  ]

  any-no_alias :
      (aliases : List Text)
      → any (λ alias. py.lower alias == raw_lower) aliases ≡ false
      → ¬ HasAlias aliases
  any-no_alias [] h has = has
  any-no_alias (alias ∷ aliases) h (inl same) =
      absurd (cc ((text_eq.equal_iff (py.lower alias) raw_lower).1 same, h))
  any-no_alias (alias ∷ aliases) h (inr has) = any-no_alias aliases (ground (arith, h)) has

  -- What the match answers, and what it means.
  abbrev Meaning : TargetConfig → Option String → Type 0
  Meaning tc none = IsStranger tc
  Meaning tc (some method) = Answers tc method

  match_target-Meaning : (tc : TargetConfig) → Meaning tc (match_target py raw_lower tc)
  unfolding match_target
  match_target-Meaning tc = elim (Bool-cases (py.lower tc.key == raw_lower)) [
    | inl exact ↦ rw (exact, if◌then◌else◌) (inl (refl, IsNamed-equal tc.key exact))
    | inr other ↦ elim (Bool-cases (any (λ alias. py.lower alias == raw_lower) tc.aliases)) [
      | inl has ↦
          rw (other, has, if◌then◌else◌)
            (inr (inl (refl, IsNamed-refuted tc.key other, any-HasAlias tc.aliases has)))
      | inr lacks ↦ elim (Bool-cases tc.strip_number_prefix) [
        | inr kept ↦
            rw (other, lacks, kept, if◌then◌else◌)
              (
                IsNamed-refuted tc.key other,
                any-no_alias tc.aliases lacks,
                λ numbered. absurd (cc (numbered.0)),
              )
        | inl stripped ↦ elim (Bool-cases (py.lower (strip_number py tc.key) == raw_lower)) [
          | inl same ↦
              rw (other, lacks, stripped, same, if◌then◌else◌)
                (inr (
                  inr (
                    refl,
                    IsNamed-refuted tc.key other,
                    any-no_alias tc.aliases lacks,
                    (refl, IsNamed-equal (strip_number py tc.key) same),
                  )))
          | inr differs ↦
              rw (other, lacks, stripped, differs, if◌then◌else◌)
                (
                  IsNamed-refuted tc.key other,
                  any-no_alias tc.aliases lacks,
                  λ numbered. IsNamed-refuted (strip_number py tc.key) differs numbered.1,
                )
        ]
      ]
    ]
  ]

  Resolution-cons :
      (tc : TargetConfig) (tcs : List TargetConfig) (found : Option Text × String)
      → IsStranger tc
      → Resolution tcs found
      → Resolution (tc ∷ tcs) found
  Resolution-cons tc tcs (none, method) h r = (h, r)
  Resolution-cons tc tcs (some key, method) h (before, t, after, e, strangers, m, k) =
      (tc ∷ before, t, after, ap (λ (l : List TargetConfig). tc ∷ l) e, (h, strangers), m, k)

  resolve_in-Resolution : (tcs : List TargetConfig) → Resolution tcs (resolve_in py raw_lower tcs)
  unfolding resolve_in
  resolve_in-Resolution [] = tt
  resolve_in-Resolution (tc ∷ tcs) =
      from (match_target py raw_lower tc) (match_target-Meaning tc) (resolve_in-Resolution tcs)
    where
      from :
          (found : Option String)
          → Meaning tc found
          → Resolution tcs (resolve_in py raw_lower tcs)
          → Resolution (tc ∷ tcs) (elim found [
            | some method ↦ (some tc.key, method)
            | none ↦ resolve_in py raw_lower tcs
          ])
      from none stranger rest = Resolution-cons tc tcs (resolve_in py raw_lower tcs) stranger rest
      from (some method) answers rest = ([], tc, tcs, refl, tt, answers, refl)

-- A resolved target is the first one of the profile that answers to the lower-case name, by the
-- way that is reported: `exact`, its lower-case key is the name; `alias`, its key is not, but one
-- of its aliases in lower case is; `strip_number_prefix`, neither is, the target allows it, and
-- its key without the number in front is, in lower case. Where none is resolved, no target of the
-- profile answers in any of these ways.
pub resolve_target-Resolution :
    (py : Python) (raw : Text) (profile : ProfileConfig)
    → Resolution py (py.lower raw) profile.targets (resolve_target py raw profile)
unfolding resolve_target
resolve_target-Resolution py raw profile = resolve_in-Resolution py (py.lower raw) profile.targets

-- What the fuzzy match relies on of the order of the scores, which are floats and never NaN.
module _ (py : Python)
    (exceeds_asym : (a b : py.Score) → py.exceeds a b ≡ true → py.exceeds b a ≡ false)
    (exceeds_trans : (a b c : py.Score)
      → py.exceeds a b ≡ false
      → py.exceeds b c ≡ false
      → py.exceeds a c ≡ false)
    (s : Text) where
  -- Both halves: no keyword of the mapping scores above the best, nor does the starting score.
  abbrev pub IsBest : List (Text × Text) → py.Score × Text → py.Score × Text → Type 0
  IsBest mapping first best =
      (py.exceeds first.0 best.0 ≡ false)
      × All (λ (e : Text × Text). py.exceeds (py.ratio e.0 s) best.0 ≡ false) mapping

  abbrev better : py.Score × Text → Text × Text → py.Score × Text
  better best e = if py.exceeds (py.ratio e.0 s) best.0 then (py.ratio e.0 s, e.1) else best

  IsBest-cons :
      (e : Text × Text) (mapping : List (Text × Text)) (first best : py.Score × Text)
      → IsBest mapping (better first e) best
      → IsBest (e ∷ mapping) first best
  IsBest-cons e mapping first best h = elim (Bool-cases (py.exceeds (py.ratio e.0 s) first.0)) [
    | inl more ↦
        let h' : IsBest mapping (py.ratio e.0 s, e.1) best = rw more at h in
        (
          exceeds_trans first.0 (py.ratio e.0 s) best.0 (exceeds_asym (py.ratio e.0 s) first.0 more)
              h'.0,
          (h'.0, h'.1),
        )
    | inr less ↦
        let h' : IsBest mapping first best = rw less at h in
        (h'.0, (exceeds_trans (py.ratio e.0 s) first.0 best.0 less h'.0, h'.1))
  ]

  -- No keyword of the description mapping scores above the score that the fuzzy match returns, nor
  -- does the score that it starts from, where the order of the scores is asymmetric and its
  -- complement transitive, as that of floats is.
  best_match-IsBest :
      (mapping : List (Text × Text)) (first : py.Score × Text)
      → IsBest mapping first (best_match py s mapping first)
  unfolding best_match
  best_match-IsBest [] first = (
    elim (Bool-cases (py.exceeds first.0 first.0)) [
      | inl above ↦ exceeds_asym first.0 first.0 above
      | inr level ↦ level
    ],
    tt,
  )
  best_match-IsBest (e ∷ mapping) first =
      IsBest-cons e mapping first (best_match py s (e ∷ mapping) first)
        (best_match-IsBest mapping (better first e))
