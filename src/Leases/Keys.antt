-- ===== src/Leases/Keys.antt =====
-- The keys of control-plane/app/services/redis_lease.py and idempotency_guard.py: how long they are,
-- of what characters, and which names share one.
use multi_tenant_file_delive.Prelude.{
  ℕ, zero, suc, ◌+◌, ◌<◌, ◌≤◌, ◌≡◌, ◌≢◌, ◌↔◌, refl, ◌∙◌, sym, ap, Bool, true, false, not, [], ◌∷◌,
  ◌++◌, arith, ◌==◌, text_eq, if◌then◌else◌, if_rule, text_beq, length, length-append, all,
  all-append,
}
use multi_tenant_file_delive.Text.{Text, text, strip, strip_by, lstrip_by, is_space, take, drop}
use mathlib.Core.List.{reverse, reverse_aux, reverse-reverse}
use multi_tenant_file_delive.Leases.{
  is_key_char, sub_runs, cut_or_underscore, lease_key, safe_key_part, guard_key,
}

-- Only characters that `_KEY_PART_RE` leaves.
abbrev pub IsSafe : Text → Type 0
IsSafe s = all is_key_char s ≡ true

take-IsSafe : (n : ℕ) (s : Text) → IsSafe s → IsSafe (take n s)
take-IsSafe zero s h = refl
take-IsSafe (suc n) [] h = refl
take-IsSafe (suc n) (c ∷ s) h = ground (arith, take-IsSafe n s)

length-take-le : (n : ℕ) (s : Text) → length (take n s) ≤ n
length-take-le zero s = omega arith
length-take-le (suc n) [] = omega arith
length-take-le (suc n) (c ∷ s) = omega (arith, length-take-le n s)

take-all : (n : ℕ) (s : Text) → length s ≤ n → take n s ≡ s
take-all zero [] h = refl
take-all zero (c ∷ s) h = absurd (omega arith)
take-all (suc n) [] h = refl
take-all (suc n) (c ∷ s) h = ap (λ t. c ∷ t) (take-all n s (omega arith))

sub_runs-IsSafe : (inside : Bool) (s : Text) → IsSafe (sub_runs inside s)
unfolding sub_runs
sub_runs-IsSafe inside [] = refl
sub_runs-IsSafe inside (c ∷ s) = ground (arith, sub_runs-IsSafe (not (is_key_char c)) s, underscore)
  where
    underscore : is_key_char 95 ≡ true
    underscore = unfold is_key_char in refl

sub_runs-eq : (s : Text) → IsSafe s → sub_runs false s ≡ s
unfolding sub_runs
sub_runs-eq [] h = refl
sub_runs-eq (c ∷ s) h = ground (arith, sub_runs-eq s)

underscore-IsSafe : IsSafe (text "_")
unfolding is_key_char
underscore-IsSafe = refl

cut_or_underscore-IsSafe : (n : ℕ) (s : Text) → IsSafe s → IsSafe (cut_or_underscore n s)
unfolding cut_or_underscore
cut_or_underscore-IsSafe n s h =
    if_rule IsSafe (take n s == []) underscore-IsSafe (take-IsSafe n s h)

-- Between one character and `n`.
cut_or_underscore_bounds :
    (n : ℕ) (s : Text)
    → 0 < n
    → (0 < length (cut_or_underscore n s)) × (length (cut_or_underscore n s) ≤ n)
unfolding cut_or_underscore
cut_or_underscore_bounds n s h = within (take n s) (length-take-le n s)
  where
    within :
        (t : Text)
        → length t ≤ n
        → (0 < length (if t == [] then text "_" else t))
          × (length (if t == [] then text "_" else t) ≤ n)
    within [] le = unfold text_beq in (omega arith, omega arith)
    within (c ∷ t) le = unfold text_beq in (omega arith, omega arith)

cut_or_underscore-eq : (n : ℕ) (s : Text) → s ≢ [] → length s ≤ n → cut_or_underscore n s ≡ s
unfolding cut_or_underscore text_beq
cut_or_underscore-eq n [] some_text h = absurd (some_text refl)
cut_or_underscore-eq n (c ∷ s) some_text h = rw (take-all n (c ∷ s) h) refl

-- A prefix in front of at least one and at most `n` characters.
prefixed :
    (prefix t : Text) (m n : ℕ)
    → length prefix ≡ m
    → IsSafe prefix
    → IsSafe t
    → (0 < length t) × (length t ≤ n)
    → IsSafe (prefix ++ t) × (m < length (prefix ++ t)) × (length (prefix ++ t) ≤ m + n)
prefixed prefix t m n is safe h bounds = (
  rw (all-append is_key_char prefix t, safe) h,
  omega (arith, length-append prefix t),
  omega (arith, length-append prefix t),
)

lease_prefix-IsSafe : IsSafe (text "lease:v1:")
unfolding is_key_char
lease_prefix-IsSafe = refl

guard_prefix-IsSafe : IsSafe (text "idempotency:v1:")
unfolding is_key_char
guard_prefix-IsSafe = refl

key_char_visible : (c : ℕ) → is_key_char c ≡ true → is_space c ≡ false
unfolding is_key_char is_space
key_char_visible c h = ground arith

lstrip_by-eq : (s : Text) → IsSafe s → lstrip_by is_space s ≡ s
unfolding lstrip_by
lstrip_by-eq [] h = refl
lstrip_by-eq (c ∷ s) h = rw (key_char_visible c (ground arith)) refl

all-reverse_aux :
    (p : ℕ → Bool) (s acc : Text)
    → all p s ≡ true
    → all p acc ≡ true
    → all p (reverse_aux s acc) ≡ true
all-reverse_aux p [] acc h k = k
all-reverse_aux p (c ∷ s) acc h k = all-reverse_aux p s (c ∷ acc) (ground arith) (ground arith)

all-reverse : (p : ℕ → Bool) (s : Text) → all p s ≡ true → all p (reverse s) ≡ true
all-reverse p s h = all-reverse_aux p s [] h refl

strip-eq : (s : Text) → IsSafe s → strip s ≡ s
unfolding strip strip_by
strip-eq s h =
    rw (lstrip_by-eq s h, lstrip_by-eq (reverse s) (all-reverse is_key_char s h))
      (reverse-reverse s)

-- The text that a name becomes.
abbrev part_of : ℕ → Text → Text
part_of n value = cut_or_underscore n (sub_runs false (strip value))

part_of-IsSafe : (n : ℕ) (value : Text) → IsSafe (part_of n value)
part_of-IsSafe n value = cut_or_underscore-IsSafe n _ (sub_runs-IsSafe false (strip value))

part_of-eq : (n : ℕ) (s : Text) → IsSafe s → s ≢ [] → length s ≤ n → part_of n s ≡ s
part_of-eq n s safe some_text h =
    rw (strip-eq s safe, sub_runs-eq s safe) (cut_or_underscore-eq n s some_text h)

colon-is_key_char : is_key_char b':' ≡ true
unfolding is_key_char
colon-is_key_char = refl

joined :
    (a b : Text)
    → IsSafe a
    → IsSafe b
    → (0 < length a) × (length a ≤ 128)
    → (0 < length b) × (length b ≤ 128)
    → IsSafe (text "idempotency:v1:" ++ (a ++ (b':' ∷ b)))
      × (17 < length (text "idempotency:v1:" ++ (a ++ (b':' ∷ b))))
      × (length (text "idempotency:v1:" ++ (a ++ (b':' ∷ b))) ≤ 272)
joined a b safe_a safe_b la lb = (
  rw
      (
        all-append is_key_char (text "idempotency:v1:") (a ++ (b':' ∷ b)),
        guard_prefix-IsSafe,
        all-append is_key_char a (b':' ∷ b),
        safe_a,
      )
      (colon_safe),
  omega
      (arith, length-append (text "idempotency:v1:") (a ++ (b':' ∷ b)), length-append a (b':' ∷ b)),
  omega
      (arith, length-append (text "idempotency:v1:") (a ++ (b':' ∷ b)), length-append a (b':' ∷ b)),
)
  where
    colon_safe : IsSafe (b':' ∷ b)
    colon_safe = rw colon-is_key_char safe_b

-- A lease key is a prefix of nine characters with between one and 160 characters after it, and a
-- guard key one of fifteen with two parts of between one and 128 and a colon after it; all are
-- characters that Redis keys may have.
pub keys_bounds :
    (resource operation identity : Text)
    → IsSafe (lease_key resource)
      × (9 < length (lease_key resource))
      × (length (lease_key resource) ≤ 169)
      × IsSafe (guard_key operation identity)
      × (17 < length (guard_key operation identity))
      × (length (guard_key operation identity) ≤ 272)
unfolding lease_key guard_key safe_key_part
keys_bounds resource operation identity =
    let lease =
      prefixed (text "lease:v1:") (part_of 160 resource) 9 160 refl lease_prefix-IsSafe
        (part_of-IsSafe 160 resource)
        (cut_or_underscore_bounds 160 (sub_runs false (strip resource)) (omega arith)) in
    let second = cut_or_underscore_bounds 128 (sub_runs false (strip identity)) (omega arith) in
    let first = cut_or_underscore_bounds 128 (sub_runs false (strip operation)) (omega arith) in
    let both =
      joined (part_of 128 operation) (part_of 128 identity) (part_of-IsSafe 128 operation)
        (part_of-IsSafe 128 identity) first second in
    (lease.0, lease.1, lease.2, both.0, both.1, both.2)

lease_key-eq :
    (resource : Text)
    → IsSafe resource
    → resource ≢ []
    → length resource ≤ 160
    → lease_key resource ≡ text "lease:v1:" ++ resource
unfolding lease_key
lease_key-eq resource safe some_text h =
    ap (λ (t : Text). text "lease:v1:" ++ t) (part_of-eq 160 resource safe some_text h)

abbrev after_prefix : Text → Text
after_prefix = drop 9

-- Two names that are not empty, of at most 160 key characters, share a lease key only if they are
-- one name; and no guard key, whatever the request says, is the lease key of such a name.
pub lease_key-separates :
    (a b operation identity : Text)
    → IsSafe a
    → IsSafe b
    → a ≢ []
    → b ≢ []
    → length a ≤ 160
    → length b ≤ 160
    → ((lease_key a ≡ lease_key b) ↔ (a ≡ b)) × (guard_key operation identity ≢ lease_key a)
unfolding guard_key
lease_key-separates a b operation identity safe_a safe_b some_a some_b la lb =
    let key_a = lease_key-eq a safe_a some_a la in
    let key_b = lease_key-eq b safe_b some_b lb in
    (
      (λ h. ap after_prefix (sym key_a ∙ (h ∙ key_b)), λ h. ap lease_key h),
      λ h. other_prefix (h ∙ key_a),
    )
  where
    other_prefix :
        text "idempotency:v1:" ++ (safe_key_part operation ++ (b':' ∷ safe_key_part identity))
          ≡ text "lease:v1:" ++ a
        → ⊥
    other_prefix h = ground arith
