-- ===== src/Namespace/Prefixes.antt =====
-- Proofs about `Prefix` (namespace/namespace.go): what the sanitizer keeps, and when it fails.
use mathlib.Core.List.{append_assoc, append-nil}
use mmmcp.Base.{
  ℕ, ◌≡◌, refl, sym, ◌≢◌, ◌↔◌, ◌⊎◌, Text, [], ◌∷◌, ◌++◌, Bool, true, false, arith, All, All-append,
  All-left, All-right, ok, err,
}
use mmmcp.Namespace.{
  valid_rune, validate_runes, validate_part, to_lower, sanitize, trim_left, trim_right, trim,
  check_prefix, prefix, no_valid_prefix_character,
}

abbrev pub IsValidRune : ℕ → Type 0
IsValidRune r = valid_rune r ≡ true

-- `validatePart` accepts exactly the nonempty texts of valid runes.
validate_runes-All : (s : Text) → validate_runes s ≡ ok tt → All IsValidRune s
unfolding validate_runes
validate_runes-All [] h = tt
validate_runes-All (r ∷ rs) h = ground (arith, validate_runes-All rs)

All-validate_runes : (s : Text) → All IsValidRune s → validate_runes s ≡ ok tt
unfolding validate_runes
All-validate_runes [] h = refl
All-validate_runes (r ∷ rs) h = ground (arith, All-validate_runes rs)

pub validate_part_iff : (s : Text) → (validate_part s ≡ ok tt) ↔ ((s ≢ []) × All IsValidRune s)
unfolding validate_part
validate_part_iff s =
    (λ h. ground (arith, validate_runes-All s), λ h. ground (arith, All-validate_runes s h.1, h.0))

-- What the sanitizer writes: a valid rune that is not an upper-case letter.
abbrev IsPlain : ℕ → Type 0
IsPlain r = (valid_rune r ≡ true) × (to_lower r ≡ r)

to_lower-IsPlain : (r : ℕ) → IsValidRune r → IsPlain (to_lower r)
unfolding valid_rune to_lower
to_lower-IsPlain r h = ground arith

underscore-IsPlain : IsPlain b'_'
unfolding valid_rune to_lower
underscore-IsPlain = (refl, refl)

sanitize-IsPlain :
    (result : Text) (last : Bool) (s : Text)
    → All IsPlain result
    → All IsPlain (sanitize result last s)
unfolding sanitize
sanitize-IsPlain result last [] h = h
sanitize-IsPlain result last (r ∷ rs) h = ground (
  arith,
  sanitize-IsPlain (result ++ to_lower r ∷ []) false rs,
  sanitize-IsPlain (result ++ b'_' ∷ []) true rs,
  sanitize-IsPlain result last rs h,
  All-append IsPlain result (to_lower r ∷ []) h,
  All-append IsPlain result (b'_' ∷ []) h,
  to_lower-IsPlain r,
  underscore-IsPlain,
)

trim_left-All {κ} : (P : ℕ → Type κ) (s : Text) → All P s → All P (trim_left s)
unfolding trim_left
trim_left-All P [] h = h
trim_left-All P (r ∷ rs) h = ground (arith, trim_left-All P rs h.1)

trim_right-All {κ} : (P : ℕ → Type κ) (s : Text) → All P s → All P (trim_right s)
unfolding trim_right
trim_right-All P [] h = h
trim_right-All P (r ∷ rs) h = ground (arith, trim_right-All P rs h.1)

trim-IsPlain :
    (s : Text) → All IsPlain (sanitize [] false s) → All IsPlain (trim (sanitize [] false s))
unfolding trim
trim-IsPlain s h = trim_right-All IsPlain _ (trim_left-All IsPlain _ h)

-- Plain text passes through the sanitizer unchanged.
sanitize_of_plain :
    (result : Text) (last : Bool) (s : Text) → All IsPlain s → sanitize result last s ≡ result ++ s
unfolding sanitize
sanitize_of_plain result last [] h = sym (append-nil result)
sanitize_of_plain result last (r ∷ rs) h =
    ground (
      arith,
      h.0,
      sanitize_of_plain (result ++ r ∷ []) false rs h.1,
      append_assoc result (r ∷ []) rs,
    )

trim_left_idem : (s : Text) → trim_left (trim_left s) ≡ trim_left s
unfolding trim_left
trim_left_idem [] = refl
trim_left_idem (r ∷ rs) = ground (arith, trim_left_idem rs)

trim_right_idem : (s : Text) → trim_right (trim_right s) ≡ trim_right s
unfolding trim_right
trim_right_idem [] = refl
trim_right_idem (r ∷ rs) = ground (arith, trim_right_idem rs)

trim_left-trim_right : (s : Text) → trim_left (trim_right (trim_left s)) ≡ trim_right (trim_left s)
unfolding trim_left trim_right
trim_left-trim_right [] = refl
trim_left-trim_right (r ∷ rs) = ground (arith, trim_left-trim_right rs)

trim_idem : (s : Text) → trim (trim s) ≡ trim s
unfolding trim
trim_idem s = rw trim_left-trim_right (trim_right_idem (trim_left s))

-- Runes that leave nothing behind once the separators are trimmed.
abbrev pub IsBlank : ℕ → Type 0
IsBlank r = (valid_rune r ≡ false) ⊎ (r ≡ b'_')

abbrev IsUnderscore : ℕ → Type 0
IsUnderscore r = r ≡ b'_'

trim_left-eq-nil : (s : Text) → All IsUnderscore s → trim_left s ≡ []
unfolding trim_left
trim_left-eq-nil [] h = refl
trim_left-eq-nil (r ∷ rs) h = ground (arith, trim_left-eq-nil rs)

trim_right-eq-nil : (s : Text) → trim_right s ≡ [] → All IsUnderscore s
unfolding trim_right
trim_right-eq-nil [] h = tt
trim_right-eq-nil (r ∷ rs) h = ground (arith, trim_right-eq-nil rs)

of_trim_left : (s : Text) → All IsUnderscore (trim_left s) → All IsUnderscore s
unfolding trim_left
of_trim_left [] h = tt
of_trim_left (r ∷ rs) h = ground (arith, of_trim_left rs)

trim-eq-nil_iff : (s : Text) → (trim s ≡ []) ↔ All IsUnderscore s
unfolding trim trim_right
trim-eq-nil_iff s =
    (λ h. of_trim_left s (trim_right-eq-nil (trim_left s) h), λ h. rw (trim_left-eq-nil s h))

to_lower-underscore : (r : ℕ) → valid_rune r ≡ true → to_lower r ≡ b'_' → r ≡ b'_'
unfolding valid_rune to_lower
to_lower-underscore r v h = ground arith

sanitize-IsBlank :
    (result : Text) (last : Bool) (s : Text)
    → All IsUnderscore result
    → All IsBlank s
    → All IsUnderscore (sanitize result last s)
unfolding sanitize
sanitize-IsBlank result last [] u h = u
sanitize-IsBlank result last (r ∷ rs) u h = ground (
  arith,
  underscore-IsPlain,
  sanitize-IsBlank (result ++ b'_' ∷ []) true rs,
  sanitize-IsBlank (result ++ to_lower r ∷ []) false rs,
  sanitize-IsBlank result last rs u,
  All-append IsUnderscore result (b'_' ∷ []) u,
)

of_sanitize-IsBlank :
    (result : Text) (last : Bool) (s : Text)
    → All IsUnderscore (sanitize result last s)
    → All IsUnderscore result × All IsBlank s
unfolding sanitize
of_sanitize-IsBlank result last [] h = (h, tt)
of_sanitize-IsBlank result last (r ∷ rs) h = ground (
  arith,
  of_sanitize-IsBlank (result ++ b'_' ∷ []) true rs,
  of_sanitize-IsBlank (result ++ to_lower r ∷ []) false rs,
  of_sanitize-IsBlank result last rs,
  All-left IsUnderscore result (b'_' ∷ []),
  All-left IsUnderscore result (to_lower r ∷ []),
  All-right IsUnderscore result (to_lower r ∷ []),
  to_lower-underscore r,
)

plain-valid : (s : Text) → All IsPlain s → All IsValidRune s
plain-valid [] h = tt
plain-valid (r ∷ rs) h = (h.0.0, plain-valid rs h.1)

derived :
    (name p : Text)
    → prefix name [] ≡ ok p
    → (p ≡ trim (sanitize [] false name)) × (p ≢ []) × All IsPlain p
unfolding prefix
derived name p h = ground (arith, trim-IsPlain name (sanitize-IsPlain [] false name tt))

-- Whatever `Prefix` returns passes `validatePart`, for a configured and for a derived prefix.
pub validate_part-prefix :
    (name configured : Text) {p : Text} → prefix name configured ≡ ok p → validate_part p ≡ ok tt
unfolding prefix check_prefix
validate_part-prefix name configured {p} h =
    ground (arith, derived name p, validate_part_iff p, plain-valid p)

-- Without a configured prefix, `Prefix` fails exactly when every rune of the component's name is
-- invalid or an underscore, and then with that name.
pub prefix-eq-err_iff :
    (name : Text) → (prefix name [] ≡ err (no_valid_prefix_character name)) ↔ All IsBlank name
unfolding prefix
prefix-eq-err_iff name = (
  λ h. (of_sanitize-IsBlank [] false name ((trim-eq-nil_iff _).0 (ground arith))).1,
  λ h. ground (arith, (trim-eq-nil_iff _).1 (sanitize-IsBlank [] false name tt h)),
)

-- A derived prefix is a fixed point: used as a component's name, it is its own prefix.
pub prefix_idem : (name : Text) {p : Text} → prefix name [] ≡ ok p → prefix p [] ≡ ok p
unfolding prefix
prefix_idem name {p} h =
    let (e, ne, plain) = derived name p h in
    let same : trim (sanitize [] false p) ≡ p =
      rw (sanitize_of_plain [] false p plain, e) (trim_idem (sanitize [] false name)) in
    ground arith
