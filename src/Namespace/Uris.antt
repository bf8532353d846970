-- ===== src/Namespace/Uris.antt =====
-- Proofs about `Resource`, `ResourceTemplate` and `hasTemplateScheme` (namespace/uri.go).
use mmmcp.Base.{
  ℕ, ◌≡◌, refl, ◌∙◌, sym, ◌≢◌, ◌↔◌, inl, inr, Text, [], ◌∷◌, ◌++◌, Bool, true, false, ◌==◌, arith,
  All, ok, Bool-cases, Option-cases, Option, some,
}
use mmmcp.Namespace.{check_prefix, valid_rune}
use mmmcp.Namespace.Names.{IsUsable}
use mmmcp.Namespace.Prefixes.{IsValidRune, validate_part_iff}
use mmmcp.Namespace.Uri.{
  is_letter, is_digit, is_scheme_rune, before_colon, contains_rune, all_scheme_runes, scheme_runes,
  has_template_scheme, exposed_uri, has_url_scheme, resource, resource_template,
}

colon-invalid : valid_rune b':' ≡ false
unfolding valid_rune
colon-invalid = refl

-- A text of valid runes before the first colon is determined.
split_at_colon :
    (p q s t : Text)
    → All IsValidRune p
    → All IsValidRune q
    → p ++ (b':' ∷ s) ≡ q ++ (b':' ∷ t)
    → (p ≡ q) × (s ≡ t)
split_at_colon [] [] s t hp hq e = ground arith
split_at_colon [] (y ∷ q) s t hp hq e = ground (arith, colon-invalid)
split_at_colon (x ∷ p) [] s t hp hq e = ground (arith, colon-invalid)
split_at_colon (x ∷ p) (y ∷ q) s t hp hq e = ground (arith, split_at_colon p q s t hp.1 hq.1)

exposed_uri-injective :
    (p q s t : Text)
    → p ≢ []
    → q ≢ []
    → All IsValidRune p
    → All IsValidRune q
    → exposed_uri p s ≡ exposed_uri q t
    → (p ≡ q) × (s ≡ t)
unfolding exposed_uri
exposed_uri-injective p q s t np nq hp hq e = ground (arith, split_at_colon p q s t hp hq)

usable-valid : (p : Text) → p ≢ [] → IsUsable p → All IsValidRune p
usable-valid p h u = ground (arith, validate_part_iff p)

module _ (url_scheme : Text → Option Text) where
  -- `Resource` succeeds exactly on a usable prefix and a URI with a scheme, and returns the URI
  -- under "mmmcp+<prefix>:", or as it is under the empty prefix.
  pub resource-eq-ok_iff :
      (p s u : Text)
      → (resource url_scheme p s ≡ ok u)
        ↔ (IsUsable p × (has_url_scheme url_scheme s ≡ true) × (u ≡ exposed_uri p s))
  unfolding resource check_prefix
  resource-eq-ok_iff p s u = (λ h. ground arith, λ h. ground arith)

  -- Under non-empty prefixes, an exposed resource URI determines the prefix and the component's URI.
  pub resource-injective :
      (p q s t u : Text)
      → p ≢ []
      → q ≢ []
      → resource url_scheme p s ≡ ok u
      → resource url_scheme q t ≡ ok u
      → (p ≡ q) × (s ≡ t)
  resource-injective p q s t u np nq h i =
      let (hp, _, eu) = (resource-eq-ok_iff p s u).0 h in
      let (hq, _, ev) = (resource-eq-ok_iff q t u).0 i in
      exposed_uri-injective p q s t np nq (usable-valid p np hp) (usable-valid q nq hq)
        (sym eu ∙ ev)

module _ (template_parses : Text → Bool) where
  -- `ResourceTemplate` succeeds exactly on a usable prefix and a template that parses and has a
  -- scheme.
  pub resource_template-eq-ok_iff :
      (p s u : Text)
      → (resource_template template_parses p s ≡ ok u) ↔ (
          IsUsable p
          × (template_parses s ≡ true)
          × (has_template_scheme s ≡ true)
          × (u ≡ exposed_uri p s))
  unfolding resource_template check_prefix
  resource_template-eq-ok_iff p s u = (λ h. ground arith, λ h. ground arith)

abbrev pub IsScheme : Text → Type 0
IsScheme [] = ⊥
IsScheme (r ∷ rs) = (is_letter r ≡ true) × All (λ c. is_scheme_rune c ≡ true) rs

abbrev pub StartsWithScheme : Text → Type 0
StartsWithScheme v = (s : Text) × (rest : Text) × (v ≡ s ++ (b':' ∷ rest)) × IsScheme s

before_colon-eq-some :
    (v s : Text) → before_colon v ≡ some s → (rest : Text) × (v ≡ s ++ (b':' ∷ rest))
unfolding before_colon
before_colon-eq-some [] s h = cc
before_colon-eq-some (r ∷ rs) s h = elim (Bool-cases (r == b':')) [
  | inl e ↦ (rs, ground arith)
  | inr e ↦ elim (Option-cases (before_colon rs)) [
    | inl q ↦ absurd (ground arith)
    | inr (t, q) ↦ let (rest, w) = before_colon-eq-some rs t q in (rest, ground arith)
  ]
]

before_colon-append :
    (s rest : Text)
    → All (λ c. is_scheme_rune c ≡ true) s
    → before_colon (s ++ (b':' ∷ rest)) ≡ some s
unfolding before_colon is_scheme_rune is_letter is_digit
before_colon-append [] rest h = refl
before_colon-append (r ∷ rs) rest h = ground (arith, before_colon-append rs rest h.1)

no_brace : (s : Text) → All (λ c. is_scheme_rune c ≡ true) s → contains_rune b'{' s ≡ false
unfolding contains_rune is_scheme_rune is_letter is_digit
no_brace [] h = refl
no_brace (r ∷ rs) h = ground (arith, no_brace rs h.1)

all_scheme_runes_iff :
    (s : Text) → (all_scheme_runes s ≡ true) ↔ All (λ c. is_scheme_rune c ≡ true) s
unfolding all_scheme_runes
all_scheme_runes_iff [] = (λ h. tt, λ h. refl)
all_scheme_runes_iff (r ∷ rs) =
    (λ h. ground (arith, all_scheme_runes_iff rs), λ h. ground (arith, all_scheme_runes_iff rs))

letter-scheme_rune : (r : ℕ) → is_letter r ≡ true → is_scheme_rune r ≡ true
unfolding is_scheme_rune
letter-scheme_rune r h = ground arith

scheme_runes_iff : (s : Text) → s ≢ [] → (scheme_runes s ≡ true) ↔ IsScheme s
unfolding scheme_runes
scheme_runes_iff [] h = absurd (h refl)
scheme_runes_iff (r ∷ rs) h =
    (λ w. ground (arith, all_scheme_runes_iff rs), λ w. ground (arith, all_scheme_runes_iff rs))

has_template_scheme-append :
    (s rest : Text) → IsScheme s → has_template_scheme (s ++ (b':' ∷ rest)) ≡ true
unfolding has_template_scheme
has_template_scheme-append [] rest h = elim h [ ]
has_template_scheme-append (r ∷ rs) rest h =
    let all : All (λ c. is_scheme_rune c ≡ true) (r ∷ rs) = (letter-scheme_rune r h.0, h.1) in
    ground (
      arith,
      before_colon-append (r ∷ rs) rest all,
      no_brace (r ∷ rs) all,
      scheme_runes_iff (r ∷ rs),
    )

-- A template has a scheme exactly when it starts with a letter, then letters, digits, "+", "-" and
-- ".", and then a colon.
pub has_template_scheme_iff : (v : Text) → (has_template_scheme v ≡ true) ↔ StartsWithScheme v
unfolding has_template_scheme
has_template_scheme_iff v = (
  λ h. elim (Option-cases (before_colon v)) [
    | inl e ↦ absurd (ground arith)
    | inr (s, e) ↦
        let (rest, w) = before_colon-eq-some v s e in
        (s, rest, w, ground (arith, scheme_runes_iff s))
  ],
  λ (s, rest, e, w). rw e (has_template_scheme-append s rest w),
)
