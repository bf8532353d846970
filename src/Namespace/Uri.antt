-- ===== src/Namespace/Uri.antt =====
-- namespace/uri.go: the exposed identities of resources and resource templates. `url.Parse` and
-- `uritemplate.New` are parameters.
use mmmcp.Base.{
  ℕ, Text, is_empty, codes, [], ◌∷◌, ◌++◌, Bool, true, false, not, ◌&&◌, ◌||◌, if◌then◌else◌, leb,
  ◌==◌, Result, ok, err, ◌>>=◌, Option, none, some,
}
use mmmcp.Namespace.{
  Error, check_prefix, invalid_resource_uri, invalid_resource_uri_template, missing_scheme,
}

-- `'a' <= r <= 'z'` or `'A' <= r <= 'Z'`
unfoldable pub is_letter : ℕ → Bool
is_letter r = leb b'a' r && leb r b'z' || leb b'A' r && leb r b'Z'

unfoldable pub is_digit : ℕ → Bool
is_digit r = leb b'0' r && leb r b'9'

-- A rune that may follow the first of a scheme.
unfoldable pub is_scheme_rune : ℕ → Bool
is_scheme_rune r = is_letter r || is_digit r || r == b'+' || r == b'-' || r == b'.'

-- `value[:strings.IndexByte(value, ':')]`, if there is a colon.
unfoldable pub before_colon : Text → Option Text
before_colon [] = none
before_colon (r ∷ rs) =
    if r == b':' then some [] else elim (before_colon rs) [ none ↦ none | some s ↦ some (r ∷ s) ]

unfoldable pub contains_rune : ℕ → Text → Bool
contains_rune c [] = false
contains_rune c (r ∷ rs) = r == c || contains_rune c rs

unfoldable pub all_scheme_runes : Text → Bool
all_scheme_runes [] = true
all_scheme_runes (r ∷ rs) = is_scheme_rune r && all_scheme_runes rs

-- The loop of `hasTemplateScheme` over the runes before the colon.
unfoldable pub scheme_runes : Text → Bool
scheme_runes [] = true
scheme_runes (r ∷ rs) = is_letter r && all_scheme_runes rs

-- `hasTemplateScheme`
unfoldable pub has_template_scheme : Text → Bool
has_template_scheme value = elim (before_colon value) [
  | none ↦ false
  | some s ↦ if is_empty s || contains_rune b'{' s then false else scheme_runes s
]

-- `"mmmcp+" + prefix + ":" + original`, or the original under an empty prefix.
unfoldable pub exposed_uri : Text → Text → Text
exposed_uri p original = if is_empty p then original else codes "mmmcp+" ++ (p ++ (b':' ∷ original))

-- `url.Parse` as the scheme of a URL that parses.
module _ (url_scheme : Text → Option Text) where
  -- `err != nil || parsed.Scheme == ""` is false
  unfoldable pub has_url_scheme : Text → Bool
  has_url_scheme original = elim (url_scheme original) [ none ↦ false | some s ↦ not (is_empty s) ]

  -- `Resource`
  unfoldable pub resource : Text → Text → Result Error Text
  resource p original = do
    _ ← if not (is_empty p) then check_prefix p else ok tt
    if not (has_url_scheme original)
        then err (invalid_resource_uri original)
        else ok (exposed_uri p original)

-- `uritemplate.New` as whether a template parses.
module _ (template_parses : Text → Bool) where
  -- `ResourceTemplate`
  unfoldable pub resource_template : Text → Text → Result Error Text
  resource_template p original = do
    _ ← if not (is_empty p) then check_prefix p else ok tt
    if not (template_parses original)
        then err (invalid_resource_uri_template original)
        else if not (has_template_scheme original)
        then err (missing_scheme original)
        else ok (exposed_uri p original)
