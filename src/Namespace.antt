-- ===== src/Namespace.antt =====
-- namespace/namespace.go: prefixes of components and the exposed names of tools and prompts.
pub mod Uri
pub mod Prefixes
pub mod Names
pub mod Uris
use mmmcp.Base.{
  ℕ, suc, ◌+◌, ◌<◌, ◌≤◌, Text, is_empty, codes, List, [], ◌∷◌, ◌++◌, Bool, true, false, not, ◌&&◌,
  ◌||◌, if◌then◌else◌, ltb, leb, ◌==◌, length, Result, ok, err, ◌>>=◌, wrap,
}

abbrev pub max_feature_name_length : ℕ
max_feature_name_length = 128

pub data PartError : Type 0 where
  must_not_be_empty : PartError
  contains_invalid_character : ℕ → PartError

pub data Family : Type 0 where
  tool prompt : Family

pub data Error : Type 0 where
  invalid_prefix : Text → PartError → Error
  no_valid_prefix_character : Text → Error
  invalid_name : Family → Text → PartError → Error
  exceeds_maximum_length : Family → Text → Error
  invalid_resource_uri : Text → Error
  invalid_resource_uri_template : Text → Error
  missing_scheme : Text → Error

-- `validRune`
unfoldable pub valid_rune : ℕ → Bool
valid_rune r =
    leb b'a' r && leb r b'z'
    || leb b'A' r && leb r b'Z'
    || leb b'0' r && leb r b'9'
    || r == b'_'
    || r == b'-'
    || r == b'.'

-- The loop of `validatePart`.
unfoldable pub validate_runes : Text → Result PartError (Unit {0})
validate_runes [] = ok tt
validate_runes (r ∷ rs) =
    if not (valid_rune r) then err (contains_invalid_character r) else validate_runes rs

-- `validatePart`
unfoldable pub validate_part : Text → Result PartError (Unit {0})
validate_part value = if is_empty value then err must_not_be_empty else validate_runes value

-- `strings.ToLower` of a rune that `valid_rune` accepts.
unfoldable pub to_lower : ℕ → ℕ
to_lower r = if leb b'A' r && leb r b'Z' then r + 32 else r

-- The loop of `Prefix`: the builder, whether a separator was written last, and the runes left.
unfoldable pub sanitize : Text → Bool → Text → Text
sanitize result last_separator [] = result
sanitize result last_separator (r ∷ rs) =
    let kept = sanitize (result ++ to_lower r ∷ []) false rs in
    let separated = sanitize (result ++ b'_' ∷ []) true rs in
    let skipped = sanitize result last_separator rs in
    if valid_rune r
    then kept
    else if ltb 0 (length result) && not last_separator
    then separated
    else skipped

-- `strings.TrimLeft` and `strings.TrimRight` by "_".
unfoldable pub trim_left : Text → Text
trim_left [] = []
trim_left (r ∷ rs) = if r == b'_' then trim_left rs else r ∷ rs

unfoldable pub trim_right : Text → Text
trim_right [] = []
trim_right (r ∷ rs) =
    let rest = trim_right rs in if r == b'_' && is_empty rest then [] else r ∷ rest

unfoldable pub trim : Text → Text
trim s = trim_right (trim_left s)

-- Wraps the error of `validatePart` for a prefix.
unfoldable pub check_prefix : Text → Result Error (Unit {0})
check_prefix p = wrap (invalid_prefix p) (validate_part p)

-- `Prefix`
unfoldable pub prefix : Text → Text → Result Error Text
prefix component_name configured =
    if not (is_empty configured)
    then check_prefix configured >>= (λ _. ok configured)
    else let result = trim (sanitize [] false component_name) in
      if is_empty result then err (no_valid_prefix_character component_name) else ok result

-- `strings.HasSuffix(prefix, "_")`
unfoldable pub ends_with_underscore : Text → Bool
ends_with_underscore [] = false
ends_with_underscore (r ∷ []) = r == b'_'
ends_with_underscore (r ∷ s ∷ rs) = ends_with_underscore (s ∷ rs)

-- The name that `namedFeature` builds before it looks at the length.
unfoldable pub join : Text → Text → Text
join p local_name =
    if not (is_empty p)
    then (if not (ends_with_underscore p) then p ++ codes "__" else p) ++ local_name
    else local_name

-- `namedFeature`; `Tool` and `Prompt` are its two families.
unfoldable pub named_feature : Family → Text → Text → Result Error Text
named_feature family p local_name = do
  _ ← if not (is_empty p) then check_prefix p else ok tt
  _ ← wrap (invalid_name family local_name) (validate_part local_name)
  let name = join p local_name
  if ltb max_feature_name_length (length name)
      then err (exceeds_maximum_length family name)
      else ok name
