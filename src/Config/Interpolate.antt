-- ===== src/Config/Interpolate.antt =====
-- config/interpolate.go: `${NAME}` and `$$` in configuration values.
use mmmcp.Base.{
  ℕ, zero, suc, Bool, if◌then◌else◌, ◌==◌, is_empty, Option, none, some, [], ◌∷◌, ◌++◌, length,
  Text, Result, ok, err,
}

pub data Error : Type 0 where
  unterminated_environment_reference empty_environment_variable_name : Error

-- `strings.IndexByte(value[i+2:], '}')`: the name before the brace, and what follows the brace.
unfoldable pub split_at_brace : Text → Option (Text × Text)
split_at_brace [] = none
split_at_brace (c ∷ cs) =
    if c == b'}'
    then some ([], cs)
    else elim (split_at_brace cs) [ none ↦ none | some (name, rest) ↦ some (c ∷ name, rest) ]

-- `lookup` of the environment; the caller drops whether the variable is set.
abbrev pub Environment : Type 0
Environment = Text → Text × Bool

-- The loop of `interpolate` over the text left, with the builder. Each round reads a character or
-- more, so the length of the text is fuel enough.
unfoldable pub interpolate_loop : Environment → ℕ → Text → Text → Result Error Text
unfolding split_at_brace
interpolate_loop lookup zero result value = ok result
interpolate_loop lookup (suc fuel) result [] = ok result
interpolate_loop lookup (suc fuel) result (c ∷ []) =
    interpolate_loop lookup fuel (result ++ c ∷ []) []
interpolate_loop lookup (suc fuel) result (c ∷ d ∷ rest) =
    let plain = interpolate_loop lookup fuel (result ++ c ∷ []) (d ∷ rest) in
    let escaped = interpolate_loop lookup fuel (result ++ b'$' ∷ []) rest in
    let reference : Result Error Text = elim (split_at_brace rest) [
      | none ↦ err unterminated_environment_reference
      | some (name, tail) ↦
          let replaced = interpolate_loop lookup fuel (result ++ (lookup name).0) tail in
          if is_empty name then err empty_environment_variable_name else replaced
    ] in
    if c == b'$'
    then (if d == b'$' then escaped else if d == b'{' then reference else plain)
    else plain

-- `interpolate`
unfoldable pub interpolate : Environment → Text → Result Error Text
unfolding interpolate_loop
interpolate lookup value = interpolate_loop lookup (length value) [] value
