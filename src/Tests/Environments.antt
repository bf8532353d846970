-- ===== src/Tests/Environments.antt =====
-- Environments of the model of component/stdio/env.go.
use mmmcp.Base.{
  ◌≡◌, refl, true, false, if◌then◌else◌, Option, none, some, List, [], ◌∷◌, Text, codes,
  contains_text, text_keys, lookup,
}
use mmmcp.Stdio.Environment.{names, host_value, environment}
use mmmcp.Stdio.Environment.Precedence.{get_variable, is_name, or_else, get_variable-environment}

abbrev host : Text → Option Text
host name = some (codes "host")

abbrev configured : List (Text × Text)
configured = (codes "TOKEN", codes "t") ∷ (codes "PATH", codes "/opt") ∷ []

get_variable-environment_example :
    get_variable (codes "PATH") (environment false (some host) configured)
    ≡ or_else (lookup (codes "PATH") configured) (
        if contains_text (codes "PATH") (names false)
        then host_value (some host) (codes "PATH")
        else none)
unfolding is_name
get_variable-environment_example =
    get_variable-environment (some host) configured (codes "PATH") refl (refl, (refl, tt))

-- Without a host only the configured variables are there, in order.
configured_only : environment false none configured ≡ codes "PATH=/opt" ∷ codes "TOKEN=t" ∷ []
unfolding environment mmmcp.Catalog.sort_by mmmcp.Base.text_lt lookup mmmcp.Base.text_eq
configured_only = refl
