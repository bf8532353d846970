-- ===== src/Stdio/Environment.antt =====
-- component/stdio/env.go: the environment of a component's process.
pub mod Precedence
use mmmcp.Base.{
  Bool, true, false, if◌then◌else◌, Option, none, some, List, [], ◌∷◌, ◌++◌, map, Text, text_keys,
  codes, lookup,
}
use mmmcp.Catalog.{sort_by}

abbrev pub baseline_names : List Text
baseline_names =
    codes "PATH"
    ∷ codes "PWD"
    ∷ codes "TMPDIR"
    ∷ codes "TMP"
    ∷ codes "TEMP"
    ∷ codes "LANG"
    ∷ codes "LC_ALL"
    ∷ codes "LC_CTYPE"
    ∷ codes "TZ"
    ∷ []

abbrev pub windows_launch_names : List Text
windows_launch_names = codes "SystemRoot" ∷ codes "WINDIR" ∷ codes "ComSpec" ∷ codes "PATHEXT" ∷ []

unfoldable pub names : Bool → List Text
names windows = if windows then baseline_names ++ windows_launch_names else baseline_names

-- `lookup`, which may be nil.
unfoldable pub host_value : Option (Text → Option Text) → Text → Option Text
host_value none name = none
host_value (some look_up) name = look_up name

unfoldable pub host_entries : (Text → Option Text) → List Text → List (Text × Text)
host_entries host [] = []
host_entries host (n ∷ ns) =
    let rest = host_entries host ns in elim (host n) [ none ↦ rest | some v ↦ (n, v) ∷ rest ]

-- The keys of the map.
abbrev pub configured_names : List (Text × Text) → List Text
configured_names = map (λ e. e.0)

-- `configured[name]`, which is empty on a missing key.
unfoldable pub configured_value : List (Text × Text) → Text → Text
configured_value configured name = elim (lookup name configured) [ none ↦ [] | some v ↦ v ]

unfoldable pub configured_entries : List (Text × Text) → List Text → List (Text × Text)
unfolding configured_value
configured_entries configured [] = []
configured_entries configured (n ∷ ns) =
    (n, configured_value configured n) ∷ configured_entries configured ns

-- The variables of the environment, in order.
unfoldable pub entries :
    Bool → Option (Text → Option Text) → List (Text × Text) → List (Text × Text)
unfolding names host_value host_entries configured_entries
entries windows host configured =
    host_entries (host_value host) (names windows)
    ++ configured_entries configured (sort_by (λ n. n) (configured_names configured))

-- `Environment`
unfoldable pub environment : Bool → Option (Text → Option Text) → List (Text × Text) → List Text
unfolding entries
environment windows host configured =
    map (λ e. e.0 ++ (codes "=" ++ e.1)) (entries windows host configured)
