-- ===== src/Requests.antt =====
-- request_catalog.go: the configuration that a request discovers.
pub mod Owners
use mmmcp.Base.{
  has_prefix, ℕ, Bool, true, false, not, ◌&&◌, ◌||◌, if◌then◌else◌, ◌==◌, ltb, Option, none, some,
  List, [], ◌∷◌, map, length, Text, codes, text_eq, is_empty, Result, ok, err,
}
use mmmcp.Catalog.{Catalog, ToolRoute}
use mmmcp.Catalog.Calls.{call_tool_name}
use mmmcp.Config.{Server, Config}
use mmmcp.Namespace.{tool, prefix, named_feature}

-- `strings.TrimSuffix(marker, "x")`
unfoldable pub trim_x : Text → Text
trim_x [] = []
trim_x (r ∷ []) = if r == 120 then [] else r ∷ []
trim_x (r ∷ s ∷ rs) = r ∷ trim_x (s ∷ rs)

-- The server with its prefix, if the name may be that of a tool of it; `several` tells whether the
-- configuration has more than one server.
unfoldable pub candidate : Bool → Text → Server → Option Server
unfolding trim_x prefix named_feature has_prefix
candidate several name s =
    if several || not (is_empty s.prefix)
    then elim (prefix s.name s.prefix) as (λ p. Option Server) [
      | err e ↦ none
      | ok p ↦ elim (named_feature tool p (codes "x")) as (λ m. Option Server) [
        | err e ↦ none
        | ok marker ↦
            if has_prefix name (trim_x marker) then some (record s { prefix = p }) else none
      ]
    ]
    else some s

unfoldable pub candidates : Bool → Text → List Server → List Server
unfolding candidate
candidates several name [] = []
candidates several name (s ∷ servers) =
    let rest = candidates several name servers in
    elim (candidate several name s) [ none ↦ rest | some c ↦ c ∷ rest ]

-- What is before the first slash.
unfoldable pub before_slash : Text → Text
before_slash [] = []
before_slash (r ∷ rs) = let rest = before_slash rs in if r == 47 then [] else r ∷ rest

-- The family of features that a method is about.
unfoldable pub family_of : Text → Text
unfolding before_slash text_eq
family_of method =
    let family : Text =
      if text_eq method (codes "subscriptions/listen")
      then codes "tools"
      else before_slash method in
    if text_eq family (codes "tools")
      || text_eq family (codes "prompts")
      || text_eq family (codes "resources")
    then family
    else codes "initialize"

abbrev pub with_family : Text → Config → Config
with_family family cfg = record cfg {
  servers = map {A = Server} {B = Server} (λ s. record s { discovery_method = family }) cfg.servers;
}

abbrev pub or_servers : List Server → List Server → List Server
or_servers servers [] = servers
or_servers servers (c ∷ cs) = c ∷ cs

-- The configuration of a call of a named tool, where `owner` finds the route of the name in the
-- cached catalog of a configuration, if there is one.
unfoldable pub select_owner : (Config → Option ToolRoute) → Text → Config → Config
unfolding candidates
select_owner owner name clone =
    let selected : Config = record clone {
      servers =
          or_servers clone.servers (candidates (ltb 1 (length clone.servers)) name clone.servers);
    } in
    let only : ToolRoute → Config = λ route. record selected {
      servers = record route.component { prefix = route.prefix } ∷ [];
    } in
    elim (owner clone) [
      | some route ↦ only route
      | none ↦ elim (owner selected) [ some route ↦ only route | none ↦ selected ]
    ]

-- `requestCatalogConfig`, where `called` is the name in the arguments, if they parse.
unfoldable pub request_catalog_config :
    (Config → Option ToolRoute) → Config → Text → Text → Option Text → Config
unfolding family_of select_owner text_eq
request_catalog_config owner cfg method name called =
    let clone = with_family (family_of method) cfg in
    let of_call : Config = elim called as (λ c. Config) [
      | none ↦ record clone { servers = [] }
      | some tool_name ↦ select_owner owner tool_name clone
    ] in
    if not cfg.request_scoped_discovery
    then cfg
    else if not (text_eq method (codes "tools/call")) || cfg.defer_authorization
    then clone
    else if not cfg.tool_search
    then select_owner owner name clone
    else if not (text_eq name call_tool_name)
    then clone
    else of_call
