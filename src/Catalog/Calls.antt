-- ===== src/Catalog/Calls.antt =====
-- catalog/tool_calls.go and the look-up of references in catalog/search.go: which calls of tools
-- reach a component.
use mmmcp.Base.{
  not, if◌then◌else◌, Option, none, some, List, [], ◌∷◌, Text, codes, text_eq, text_keys, lookup,
}
use mmmcp.Catalog.{Tool, ToolRoute, Catalog, route_tool}
use mmmcp.Search.{revision, new_documents}
use mmmcp.Search.Builder.{CallArguments, Decoder, CallResult, parse_call_arguments}

abbrev pub search_tool_name : Text
search_tool_name = codes "search_tools"

abbrev pub call_tool_name : Text
call_tool_name = codes "call_tool"

-- `failedToolCall`, by its code.
pub data Failure : Type 0 where
  invalid_arguments tool_unavailable stale_reference : Failure

-- `ResolvedToolCall`: a route with the arguments, the result of the search tool, or an error
-- result. `search_disabled` is the error of a catalog without an index.
pub data Resolved (Raw : Type 0) : Type 0 where
  routed : ToolRoute → Raw → Resolved Raw
  searched : CallResult → Resolved Raw
  search_disabled : Resolved Raw
  failed : Failure → Resolved Raw

-- The first tool of the name has the route, if it has one.
unfoldable pub direct_reference :
    (Text → ToolRoute → Tool → Text)
    → List (Text × ToolRoute)
    → Text
    → List Tool
    → Option (ToolRoute × Text)
direct_reference digest routes name [] = none
direct_reference digest routes name (t ∷ ts) =
    let rest = direct_reference digest routes name ts in
    if text_eq t.name name
    then elim (lookup t.name routes) [
      | none ↦ none
      | some route ↦ some (route, digest name route t)
    ]
    else rest

-- `RouteReference`: the route and the revision, where `digest` computes the revision of a catalog
-- without an index.
unfoldable pub route_reference :
    (Text → ToolRoute → Tool → Text) → Text → Catalog → Option (ToolRoute × Text)
unfolding direct_reference revision
route_reference digest name c = elim c.search_index [
  | none ↦ direct_reference digest c.tool_routes name c.tools
  | some documents ↦ elim (revision (some (new_documents [] documents)) name) [
    | none ↦ none
    | some r ↦ elim (lookup name c.tool_routes) [ none ↦ none | some route ↦ some (route, r) ]
  ]
]

module _ (d : Decoder) (encode : d.Raw → Text) (digest : Text → ToolRoute → Tool → Text)
    (search : Text → CallResult) where
  -- The call of a reference, after its arguments are parsed.
  unfoldable pub resolve_reference : CallArguments d.Raw → Catalog → Resolved d.Raw
  unfolding route_reference text_eq
  resolve_reference args c = elim (route_reference digest args.name c) [
    | none ↦ failed tool_unavailable
    | some found ↦
        if text_eq found.1 args.revision
        then routed found.0 args.arguments
        else failed stale_reference
  ]

  abbrev pub search_call : Text → Catalog → Resolved d.Raw
  search_call text c = elim c.search_index [
    | none ↦ search_disabled
    | some documents ↦ searched (search text)
  ]

  abbrev pub reference_call : Text → Catalog → Resolved d.Raw
  reference_call text c = elim (parse_call_arguments d text) [
    | none ↦ failed invalid_arguments
    | some args ↦ resolve_reference args c
  ]

  -- `ResolveToolCall`; `none` is a name that is not callable.
  unfoldable pub resolve_tool_call : Text → d.Raw → Catalog → Option (Resolved d.Raw)
  unfolding resolve_reference route_tool text_eq parse_call_arguments
  resolve_tool_call name arguments c =
      let direct : Option (Resolved d.Raw) = elim (route_tool c name) [
        | none ↦ none
        | some route ↦ some (routed route arguments)
      ] in
      if not c.tool_search
      then direct
      else if text_eq name search_tool_name
      then some (search_call (encode arguments) c)
      else if text_eq name call_tool_name
      then some (reference_call (encode arguments) c)
      else none
