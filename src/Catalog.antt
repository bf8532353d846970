-- ===== src/Catalog.antt =====
-- catalog/catalog.go and catalog/routes.go: composite feature snapshots and their routes.
pub mod Sorting
pub mod Compiler
pub mod Pagination
pub mod Registry
pub mod Calls
pub mod Dispatch
pub mod Rewriting
pub mod Identities
use mmmcp.Base.{
  ℕ, Bool, true, false, if◌then◌else◌, Option, none, some, List, [], ◌∷◌, Text, text_keys, lookup,
  text_lt, map,
}
use mmmcp.Config.{Server}

-- The features of the MCP protocol. `details` stands for the fields that the catalog only copies;
-- 0 is a feature with none of them set.
pub record Tool : Type 0 where
  pub name : Text
  pub description : Text
  pub details : ℕ

pub record Prompt : Type 0 where
  pub name : Text
  pub description : Text
  pub details : ℕ

pub record Resource : Type 0 where
  pub uri : Text
  pub name : Text
  pub description : Text
  pub details : ℕ

pub record ResourceTemplate : Type 0 where
  pub uri_template : Text
  pub name : Text
  pub description : Text
  pub details : ℕ

pub record Implementation : Type 0 where
  pub name : Text
  pub version : Text

-- `component.Features`; a missing element is a nil pointer.
pub record Features : Type 0 where
  pub protocol_version : Text
  pub server_info : Option Implementation
  pub tools : List (Option Tool)
  pub prompts : List (Option Prompt)
  pub resources : List (Option Resource)
  pub resource_templates : List (Option ResourceTemplate)

pub record ToolRoute : Type 0 where
  pub protocol_version : Text
  pub component : Server
  pub prefix : Text
  pub tool : Tool

pub record PromptRoute : Type 0 where
  pub component : Server
  pub prefix : Text
  pub original_name : Text

pub record ResourceRoute : Type 0 where
  pub component : Server
  pub prefix : Text
  pub original_uri : Text
  pub composite_uri : Text

-- The parsed templates are told by their texts.
pub record ResourceTemplateRoute : Type 0 where
  pub component : Server
  pub prefix : Text
  pub original_template : Text
  pub composite_template : Text

-- `toolsearch.Document`
pub record Document : Type 0 where
  pub exposed_name : Text
  pub component : Text
  pub reference : Text
  pub revision : Text
  pub tool : Tool

-- The route maps are association lists. The search index is told by its documents.
pub record Catalog : Type 0 where
  pub pending_authorization : List Text
  pub id : Text
  pub server_info : Option Implementation
  pub tools : List Tool
  pub visible_tools : List Tool
  pub tool_search : Bool
  pub prompts : List Prompt
  pub resources : List Resource
  pub resource_templates : List ResourceTemplate
  pub tool_routes : List (Text × ToolRoute)
  pub search_index : Option (List Document)
  pub prompt_routes : List (Text × PromptRoute)
  pub resource_routes : List (Text × ResourceRoute)
  pub template_routes : List ResourceTemplateRoute

-- `toolNames`, `promptNames`, `resourceURIs` and `templateURIs`
abbrev pub tool_names : List Tool → List Text
tool_names = map (λ t. t.name)

abbrev pub prompt_names : List Prompt → List Text
prompt_names = map (λ p. p.name)

abbrev pub resource_uris : List Resource → List Text
resource_uris = map (λ r. r.uri)

abbrev pub template_uris : List ResourceTemplate → List Text
template_uris = map (λ t. t.uri_template)

-- `RouteTool`
unfoldable pub route_tool : Catalog → Text → Option ToolRoute
route_tool c name = if c.tool_search then none else lookup name c.tool_routes

-- `RoutePrompt`
unfoldable pub route_prompt : Catalog → Text → Option PromptRoute
route_prompt c name = lookup name c.prompt_routes

-- A template's `Match` and then another's `Expand`: the URI under the second template of one that
-- the first one matches.
module _ (transfer : Text → Text → Text → Option Text) where
  -- The loop of `RouteResource` over the template routes.
  unfoldable pub route_template : Text → List ResourceTemplateRoute → Option ResourceRoute
  route_template uri [] = none
  route_template uri (r ∷ rs) = elim (transfer r.composite_template r.original_template uri) [
    | none ↦ route_template uri rs
    | some original ↦ some (record {
      component = r.component;
      prefix = r.prefix;
      original_uri = original;
      composite_uri = [];
    })
  ]

  -- `RouteResource`
  unfoldable pub route_resource : Catalog → Text → Option ResourceRoute
  unfolding route_template
  route_resource c uri = elim (lookup uri c.resource_routes) [
    | some route ↦ some route
    | none ↦ route_template uri c.template_routes
  ]

-- `sort.Slice` by an identity, on slices without two elements of one identity.
module _ {A : Type 0} (identity : A → Text) where
  unfoldable pub insert_sorted : A → List A → List A
  insert_sorted a [] = a ∷ []
  insert_sorted a (x ∷ xs) =
      let rest = insert_sorted a xs in
      if text_lt (identity x) (identity a) then x ∷ rest else a ∷ x ∷ xs

  unfoldable pub sort_by : List A → List A
  unfolding insert_sorted
  sort_by [] = []
  sort_by (x ∷ xs) = insert_sorted x (sort_by xs)
