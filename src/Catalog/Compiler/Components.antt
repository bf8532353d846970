-- ===== src/Catalog/Compiler/Components.antt =====
-- catalog/compiler.go: discovery of the components, and `compile`; catalog/catalog.go: `newCatalog`;
-- catalog/search.go: the documents. The discoverer, URL and template parsing, and the hashes are
-- parameters. Components are discovered in order here: of several failures the code reports the
-- first in time.
use mmmcp.Base.{
  ℕ, Bool, true, false, not, ◌&&◌, if◌then◌else◌, leb, is_empty, Option, none, some, List, [], ◌∷◌,
  ◌++◌, length, Text, text_keys, codes, lookup, Result, ok, err, ◌>>=◌, wrap,
}
use mmmcp.Catalog.{
  Tool, Resource, ResourceTemplate, Implementation, Features, ToolRoute, Document, Catalog, sort_by,
}
use mmmcp.Catalog.Compiler.{
  Error, invalid_prefix, reserved_tool_name, snapshot_failed, nil_dereference, nil_features,
  discovery_failed, authorization_required, Owned, is_nil, compile_tools, compile_prompts,
  compile_resources, compile_templates,
}
use mmmcp.Config.{ResourceOverride, ResourceTemplateOverride, Server, Config}
use mmmcp.Namespace.{prefix}

-- `toolsearch.Definitions`
abbrev pub search_tool : Tool
search_tool = record {
  name = codes "search_tools";
  description =
      codes
        "Find available tools by name, description, and input parameters. Results include schemas and references for call_tool. Use offset to retrieve further results when hasMore is true.";
  details = 1;
}

abbrev pub call_tool : Tool
call_tool = record {
  name = codes "call_tool";
  description = codes "Invoke a tool returned by search_tools using its name and revision.";
  details = 2;
}

abbrev pub definitions : List Tool
definitions = search_tool ∷ call_tool ∷ []

abbrev pub authorization_tool_name : Text
authorization_tool_name = codes "mmmcp_auth_status"

-- `authorizationTool`; its text is among the details.
abbrev pub authorization_tool : Tool
authorization_tool = record { name = authorization_tool_name; description = []; details = 3 }

-- `newCompileCatalog`
unfoldable pub new_compile_catalog : Bool → Catalog
new_compile_catalog tool_search = record {
  pending_authorization = [];
  id = [];
  server_info = none;
  tools = [];
  visible_tools = if tool_search then definitions else [];
  tool_search = tool_search;
  prompts = [];
  resources = [];
  resource_templates = [];
  tool_routes = [];
  search_index = none;
  prompt_routes = [];
  resource_routes = [];
  template_routes = [];
}

-- `server.DiscoveryMethod != "" && server.DiscoveryMethod != "resources"`
unfoldable pub maps_configured_uris : Server → Bool
maps_configured_uris server =
    not (is_empty server.discovery_method)
    && not (text_keys.same server.discovery_method (codes "resources"))

unfoldable pub enabled_resources : List ResourceOverride → List (Option Resource)
enabled_resources [] = []
enabled_resources (o ∷ os) =
    let rest = enabled_resources os in
    if o.enabled
    then some (record { uri = o.uri; name = []; description = []; details = 0 }) ∷ rest
    else rest

unfoldable pub enabled_templates : List ResourceTemplateOverride → List (Option ResourceTemplate)
enabled_templates [] = []
enabled_templates (o ∷ os) =
    let rest = enabled_templates os in
    if o.enabled
    then some (record { uri_template = o.uri_template; name = []; description = []; details = 0 })
      ∷ rest
    else rest

-- What the discoverer answers for one server: authorization challenges, features (nil among them)
-- or another error.
pub data Outcome : Type 0 where
  challenged : Outcome
  found : Option Features → Outcome
  failed : ℕ → Outcome

-- `discoveryResult`, with the component of a challenge that is not deferred.
pub record Discovery : Type 0 where
  pub features : Features
  pub pending : Bool
  pub challenge : Option Text

abbrev pub no_features : Features
no_features = record {
  protocol_version = [];
  server_info = none;
  tools = [];
  prompts = [];
  resources = [];
  resource_templates = [];
}

-- A server with its prefix and what was discovered of it.
pub record Component : Type 0 where
  pub server : Server
  pub prefix : Text
  pub discovery : Discovery

-- The loop over `prefixes` of `compile`. `single` tells whether there is one server at most.
unfoldable pub compile_prefixes : Bool → List Server → Result Error (List (Server × Text))
compile_prefixes single [] = ok []
compile_prefixes single (s ∷ ss) = do
  p ←
      if single && is_empty s.prefix
      then ok []
      else wrap (invalid_prefix s.name) (prefix s.name s.prefix)
  rest ← compile_prefixes single ss
  ok ((s, p) ∷ rest)

unfoldable pub pending_names : List Component → List Text
pending_names [] = []
pending_names (c ∷ cs) =
    let rest = pending_names cs in if c.discovery.pending then c.server.name ∷ rest else rest

unfoldable pub challenges : List Component → List Text
challenges [] = []
challenges (c ∷ cs) =
    let rest = challenges cs in elim c.discovery.challenge [ none ↦ rest | some n ↦ n ∷ rest ]

-- `len(discovered) == 1 && discovered[0].features.ServerInfo != nil`
unfoldable pub single_server_info : List Component → Option Implementation
single_server_info [] = none
single_server_info (c ∷ []) = c.discovery.features.server_info
single_server_info (c ∷ d ∷ cs) = none

module _ (url_scheme : Text → Option Text) (template_parses : Text → Bool) where
  -- `compileComponent`
  unfoldable pub compile_component : Server → Text → Features → Owned → Result Error Owned
  unfolding compile_tools compile_prompts compile_resources compile_templates maps_configured_uris
      enabled_resources enabled_templates
  compile_component server p features (c, owners) = do
    c₁ ← compile_tools server p features.tools features.protocol_version c
    c₂ ← compile_prompts server p features.prompts c₁
    let mapped = maps_configured_uris server
    let resources =
        if mapped
        then features.resources ++ enabled_resources server.resources
        else features.resources
    let templates =
        if mapped
        then features.resource_templates ++ enabled_templates server.resource_templates
        else features.resource_templates
    c₃ ← compile_resources url_scheme server p resources c₂
    compile_templates template_parses server p templates (c₃, owners)

  -- `validateComponent`
  unfoldable pub validate_component : Server → Text → Features → Result Error (Unit {0})
  unfolding compile_component new_compile_catalog
  validate_component server p features =
      compile_component server p features (new_compile_catalog false, []) >>= λ _. ok tt

  -- One round of a worker of `discoverComponents`.
  unfoldable pub discover_component :
      (Server → Outcome) → Bool → Server → Text → Result Error Discovery
  unfolding validate_component
  discover_component discover defer server p = elim (discover server) [
    | challenged ↦ ok (record {
      features = no_features;
      pending = true;
      challenge = if defer then none else some server.name;
    })
    | found none ↦ err (nil_features server.name)
    | found (some f) ↦ validate_component server p f >>= λ _.
        ok (record { features = f; pending = false; challenge = none })
    | failed e ↦ err (discovery_failed e)
  ]

  -- `discoverComponents`
  unfoldable pub discover_loop :
      (Server → Outcome) → Bool → List (Server × Text) → Result Error (List Component)
  unfolding discover_component
  discover_loop discover defer [] = ok []
  discover_loop discover defer ((s, p) ∷ ss) = do
    d ← discover_component discover defer s p
    rest ← discover_loop discover defer ss
    ok (record { server = s; prefix = p; discovery = d } ∷ rest)

  unfoldable pub discover_components :
      (Server → Outcome) → Bool → List (Server × Text) → Result Error (List Component)
  unfolding discover_loop challenges
  discover_components discover defer ss = discover_loop discover defer ss >>= λ cs.
      if is_nil (challenges cs) then ok cs else err (authorization_required (challenges cs))

  -- The loop over `compileComponent` of `compile`.
  unfoldable pub compile_components : List Component → Owned → Result Error Owned
  unfolding compile_component
  compile_components [] c = ok c
  compile_components (x ∷ xs) c = do
    next ← compile_component x.server x.prefix x.discovery.features c
    compile_components xs next

-- The hash of a snapshot's JSON, where it can be marshalled, and `toolsearch.Revision`.
module _ (snapshot_id : Catalog → Option Text) (revision : Text → Text → Text → Tool → Text) where
  unfoldable pub sorted : Catalog → Catalog
  unfolding sort_by
  sorted c = record c {
    tools = sort_by (λ t. t.name) c.tools;
    visible_tools = sort_by (λ t. t.name) c.visible_tools;
    prompts = sort_by (λ p. p.name) c.prompts;
    resources = sort_by (λ r. r.uri) c.resources;
    resource_templates = sort_by (λ t. t.uri_template) c.resource_templates;
  }

  -- `newCatalog`
  unfoldable pub new_catalog : Catalog → Result Error Catalog
  unfolding sorted
  new_catalog c = elim (snapshot_id (sorted c)) [
    | none ↦ err snapshot_failed
    | some id ↦ ok (record (sorted c) { id = id })
  ]

  -- The document of one tool in `searchDocuments`.
  abbrev pub document : Tool → ToolRoute → Document
  document t route = record {
    exposed_name = t.name;
    component = route.component.name;
    reference = t.name;
    revision = revision t.name route.component.name route.tool.name t;
    tool = t;
  }

  -- `searchDocuments`. A tool without a route would be a nil dereference.
  unfoldable pub search_documents :
      List (Text × ToolRoute) → List Tool → Result Error (List Document)
  search_documents routes [] = ok []
  search_documents routes (t ∷ ts) = elim (lookup t.name routes) [
    | none ↦ err nil_dereference
    | some route ↦ search_documents routes ts >>= λ rest. ok (document t route ∷ rest)
  ]

  -- The catalog with its search index, where tool search is on.
  unfoldable pub index_catalog : Bool → Catalog → Result Error Catalog
  unfolding search_documents
  index_catalog searches c =
      let indexed = search_documents c.tool_routes c.tools >>= λ documents.
      ok (record c { search_index = some documents }) in
      if searches then indexed else ok c

  -- What `compile` returns while components wait for authorization.
  unfoldable pub pending_catalog : List Text → Catalog → Catalog
  unfolding new_compile_catalog
  pending_catalog pending c = record (new_compile_catalog false) {
    server_info = c.server_info;
    pending_authorization = pending;
    tools = authorization_tool ∷ [];
    visible_tools = authorization_tool ∷ [];
  }

  -- Whether a tool takes the name that is reserved for authorization.
  unfoldable pub takes_reserved : Config → Catalog → Bool
  takes_reserved cfg c = elim (lookup authorization_tool_name c.tool_routes) [
    | none ↦ false
    | some route ↦ cfg.defer_authorization
  ]

  -- The end of `compile`, once the components are compiled into the catalog.
  unfoldable pub finish_compile : Config → List Component → Catalog → Result Error Catalog
  unfolding new_catalog pending_names pending_catalog takes_reserved index_catalog
  finish_compile cfg components c =
      let complete = new_catalog c >>= index_catalog cfg.tool_search in
      let pending = pending_names components in
      let returned = if is_nil pending then complete else new_catalog (pending_catalog pending c) in
      if takes_reserved cfg c then err reserved_tool_name else returned

  -- `compile`
  unfoldable pub compile :
      (Text → Option Text)
      → (Text → Bool)
      → (Server → Outcome)
      → Bool
      → Config
      → Result Error Catalog
  unfolding compile_prefixes discover_components compile_components finish_compile
      single_server_info new_compile_catalog
  compile url_scheme template_parses discover defer cfg = do
    prefixed ← compile_prefixes (leb (length cfg.servers) 1) cfg.servers
    components ← discover_components url_scheme template_parses discover defer prefixed
    let start = record (new_compile_catalog cfg.tool_search) {
      server_info = single_server_info components;
    }
    (c, owners) ← compile_components url_scheme template_parses components (start, [])
    finish_compile cfg components c
