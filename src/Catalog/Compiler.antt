-- ===== src/Catalog/Compiler.antt =====
-- catalog/compiler.go: from configured components and their discovered features to a catalog.
pub mod Components
pub mod Keys
pub mod Invariant
pub mod Loops
pub mod Routes
pub mod AllowList
pub mod Complete
use mmmcp.Base.{
  ℕ, Bool, true, false, not, ◌&&◌, ◌||◌, if◌then◌else◌, is_empty, Option, none, some, List, [], ◌∷◌,
  ◌++◌, Text, text_keys, lookup, insert, contains_text, Result, ok, err, ◌>>=◌, wrap,
}
use mmmcp.Catalog.{
  Tool, Prompt, Resource, ResourceTemplate, Features, ToolRoute, PromptRoute, ResourceRoute,
  ResourceTemplateRoute, Catalog,
}
use mmmcp.Config.{ToolOverride, PromptOverride, ResourceOverride, ResourceTemplateOverride, Server}
use mmmcp.Namespace
use mmmcp.Namespace.{named_feature}
use mmmcp.Namespace.Uri.{resource, resource_template}

-- `family`, as the messages name it.
pub data Kind : Type 0 where
  tool prompt resource_uri resource_template_uri : Kind

pub data Error : Type 0 where
  duplicate_override : Text → Kind → Text → Error
  nil_feature : Text → Kind → Error
  duplicate_feature : Text → Kind → Text → Error
  invalid_identity : Text → Namespace.Error → Error
  collision : Kind → Text → Text → Text → Error
  invalid_prefix : Text → Namespace.Error → Error
  reserved_tool_name : Error
  snapshot_failed : Error
  nil_dereference : Error
  nil_features : Text → Error
  discovery_failed : ℕ → Error
  authorization_required : List Text → Error

-- `keyedOverrides`, with the map built so far.
unfoldable pub keyed_overrides :
    {T : Type 0}
    → Text
    → Kind
    → (T → Text)
    → List (Text × T)
    → List T
    → Result Error (List (Text × T))
keyed_overrides component kind key result [] = ok result
keyed_overrides component kind key result (value ∷ values) = elim (lookup (key value) result) [
  | some other ↦ err (duplicate_override component kind (key value))
  | none ↦ keyed_overrides component kind key (insert (key value) value result) values
]

-- `if text != "" { … = text }`
abbrev pub override_text : Text → Text → Text
override_text replacement original = if is_empty replacement then original else replacement

abbrev pub is_nil {ℓ} : {A : Type ℓ} → List A → Bool
is_nil [] = true
is_nil (x ∷ xs) = false

-- The loop over the discovered features, with the identities seen and the catalog built so far.
-- The body is the rest of a round.
module _ {A S : Type 0} (component : Text) (kind : Kind) (identity : A → Text)
    (body : A → S → Result Error S) where
  unfoldable pub compile_loop : List Text → List (Option A) → S → Result Error S
  compile_loop seen [] c = ok c
  compile_loop seen (none ∷ rest) c = err (nil_feature component kind)
  compile_loop seen (some a ∷ rest) c =
      if contains_text (identity a) seen
      then err (duplicate_feature component kind (identity a))
      else body a c >>= compile_loop (identity a ∷ seen) rest

-- What an override, if there is one, makes of a feature's identity and description.
abbrev pub overridden : {T : Type 0} → Option T → (T → Text) → Text → Text
overridden none field original = original
overridden (some o) field original = override_text (field o) original

-- Whether the loops of `compilePrompts`, `compileResources` and `compileTemplates` keep a feature:
-- only an override that is there and disabled hides it.
abbrev pub kept : {T : Type 0} → (T → Bool) → Option T → Bool
kept enabled none = true
kept enabled (some o) = enabled o

-- Whether `compileTools` keeps a tool: with overrides, only those enabled by one.
abbrev pub listed : List (Text × ToolOverride) → Option ToolOverride → Bool
listed overrides none = is_nil overrides
listed overrides (some o) = is_nil overrides || o.enabled

module _ (server : Server) (prefix : Text) where
  -- The exposed name of a kept tool or prompt, or the error that the loop returns.
  abbrev pub exposed_name : Namespace.Family → Text → Result Error Text
  exposed_name family local =
      wrap (invalid_identity server.name) (named_feature family prefix local)

  -- The end of the loop body of `compileTools`.
  unfoldable pub put_tool : Text → Text → Text → Tool → Catalog → Result Error Catalog
  put_tool protocol name description t c = elim (lookup name c.tool_routes) [
    | some existing ↦ err (collision tool name existing.component.name server.name)
    | none ↦
        let clone = record t { name = name; description = description } in
        let route : ToolRoute = record {
          protocol_version = protocol;
          component = server;
          prefix = prefix;
          tool = t;
        } in
        ok (record c {
          tools = c.tools ++ clone ∷ [];
          visible_tools = if c.tool_search then c.visible_tools else c.visible_tools ++ clone ∷ [];
          tool_routes = insert name route c.tool_routes;
        })
  ]

  -- The loop body of `compileTools`, from its look-up of the override.
  unfoldable pub add_tool :
      Text → List (Text × ToolOverride) → Tool → Catalog → Result Error Catalog
  unfolding put_tool
  add_tool protocol overrides t c =
      let override = lookup t.name overrides in
      let added =
        exposed_name Namespace.tool (overridden override (λ o. o.override_name) t.name) >>= λ name.
        put_tool protocol name (overridden override (λ o. o.override_description) t.description) t
          c in
      if listed overrides override then added else ok c

  -- `compileTools`
  unfoldable pub compile_tools : List (Option Tool) → Text → Catalog → Result Error Catalog
  unfolding keyed_overrides compile_loop add_tool
  compile_tools discovered protocol c =
      if server.disable_tools
      then ok c
      else keyed_overrides server.name tool (λ (o : ToolOverride). o.name) [] server.tools
        >>= λ overrides.
            compile_loop server.name tool (λ (t : Tool). t.name) (add_tool protocol overrides) []
              discovered c

  -- The end of the loop body of `compilePrompts`.
  unfoldable pub put_prompt : Text → Text → Prompt → Catalog → Result Error Catalog
  put_prompt name description p c = elim (lookup name c.prompt_routes) [
    | some existing ↦ err (collision prompt name existing.component.name server.name)
    | none ↦
        let clone = record p { name = name; description = description } in
        let route : PromptRoute = record {
          component = server;
          prefix = prefix;
          original_name = p.name;
        } in
        ok (record c {
          prompts = c.prompts ++ clone ∷ [];
          prompt_routes = insert name route c.prompt_routes;
        })
  ]

  unfoldable pub add_prompt : List (Text × PromptOverride) → Prompt → Catalog → Result Error Catalog
  unfolding put_prompt
  add_prompt overrides p c =
      let override = lookup p.name overrides in
      let added =
        exposed_name Namespace.prompt (overridden override (λ o. o.override_name) p.name)
        >>= λ name.
            put_prompt name (overridden override (λ o. o.override_description) p.description) p c in
      if kept (λ o. o.enabled) override then added else ok c

  -- `compilePrompts`
  unfoldable pub compile_prompts : List (Option Prompt) → Catalog → Result Error Catalog
  unfolding keyed_overrides compile_loop add_prompt
  compile_prompts discovered c =
      keyed_overrides server.name prompt (λ (o : PromptOverride). o.name) [] server.prompts
      >>= λ overrides.
          compile_loop server.name prompt (λ (p : Prompt). p.name) (add_prompt overrides) []
            discovered c

  -- The end of the loop body of `compileResources`.
  unfoldable pub put_resource : Text → Text → Text → Resource → Catalog → Result Error Catalog
  put_resource uri name description r c = elim (lookup uri c.resource_routes) [
    | some existing ↦ err (collision resource_uri uri existing.component.name server.name)
    | none ↦
        let clone = record r { uri = uri; name = name; description = description } in
        let route : ResourceRoute = record {
          component = server;
          prefix = prefix;
          original_uri = r.uri;
          composite_uri = uri;
        } in
        ok (record c {
          resources = c.resources ++ clone ∷ [];
          resource_routes = insert uri route c.resource_routes;
        })
  ]

-- `url.Parse`, as in `Namespace.Uri`.
module _ (url_scheme : Text → Option Text) (server : Server) (prefix : Text) where
  unfoldable pub add_resource :
      List (Text × ResourceOverride) → Resource → Catalog → Result Error Catalog
  unfolding put_resource
  add_resource overrides r c =
      let override = lookup r.uri overrides in
      let exposed = resource url_scheme prefix (overridden override (λ o. o.override_uri) r.uri) in
      let added = wrap (invalid_identity server.name) exposed >>= λ uri.
      put_resource server prefix uri (overridden override (λ o. o.override_name) r.name)
        (overridden override (λ o. o.override_description) r.description) r c in
      if kept (λ o. o.enabled) override then added else ok c

  -- `compileResources`
  unfoldable pub compile_resources : List (Option Resource) → Catalog → Result Error Catalog
  unfolding keyed_overrides compile_loop add_resource
  compile_resources discovered c =
      keyed_overrides server.name resource_uri (λ (o : ResourceOverride). o.uri) [] server.resources
      >>= λ overrides.
          compile_loop server.name resource_uri (λ (r : Resource). r.uri) (add_resource overrides)
            [] discovered c

-- The owners of the exposed templates go along with the catalog.
abbrev pub Owned : Type 0
Owned = Catalog × List (Text × Text)

-- `uritemplate.New`, as in `Namespace.Uri`.
module _ (template_parses : Text → Bool) (server : Server) (prefix : Text) where
  -- The end of the loop body of `compileTemplates`.
  unfoldable pub put_template : Text → Text → Text → ResourceTemplate → Owned → Result Error Owned
  put_template uri name description t (c, owners) = elim (lookup uri owners) [
    | some existing ↦ err (collision resource_template_uri uri existing server.name)
    | none ↦
        let clone = record t { uri_template = uri; name = name; description = description } in
        let route : ResourceTemplateRoute = record {
          component = server;
          prefix = prefix;
          original_template = t.uri_template;
          composite_template = uri;
        } in
        ok (
          record c {
            resource_templates = c.resource_templates ++ clone ∷ [];
            template_routes = c.template_routes ++ route ∷ [];
          },
          insert uri server.name owners,
        )
  ]

  unfoldable pub add_template :
      List (Text × ResourceTemplateOverride) → ResourceTemplate → Owned → Result Error Owned
  unfolding put_template
  add_template overrides t c =
      let override = lookup t.uri_template overrides in
      let exposed =
        resource_template template_parses prefix
          (overridden override (λ o. o.override_uri_template) t.uri_template) in
      let added = wrap (invalid_identity server.name) exposed >>= λ uri.
      put_template uri (overridden override (λ o. o.override_name) t.name)
        (overridden override (λ o. o.override_description) t.description) t c in
      if kept (λ o. o.enabled) override then added else ok c

  -- `compileTemplates`
  unfoldable pub compile_templates : List (Option ResourceTemplate) → Owned → Result Error Owned
  unfolding keyed_overrides compile_loop add_template
  compile_templates discovered c =
      keyed_overrides server.name resource_template_uri
        (λ (o : ResourceTemplateOverride). o.uri_template) [] server.resource_templates
      >>= λ overrides.
          compile_loop server.name resource_template_uri (λ (t : ResourceTemplate). t.uri_template)
            (add_template overrides) [] discovered c
