-- ===== src/Catalog/Compiler/Routes.antt =====
-- The routes of the catalogs that `compile` (catalog/compiler.go) returns.
use mmmcp.Base.{
  ◌≡◌, ap, subst, inl, inr, Bool, false, if◌then◌else◌, Option, some, Option-cases, List, [], ◌∷◌,
  ◌++◌, Text, text_keys, contains_text, lookup, map, arith, IfOk,
}
use mmmcp.Catalog.{
  Tool, ToolRoute, PromptRoute, Features, Catalog, tool_names, prompt_names, resource_uris,
  template_uris, sort_by,
}
use mmmcp.Catalog.Compiler.{Owned, compile_tools, compile_prompts, compile_resources}
use mmmcp.Catalog.Compiler.Components.{
  Component, compile_component, compile_components, new_catalog, sorted, maps_configured_uris,
  enabled_resources, enabled_templates,
}
use mmmcp.Catalog.Compiler.Invariant.{IsRouted, IsOwned, NamedTool, NamedPrompt, IfOk-bind}
use mmmcp.Catalog.Compiler.Loops.{
  compile_tools-IsRouted, compile_prompts-IsRouted, compile_resources-IsRouted,
  compile_templates-IsOwned,
}
use mmmcp.Catalog.Compiler.Keys.{Keyed, is_some, contains_text-keys, All-lookup}
use mmmcp.Catalog.Sorting.{Ascending, Ascending-sort_by, contains_text-sort_by}
use mmmcp.Config.{Server}

module _ (url_scheme : Text → Option Text) (template_parses : Text → Bool) where
  compile_component-IsOwned :
      (server : Server) (prefix : Text) (features : Features) (c : Owned)
      → IsOwned c
      → IfOk IsOwned (compile_component url_scheme template_parses server prefix features c)
  unfolding compile_component
  compile_component-IsOwned server p features (c, owners) v =
      let mapped = maps_configured_uris server in
      let resources =
        if mapped
        then features.resources ++ enabled_resources server.resources
        else features.resources in
      let templates =
        if mapped
        then features.resource_templates ++ enabled_templates server.resource_templates
        else features.resource_templates in
      IfOk-bind IsOwned (compile_tools server p features.tools features.protocol_version c) _
        (λ c₁ h₁.
          let v₁ =
            subst (IfOk (IsRouted owners)) h₁ (compile_tools-IsRouted owners server p _ _ c v) in
          IfOk-bind IsOwned (compile_prompts server p features.prompts c₁) _ (λ c₂ h₂.
            let v₂ =
              subst (IfOk (IsRouted owners)) h₂
                (compile_prompts-IsRouted owners server p _ c₁ v₁) in
            IfOk-bind IsOwned (compile_resources url_scheme server p resources c₂) _ (λ c₃ h₃.
              let v₃ =
                subst (IfOk (IsRouted owners)) h₃
                  (compile_resources-IsRouted owners url_scheme server p _ c₂ v₂) in
              compile_templates-IsOwned template_parses server p templates (c₃, owners) v₃)))

  pub compile_components-IsOwned :
      (components : List Component) (c : Owned)
      → IsOwned c
      → IfOk IsOwned (compile_components url_scheme template_parses components c)
  unfolding compile_components
  compile_components-IsOwned [] c v = v
  compile_components-IsOwned (x ∷ xs) c v =
      IfOk-bind IsOwned
        (compile_component url_scheme template_parses x.server x.prefix x.discovery.features c) _
        (λ d h. compile_components-IsOwned xs d (
          subst (IfOk IsOwned) h
            (compile_component-IsOwned x.server x.prefix x.discovery.features c v)))

-- What a reader of a catalog relies on: tools and prompts are listed in ascending order, exactly
-- those that are routed, each under the name of its route; all are visible without tool search;
-- and with it, the index holds one document for each tool.
pub record IsComplete (c : Catalog) : Type 0 where
  pub tools_listed :
      (name : Text) → contains_text name (tool_names c.tools) ≡ is_some (lookup name c.tool_routes)
  pub tools_ascend : Ascending (tool_names c.tools)
  pub tools_named :
      (name : Text) (r : ToolRoute) → lookup name c.tool_routes ≡ some r → NamedTool (name, r)
  pub visible : c.tool_search ≡ false → c.visible_tools ≡ c.tools
  pub prompts_listed :
      (name : Text)
      → contains_text name (prompt_names c.prompts) ≡ is_some (lookup name c.prompt_routes)
  pub prompts_ascend : Ascending (prompt_names c.prompts)
  pub prompts_named :
      (name : Text) (r : PromptRoute) → lookup name c.prompt_routes ≡ some r → NamedPrompt (name, r)
  pub resources_listed :
      (uri : Text)
      → contains_text uri (resource_uris c.resources) ≡ is_some (lookup uri c.resource_routes)
  pub resources_ascend : Ascending (resource_uris c.resources)
  pub templates_ascend : Ascending (template_uris c.resource_templates)

Keyed-listed :
    {A V : Type 0} (f : A → Text) (xs : List A) (m : List (Text × V)) (k : Text)
    → Keyed (map f xs) m
    → contains_text k (map f (sort_by f xs)) ≡ is_some (lookup k m)
Keyed-listed f xs m k h = ground (arith, contains_text-sort_by f k xs, contains_text-keys k m)

module _ (snapshot_id : Catalog → Option Text) (revision : Text → Text → Text → Tool → Text) where
  pub new_catalog-IsComplete :
      (owners : List (Text × Text)) (c : Catalog)
      → IsRouted owners c
      → IfOk IsComplete (new_catalog snapshot_id revision c)
  unfolding new_catalog sorted
  new_catalog-IsComplete owners c v =
      elim (Option-cases (snapshot_id (sorted snapshot_id revision c))) [
        | inl q ↦ rw (q, new_catalog) tt
        | inr (id, q) ↦
            rw (q, new_catalog)
              (record {
                tools_listed = λ k. Keyed-listed _ c.tools _ k v.tools;
                tools_ascend = Ascending-sort_by _ c.tools v.tools.1;
                tools_named = λ k r h. All-lookup NamedTool k r c.tool_routes v.tools_named h;
                visible = λ s. ap (sort_by (λ (t : Tool). t.name)) (v.visible s);
                prompts_listed = λ k. Keyed-listed _ c.prompts _ k v.prompts;
                prompts_ascend = Ascending-sort_by _ c.prompts v.prompts.1;
                prompts_named =
                    λ k r h. All-lookup NamedPrompt k r c.prompt_routes v.prompts_named h;
                resources_listed = λ k. Keyed-listed _ c.resources _ k v.resources;
                resources_ascend = Ascending-sort_by _ c.resources v.resources.1;
                templates_ascend = Ascending-sort_by _ c.resource_templates v.templates.1;
              })
      ]
