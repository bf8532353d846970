-- ===== src/Catalog/Compiler/Loops.antt =====
-- The loops of catalog/compiler.go keep what each of their rounds keeps.
use mmmcp.Base.{
  ◌≡◌, Bool, true, false, if◌then◌else◌, Option, List, [], Text, text_keys, lookup, Result, ok,
  ◌>>=◌, IfOk, wrap,
}
use mmmcp.Catalog.{Tool, Prompt, Resource, ResourceTemplate, Catalog}
use mmmcp.Catalog.Compiler.{
  Error, Owned, tool, prompt, resource_uri, resource_template_uri, overridden, listed, kept,
  exposed_name, compile_loop, keyed_overrides, put_tool, add_tool, compile_tools, put_prompt,
  add_prompt, compile_prompts, put_resource, add_resource, compile_resources, put_template,
  add_template, compile_templates, invalid_identity,
}
use mmmcp.Namespace
use mmmcp.Namespace.{named_feature}
use mmmcp.Namespace.Uri.{resource, resource_template}
use mmmcp.Config.{ToolOverride, PromptOverride, ResourceOverride, ResourceTemplateOverride, Server}
use mmmcp.Catalog.Compiler.Invariant.{
  IsRouted, IsOwned, IfOk-bind, IfOk-if, compile_loop-keeps, wrap-eq-ok, put_tool-IsRouted,
  put_prompt-IsRouted, put_resource-IsRouted, put_template-IsOwned,
}

-- The shape of the four loop bodies: a hidden feature leaves the catalog, a kept one is named and put.
pub IfOk-added :
    {A S : Type 0} (P : S → Type 0) (shown : Bool) (named : Result Error A)
    (put : A → Result Error S) (c : S)
    → P c
    → ((a : A) → named ≡ ok a → IfOk P (put a))
    → IfOk P (if shown then named >>= put else ok c)
IfOk-added P true named put c h k = IfOk-bind P named put k
IfOk-added P false named put c h k = h

add_tool-IsRouted :
    (owners : List (Text × Text)) (server : Server) (prefix protocol : Text)
    (overrides : List (Text × ToolOverride)) (t : Tool) (c : Catalog)
    → IsRouted owners c
    → IfOk (IsRouted owners) (add_tool server prefix protocol overrides t c)
unfolding add_tool
add_tool-IsRouted owners server prefix protocol overrides t c v =
    let override = lookup t.name overrides in
    let local = overridden override (λ o. o.override_name) t.name in
    let description = overridden override (λ o. o.override_description) t.description in
    IfOk-added (IsRouted owners) (listed overrides override)
      (exposed_name server prefix Namespace.tool local)
      (λ name. put_tool server prefix protocol name description t c) c v
      (λ name h.
        put_tool-IsRouted owners server prefix protocol name description local t c
          (wrap-eq-ok (invalid_identity server.name) _ name h) v)

pub compile_tools-IsRouted :
    (owners : List (Text × Text)) (server : Server) (prefix protocol : Text)
    (features : List (Option Tool)) (c : Catalog)
    → IsRouted owners c
    → IfOk (IsRouted owners) (compile_tools server prefix features protocol c)
unfolding compile_tools
compile_tools-IsRouted owners server prefix protocol features c v =
    let overrides_of =
      keyed_overrides server.name tool (λ (o : ToolOverride). o.name) [] server.tools in
    let loop : List (Text × ToolOverride) → Result Error Catalog = λ overrides.
      compile_loop server.name tool (λ (t : Tool). t.name)
        (add_tool server prefix protocol overrides) [] features c in
    IfOk-if (IsRouted owners) server.disable_tools (ok c) (overrides_of >>= loop) v (
      IfOk-bind (IsRouted owners) overrides_of loop (λ overrides h.
        compile_loop-keeps (IsRouted owners) server.name tool _ _
          (add_tool-IsRouted owners server prefix protocol overrides) [] features c v))

add_prompt-IsRouted :
    (owners : List (Text × Text)) (server : Server) (prefix : Text)
    (overrides : List (Text × PromptOverride)) (p : Prompt) (c : Catalog)
    → IsRouted owners c
    → IfOk (IsRouted owners) (add_prompt server prefix overrides p c)
unfolding add_prompt
add_prompt-IsRouted owners server prefix overrides p c v =
    let override = lookup p.name overrides in
    let local = overridden override (λ o. o.override_name) p.name in
    let description = overridden override (λ o. o.override_description) p.description in
    IfOk-added (IsRouted owners) (kept (λ o. o.enabled) override)
      (exposed_name server prefix Namespace.prompt local)
      (λ name. put_prompt server prefix name description p c) c v
      (λ name h.
        put_prompt-IsRouted owners server prefix name description local p c
          (wrap-eq-ok (invalid_identity server.name) _ name h) v)

pub compile_prompts-IsRouted :
    (owners : List (Text × Text)) (server : Server) (prefix : Text)
    (features : List (Option Prompt)) (c : Catalog)
    → IsRouted owners c
    → IfOk (IsRouted owners) (compile_prompts server prefix features c)
unfolding compile_prompts
compile_prompts-IsRouted owners server prefix features c v =
    IfOk-bind (IsRouted owners)
      (keyed_overrides server.name prompt (λ (o : PromptOverride). o.name) [] server.prompts) _
      (λ overrides h.
        compile_loop-keeps (IsRouted owners) server.name prompt _ _
          (add_prompt-IsRouted owners server prefix overrides) [] features c v)

add_resource-IsRouted :
    (owners : List (Text × Text)) (url_scheme : Text → Option Text) (server : Server)
    (prefix : Text) (overrides : List (Text × ResourceOverride)) (r : Resource) (c : Catalog)
    → IsRouted owners c
    → IfOk (IsRouted owners) (add_resource url_scheme server prefix overrides r c)
unfolding add_resource
add_resource-IsRouted owners url_scheme server prefix overrides r c v =
    let override = lookup r.uri overrides in
    let exposed = resource url_scheme prefix (overridden override (λ o. o.override_uri) r.uri) in
    let name = overridden override (λ o. o.override_name) r.name in
    let description = overridden override (λ o. o.override_description) r.description in
    IfOk-added (IsRouted owners) (kept (λ o. o.enabled) override)
      (wrap (invalid_identity server.name) exposed)
      (λ uri. put_resource server prefix uri name description r c) c v
      (λ uri h. put_resource-IsRouted owners server prefix uri name description r c v)

pub compile_resources-IsRouted :
    (owners : List (Text × Text)) (url_scheme : Text → Option Text) (server : Server)
    (prefix : Text) (features : List (Option Resource)) (c : Catalog)
    → IsRouted owners c
    → IfOk (IsRouted owners) (compile_resources url_scheme server prefix features c)
unfolding compile_resources
compile_resources-IsRouted owners url_scheme server prefix features c v =
    IfOk-bind (IsRouted owners)
      (keyed_overrides server.name resource_uri (λ (o : ResourceOverride). o.uri) []
        server.resources)
      _
      (λ overrides h.
        compile_loop-keeps (IsRouted owners) server.name resource_uri _ _
          (add_resource-IsRouted owners url_scheme server prefix overrides) [] features c v)

add_template-IsOwned :
    (parses : Text → Bool) (server : Server) (prefix : Text)
    (overrides : List (Text × ResourceTemplateOverride)) (t : ResourceTemplate) (c : Owned)
    → IsOwned c
    → IfOk IsOwned (add_template parses server prefix overrides t c)
unfolding add_template
add_template-IsOwned parses server prefix overrides t c v =
    let override = lookup t.uri_template overrides in
    let local = overridden override (λ o. o.override_uri_template) t.uri_template in
    let name = overridden override (λ o. o.override_name) t.name in
    let description = overridden override (λ o. o.override_description) t.description in
    IfOk-added IsOwned (kept (λ o. o.enabled) override)
      (wrap (invalid_identity server.name) (resource_template parses prefix local))
      (λ uri. put_template parses server prefix uri name description t c) c v
      (λ uri h. put_template-IsOwned parses server prefix uri name description t c v)

pub compile_templates-IsOwned :
    (parses : Text → Bool) (server : Server) (prefix : Text)
    (features : List (Option ResourceTemplate)) (c : Owned)
    → IsOwned c
    → IfOk IsOwned (compile_templates parses server prefix features c)
unfolding compile_templates
compile_templates-IsOwned parses server prefix features c v =
    IfOk-bind IsOwned
      (keyed_overrides server.name resource_template_uri
        (λ (o : ResourceTemplateOverride). o.uri_template) [] server.resource_templates)
      _
      (λ overrides h.
        compile_loop-keeps IsOwned server.name resource_template_uri _ _
          (add_template-IsOwned parses server prefix overrides) [] features c v)
