-- ===== src/Config/Loading.antt =====
-- What a configuration that loads satisfies (config/load.go).
use mmmcp.Base.{
  contains_text, Distinct, ℕ, suc, ◌≡◌, refl, ◌≢◌, ◌⊎◌, inl, inr, false, not, is_empty, List, [],
  ◌∷◌, length, map, Text, text_eq_iff, ok, Result-cases, >>=-eq-ok, ok-injective, subst, All, arith,
}
use mmmcp.Config.{
  ToolOverride, PromptOverride, ResourceOverride, ResourceTemplateOverride, Server, Config,
  ToolOverrideDto, PromptOverrideDto, ResourceOverrideDto, ResourceTemplateOverrideDto, ServerDto,
  ConfigDto,
}
use mmmcp.Config.Interpolate.{Environment}
use mmmcp.Config.Load

-- What `serverDTO.runtime` promises of a server.
pub record IsValidServer (s : Server) : Type 0 where
  pub named : s.name ≢ []
  pub transport : ((s.url ≢ []) × (s.command ≡ [])) ⊎ ((s.url ≡ []) × (s.command ≢ []))
  pub remote : s.url ≢ [] → (s.args ≡ []) × (s.env ≡ []) × (s.working_directory ≡ [])
  pub local : s.command ≢ [] → (s.headers ≡ []) × (s.passthrough_headers ≡ [])
  pub tools_named : All (λ (t : ToolOverride). t.name ≢ []) s.tools
  pub prompts_named : All (λ (p : PromptOverride). p.name ≢ []) s.prompts
  pub resources_named : All (λ (r : ResourceOverride). r.uri ≢ []) s.resources
  pub templates_named :
      All (λ (t : ResourceTemplateOverride). t.uri_template ≢ []) s.resource_templates

tool_overrides_named :
    (i : ℕ) (ds : List ToolOverrideDto) (os : List ToolOverride)
    → Load.tool_overrides i ds ≡ ok os
    → All (λ (o : ToolOverride). o.name ≢ []) os
unfolding Load.tool_overrides
tool_overrides_named i [] os h = ground arith
tool_overrides_named i (d ∷ ds) os h = elim (Result-cases (Load.tool_overrides (suc i) ds)) [
  | inl (rest, e) ↦ ground (arith, tool_overrides_named (suc i) ds rest e)
  | inr (x, e) ↦ absurd (ground arith)
]

prompt_overrides_named :
    (i : ℕ) (ds : List PromptOverrideDto) (os : List PromptOverride)
    → Load.prompt_overrides i ds ≡ ok os
    → All (λ (o : PromptOverride). o.name ≢ []) os
unfolding Load.prompt_overrides
prompt_overrides_named i [] os h = ground arith
prompt_overrides_named i (d ∷ ds) os h = elim (Result-cases (Load.prompt_overrides (suc i) ds)) [
  | inl (rest, e) ↦ ground (arith, prompt_overrides_named (suc i) ds rest e)
  | inr (x, e) ↦ absurd (ground arith)
]

resource_overrides_named :
    (i : ℕ) (ds : List ResourceOverrideDto) (os : List ResourceOverride)
    → Load.resource_overrides i ds ≡ ok os
    → All (λ (o : ResourceOverride). o.uri ≢ []) os
unfolding Load.resource_overrides
resource_overrides_named i [] os h = ground arith
resource_overrides_named i (d ∷ ds) os h =
    elim (Result-cases (Load.resource_overrides (suc i) ds)) [
      | inl (rest, e) ↦ ground (arith, resource_overrides_named (suc i) ds rest e)
      | inr (x, e) ↦ absurd (ground arith)
    ]

template_overrides_named :
    (i : ℕ) (ds : List ResourceTemplateOverrideDto) (os : List ResourceTemplateOverride)
    → Load.template_overrides i ds ≡ ok os
    → All (λ (o : ResourceTemplateOverride). o.uri_template ≢ []) os
unfolding Load.template_overrides
template_overrides_named i [] os h = ground arith
template_overrides_named i (d ∷ ds) os h =
    elim (Result-cases (Load.template_overrides (suc i) ds)) [
      | inl (rest, e) ↦ ground (arith, template_overrides_named (suc i) ds rest e)
      | inr (x, e) ↦ absurd (ground arith)
    ]

check_transport_lem :
    (d : ServerDto) (url command directory : Text)
    → Load.check_transport d url command directory ≡ ok tt
    → (((url ≢ []) × (command ≡ [])) ⊎ ((url ≡ []) × (command ≢ [])))
      × (url ≢ [] → (d.args ≡ []) × (d.env ≡ []) × (directory ≡ []))
      × (command ≢ [] → (d.headers ≡ []) × (d.passthrough_headers ≡ []))
unfolding Load.check_transport
check_transport_lem d url command directory h = ground arith

interpolate_entries-nil :
    (lookup : Environment) (field : Text → Load.Field) (es : List (Text × Text))
    → Load.interpolate_entries lookup field [] ≡ ok es
    → es ≡ []
unfolding Load.interpolate_entries
interpolate_entries-nil lookup field es h = ground arith

interpolate_args-nil :
    (lookup : Environment) (i : ℕ) (es : List Text)
    → Load.interpolate_args lookup i [] ≡ ok es
    → es ≡ []
unfolding Load.interpolate_args
interpolate_args-nil lookup i es h = ground arith

module _ (lookup : Environment) (d : ServerDto) (url command directory : Text)
    (headers : List (Text × Text)) (args : List Text) (environment : List (Text × Text))
    (tools : List ToolOverride) (prompts : List PromptOverride) (resources : List ResourceOverride)
    (templates : List ResourceTemplateOverride) where
  assemble-IsValidServer :
      Load.trim_space d.name ≢ []
      → Load.check_transport d url command directory ≡ ok tt
      → Load.interpolate_entries lookup Load.at_header d.headers ≡ ok headers
      → Load.interpolate_args lookup 0 d.args ≡ ok args
      → Load.interpolate_entries lookup Load.at_env d.env ≡ ok environment
      → Load.tool_overrides 0 d.tools ≡ ok tools
      → Load.prompt_overrides 0 d.prompts ≡ ok prompts
      → Load.resource_overrides 0 d.resources ≡ ok resources
      → Load.template_overrides 0 d.resource_templates ≡ ok templates
      → IsValidServer (
          Load.assemble d url command directory headers args environment tools prompts resources
            templates)
  assemble-IsValidServer named checked eh ea ee et ep er em =
      let (transport, remote, local) = check_transport_lem d url command directory checked in
      record {
        named = named;
        transport = transport;
        remote = λ n.
            let (no_args, no_env, no_directory) = remote n in
            (
              interpolate_args-nil lookup 0 args (rw no_args at ea),
              interpolate_entries-nil lookup Load.at_env environment (rw no_env at ee),
              no_directory,
            );
        local = λ n.
            let (no_headers, no_passthrough) = local n in
            (
              interpolate_entries-nil lookup Load.at_header headers (rw no_headers at eh),
              no_passthrough,
            );
        tools_named = tool_overrides_named 0 d.tools tools et;
        prompts_named = prompt_overrides_named 0 d.prompts prompts ep;
        resources_named = resource_overrides_named 0 d.resources resources er;
        templates_named = template_overrides_named 0 d.resource_templates templates em;
      }

-- A server that loads is valid.
pub server_runtime-IsValidServer :
    (lookup : Environment) (d : ServerDto) (s : Server)
    → Load.server_runtime lookup d ≡ ok s
    → IsValidServer s × (s.name ≡ Load.trim_space d.name)
unfolding Load.server_runtime
server_runtime-IsValidServer lookup d s h =
    let (_, named, h0) =
      >>=-eq-ok (Load.require (not (is_empty (Load.trim_space d.name))) Load.name_must_not_be_empty)
        _ h in
    let (url, eu, h1) = >>=-eq-ok (Load.interpolate_field lookup Load.at_url d.url) _ h0 in
    let (command, ec, h2) =
      >>=-eq-ok (Load.interpolate_field lookup Load.at_command d.command) _ h1 in
    let (directory, ed, h3) =
      >>=-eq-ok (Load.interpolate_field lookup Load.at_working_directory d.working_directory) _
        h2 in
    let (_, checked, h4) = >>=-eq-ok (Load.check_transport d url command directory) _ h3 in
    let (headers, eh, h5) =
      >>=-eq-ok (Load.interpolate_entries lookup Load.at_header d.headers) _ h4 in
    let (args, ea, h6) = >>=-eq-ok (Load.interpolate_args lookup 0 d.args) _ h5 in
    let (environment, ee, h7) =
      >>=-eq-ok (Load.interpolate_entries lookup Load.at_env d.env) _ h6 in
    let (tools, et, h8) = >>=-eq-ok (Load.tool_overrides 0 d.tools) _ h7 in
    let (prompts, ep, h9) = >>=-eq-ok (Load.prompt_overrides 0 d.prompts) _ h8 in
    let (resources, er, h10) = >>=-eq-ok (Load.resource_overrides 0 d.resources) _ h9 in
    let (templates, em, h11) = >>=-eq-ok (Load.template_overrides 0 d.resource_templates) _ h10 in
    subst (λ s. IsValidServer s × (s.name ≡ Load.trim_space d.name)) (ok-injective h11)
      (
        assemble-IsValidServer lookup d url command directory headers args environment tools prompts
            resources templates (λ e. ground (arith, named)) checked eh ea ee et ep er em,
        refl,
      )

abbrev pub server_names : List Server → List Text
server_names = map (λ s. s.name)

abbrev Unseen : List Text → Server → Type 0
Unseen seen s = contains_text s.name seen ≡ false

not_seen :
    (n : Text) (seen : List Text) (ss : List Server)
    → All (Unseen (n ∷ seen)) ss
    → (contains_text n (server_names ss) ≡ false) × All (Unseen seen) ss
unfolding contains_text
not_seen n seen [] h = (refl, tt)
not_seen n seen (s ∷ ss) h =
    ground (arith, not_seen n seen ss h.1, text_eq_iff n s.name, text_eq_iff s.name n)

servers_runtime_lem :
    (lookup : Environment) (i : ℕ) (seen : List Text) (ds : List ServerDto) (ss : List Server)
    → Load.servers_runtime lookup i seen ds ≡ ok ss
    → All IsValidServer ss
      × Distinct (server_names ss)
      × All (Unseen seen) ss
      × (length ss ≡ length ds)
unfolding Load.servers_runtime
servers_runtime_lem lookup i seen [] ss h = ground arith
servers_runtime_lem lookup i seen (d ∷ ds) ss h =
    elim (Result-cases (Load.server_runtime lookup d)) [
      | inr (e, q) ↦ absurd (ground arith)
      | inl (s, q) ↦ elim (Result-cases (Load.servers_runtime lookup (suc i) (s.name ∷ seen) ds)) [
        | inr (e, w) ↦ absurd (ground arith)
        | inl (rest, w) ↦ ground (
          arith,
          server_runtime-IsValidServer lookup d s q,
          servers_runtime_lem lookup (suc i) (s.name ∷ seen) ds rest w,
          not_seen s.name seen rest,
        )
      ]
    ]

-- A configuration that loads has at least one component, no two of one name, and every component
-- is valid: it has a name, exactly one of URL and command and no settings of the other kind, and
-- every override names the feature it is for.
pub config_runtime-valid :
    (lookup : Environment) (d : ConfigDto) (c : Config)
    → Load.config_runtime lookup d ≡ ok c
    → (c.servers ≢ [])
      × Distinct (server_names c.servers)
      × All IsValidServer c.servers
      × (length c.servers ≡ length d.servers)
unfolding Load.config_runtime
config_runtime-valid lookup d c h =
    elim (Result-cases (Load.servers_runtime lookup 0 [] d.servers)) [
      | inr (e, q) ↦ absurd (ground arith)
      | inl (ss, q) ↦ ground (arith, servers_runtime_lem lookup 0 [] d.servers ss q)
    ]
