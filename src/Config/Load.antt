-- ===== src/Config/Load.antt =====
-- config/load.go: from the decoded document to a checked configuration. Decoding YAML is not
-- modelled. Go visits a map in any order; here it is the order of the entries.
use mmmcp.Base.{
  ℕ, suc, Bool, true, false, not, ◌&&◌, ◌||◌, if◌then◌else◌, leb, ◌==◌, is_empty, List, [], ◌∷◌,
  Text, contains_text, Result, ok, err, ◌>>=◌, wrap,
}
use mmmcp.Config.{
  ToolOverride, PromptOverride, ResourceOverride, ResourceTemplateOverride, Server, Config,
  ToolOverrideDto, PromptOverrideDto, ResourceOverrideDto, ResourceTemplateOverrideDto, ServerDto,
  ConfigDto, enabled_or_default,
}
use mmmcp.Config.Interpolate
use mmmcp.Config.Interpolate.{Environment, interpolate}

-- Where in a server's description an error lies.
pub data Field : Type 0 where
  at_url at_command at_working_directory : Field
  at_header : Text → Field
  at_arg : ℕ → Field
  at_env : Text → Field

-- `%w`: what `interpolate` reported, or what the section itself checks.
pub data ServerError : Type 0 where
  name_must_not_be_empty : ServerError
  in_field : Field → Interpolate.Error → ServerError
  exactly_one_of_url_or_command : ServerError
  args_env_and_working_directory_require_command : ServerError
  headers_require_url : ServerError
  passthrough_headers_require_url : ServerError
  tool_name_must_not_be_empty : ℕ → ServerError
  prompt_name_must_not_be_empty : ℕ → ServerError
  resource_uri_must_not_be_empty : ℕ → ServerError
  template_uri_must_not_be_empty : ℕ → ServerError

pub data Error : Type 0 where
  no_component : Error
  at_server : ℕ → ServerError → Error
  duplicate_component_name : ℕ → Text → Error

-- `unicode.IsSpace`
unfoldable pub is_space : ℕ → Bool
is_space c =
    leb 0x09 c && leb c 0x0d
    || c == 0x20
    || c == 0x85
    || c == 0xa0
    || c == 0x1680
    || leb 0x2000 c && leb c 0x200a
    || c == 0x2028
    || c == 0x2029
    || c == 0x202f
    || c == 0x205f
    || c == 0x3000

unfoldable pub trim_space_left : Text → Text
unfolding is_space
trim_space_left [] = []
trim_space_left (c ∷ cs) = if is_space c then trim_space_left cs else c ∷ cs

unfoldable pub trim_space_right : Text → Text
unfolding is_space
trim_space_right [] = []
trim_space_right (c ∷ cs) =
    let rest = trim_space_right cs in if is_space c && is_empty rest then [] else c ∷ rest

-- `strings.TrimSpace`
unfoldable pub trim_space : Text → Text
unfolding trim_space_left trim_space_right
trim_space s = trim_space_right (trim_space_left s)

abbrev pub interpolate_field : Environment → Field → Text → Result ServerError Text
interpolate_field lookup field value = wrap (in_field field) (interpolate lookup value)

-- The loops over `Headers` and `Env`.
unfoldable pub interpolate_entries :
    Environment → (Text → Field) → List (Text × Text) → Result ServerError (List (Text × Text))
interpolate_entries lookup field [] = ok []
interpolate_entries lookup field ((key, value) ∷ entries) = do
  interpolated ← interpolate_field lookup (field key) value
  rest ← interpolate_entries lookup field entries
  ok ((key, interpolated) ∷ rest)

-- The loop over `Args` from index `i`.
unfoldable pub interpolate_args : Environment → ℕ → List Text → Result ServerError (List Text)
interpolate_args lookup i [] = ok []
interpolate_args lookup i (value ∷ values) = do
  interpolated ← interpolate_field lookup (at_arg i) value
  rest ← interpolate_args lookup (suc i) values
  ok (interpolated ∷ rest)

abbrev pub tool_override : ToolOverrideDto → ToolOverride
tool_override d = record {
  name = d.name;
  override_name = d.override_name;
  description = d.description;
  override_description = d.override_description;
  enabled = enabled_or_default d.enabled;
}

-- The loop over the overrides from index `i`.
unfoldable pub tool_overrides : ℕ → List ToolOverrideDto → Result ServerError (List ToolOverride)
tool_overrides i [] = ok []
tool_overrides i (d ∷ ds) =
    if is_empty d.name
    then err (tool_name_must_not_be_empty i)
    else tool_overrides (suc i) ds >>= λ rest. ok (tool_override d ∷ rest)

abbrev pub prompt_override : PromptOverrideDto → PromptOverride
prompt_override d = record {
  name = d.name;
  override_name = d.override_name;
  description = d.description;
  override_description = d.override_description;
  enabled = enabled_or_default d.enabled;
}

-- The loop over the overrides from index `i`.
unfoldable pub prompt_overrides :
    ℕ → List PromptOverrideDto → Result ServerError (List PromptOverride)
prompt_overrides i [] = ok []
prompt_overrides i (d ∷ ds) =
    if is_empty d.name
    then err (prompt_name_must_not_be_empty i)
    else prompt_overrides (suc i) ds >>= λ rest. ok (prompt_override d ∷ rest)

abbrev pub resource_override : ResourceOverrideDto → ResourceOverride
resource_override d = record {
  uri = d.uri;
  override_uri = d.override_uri;
  name = d.name;
  override_name = d.override_name;
  description = d.description;
  override_description = d.override_description;
  enabled = enabled_or_default d.enabled;
}

-- The loop over the overrides from index `i`.
unfoldable pub resource_overrides :
    ℕ → List ResourceOverrideDto → Result ServerError (List ResourceOverride)
resource_overrides i [] = ok []
resource_overrides i (d ∷ ds) =
    if is_empty d.uri
    then err (resource_uri_must_not_be_empty i)
    else resource_overrides (suc i) ds >>= λ rest. ok (resource_override d ∷ rest)

abbrev pub template_override : ResourceTemplateOverrideDto → ResourceTemplateOverride
template_override d = record {
  uri_template = d.uri_template;
  override_uri_template = d.override_uri_template;
  name = d.name;
  override_name = d.override_name;
  description = d.description;
  override_description = d.override_description;
  enabled = enabled_or_default d.enabled;
}

-- The loop over the overrides from index `i`.
unfoldable pub template_overrides :
    ℕ → List ResourceTemplateOverrideDto → Result ServerError (List ResourceTemplateOverride)
template_overrides i [] = ok []
template_overrides i (d ∷ ds) =
    if is_empty d.uri_template
    then err (template_uri_must_not_be_empty i)
    else template_overrides (suc i) ds >>= λ rest. ok (template_override d ∷ rest)

abbrev pub is_nil {ℓ} : {A : Type ℓ} → List A → Bool
is_nil [] = true
is_nil (x ∷ xs) = false

abbrev pub require : Bool → ServerError → Result ServerError (Unit {0})
require true e = ok tt
require false e = err e

-- The checks between the fields and the collections of a server.
unfoldable pub check_transport : ServerDto → Text → Text → Text → Result ServerError (Unit {0})
check_transport d url command directory = do
  _ ←
      require
        (not (is_empty url && is_empty command || not (is_empty url) && not (is_empty command)))
        exactly_one_of_url_or_command
  _ ←
      require (is_empty url || is_nil d.args && is_nil d.env && is_empty directory)
        args_env_and_working_directory_require_command
  _ ← require (is_empty command || is_nil d.headers) headers_require_url
  require (is_empty command || is_nil d.passthrough_headers) passthrough_headers_require_url

-- The server that `serverDTO.runtime` returns, from what it computed.
abbrev pub assemble :
    ServerDto
    → Text
    → Text
    → Text
    → List (Text × Text)
    → List Text
    → List (Text × Text)
    → List ToolOverride
    → List PromptOverride
    → List ResourceOverride
    → List ResourceTemplateOverride
    → Server
assemble d url command directory headers args environment tools prompts resources templates =
    record {
      discovery_method = [];
      discovery_revision = d.discovery_revision;
      name = trim_space d.name;
      prefix = d.prefix;
      url = url;
      headers = headers;
      passthrough_headers = d.passthrough_headers;
      command = command;
      args = args;
      env = environment;
      working_directory = directory;
      timeout = d.timeout;
      tools = tools;
      disable_tools = d.disable_tools;
      prompts = prompts;
      resources = resources;
      resource_templates = templates;
    }

-- `serverDTO.runtime`
unfoldable pub server_runtime : Environment → ServerDto → Result ServerError Server
unfolding trim_space check_transport interpolate_entries interpolate_args tool_overrides
    prompt_overrides resource_overrides template_overrides
server_runtime lookup d = do
  _ ← require (not (is_empty (trim_space d.name))) name_must_not_be_empty
  url ← interpolate_field lookup at_url d.url
  command ← interpolate_field lookup at_command d.command
  directory ← interpolate_field lookup at_working_directory d.working_directory
  _ ← check_transport d url command directory
  headers ← interpolate_entries lookup at_header d.headers
  args ← interpolate_args lookup 0 d.args
  environment ← interpolate_entries lookup at_env d.env
  tools ← tool_overrides 0 d.tools
  prompts ← prompt_overrides 0 d.prompts
  resources ← resource_overrides 0 d.resources
  templates ← template_overrides 0 d.resource_templates
  ok (assemble d url command directory headers args environment tools prompts resources templates)

-- The loop over the servers from index `i`, with the names seen.
unfoldable pub servers_runtime :
    Environment → ℕ → List Text → List ServerDto → Result Error (List Server)
unfolding contains_text
servers_runtime lookup i seen [] = ok []
servers_runtime lookup i seen (d ∷ ds) = do
  server ← wrap (at_server i) (server_runtime lookup d)
  let rest = servers_runtime lookup (suc i) (server.name ∷ seen) ds
  if contains_text server.name seen
      then err (duplicate_component_name i server.name)
      else rest >>= λ servers. ok (server ∷ servers)

-- `configDTO.runtime`
unfoldable pub config_runtime : Environment → ConfigDto → Result Error Config
unfolding servers_runtime trim_space
config_runtime lookup d =
    if is_nil d.servers
    then err no_component
    else servers_runtime lookup 0 [] d.servers >>= λ servers. ok (record {
      request_scoped_discovery = false;
      name = trim_space d.name;
      version = trim_space d.version;
      tool_search = d.tool_search;
      defer_authorization = false;
      listen = d.listen;
      idle_timeout = d.idle_timeout;
      servers = servers;
    })
