-- ===== src/Tests/Catalogs.antt =====
-- Catalogs of the model of catalog/compiler.go.
use mmmcp.Base.{
  true, List, lookup, insert, contains_text, text_eq, text_lt, ◌≡◌, refl, Bool, false, Option, none,
  some, [], ◌∷◌, Text, codes, IfOk, Result, ok, ◌>>=◌, pos,
}
use mmmcp.Catalog.{sort_by, insert_sorted, Tool, Catalog, tool_names}
use mmmcp.Catalog.Compiler.{
  Error, compile_tools, keyed_overrides, compile_loop, add_tool, put_tool, compile_prompts,
  compile_resources, compile_templates,
}
use mmmcp.Catalog.Compiler.Components.{
  Outcome, found, compile, index_catalog, new_catalog, sorted, finish_compile, pending_names,
  takes_reserved, compile_components, compile_component, maps_configured_uris, discover_components,
  discover_loop, discover_component, validate_component, challenges, compile_prefixes,
  new_compile_catalog, single_server_info,
}
use mmmcp.Catalog.Compiler.AllowList.{OnlyEnabled, compile_tools-OnlyEnabled}
use mmmcp.Catalog.Compiler.Complete.{Ready, compile-Ready}
use mmmcp.Namespace.{
  prefix, check_prefix, sanitize, to_lower, trim, trim_left, trim_right, valid_rune, validate_runes,
  validate_part, named_feature, join, ends_with_underscore,
}
use mmmcp.Config.{Server, Config}

-- Two components with a tool of the same name.
abbrev server : Text → Server
server name = record {
  discovery_method = [];
  discovery_revision = [];
  name = name;
  prefix = [];
  url = codes "https://example.org";
  headers = [];
  passthrough_headers = [];
  command = [];
  args = [];
  env = [];
  working_directory = [];
  timeout = pos 0;
  tools = [];
  disable_tools = false;
  prompts = [];
  resources = [];
  resource_templates = [];
}

abbrev config : Config
config = record {
  request_scoped_discovery = false;
  name = codes "all";
  version = [];
  tool_search = false;
  defer_authorization = false;
  listen = [];
  idle_timeout = pos 0;
  servers = server (codes "hg") ∷ server (codes "git") ∷ [];
}

abbrev log_tool : Tool
log_tool = record { name = codes "log"; description = []; details = 0 }

abbrev discover : Server → Outcome
discover server = found (
    some (record {
      protocol_version = [];
      server_info = none;
      tools = some log_tool ∷ [];
      prompts = [];
      resources = [];
      resource_templates = [];
    }))

abbrev no_scheme : Text → Option Text
no_scheme s = none

abbrev no_template : Text → Bool
no_template s = false

-- Stand-ins for the hashes.
abbrev one_id : Catalog → Option Text
one_id c = some (codes "id")

abbrev one_revision : Text → Text → Text → Tool → Text
one_revision reference component original t = codes "revision"

abbrev compiled : Result Error Catalog
compiled = compile one_id one_revision no_scheme no_template discover false config

-- Both are listed, in order.
compiled_tools :
    (compiled >>= λ c. ok (tool_names c.tools)) ≡ ok (codes "git__log" ∷ codes "hg__log" ∷ [])
unfolding compile index_catalog new_catalog sorted sort_by insert_sorted finish_compile
    pending_names takes_reserved compile_components compile_component compile_tools keyed_overrides
    compile_loop add_tool put_tool compile_prompts compile_resources compile_templates
    maps_configured_uris discover_components discover_loop discover_component validate_component
    challenges compile_prefixes new_compile_catalog single_server_info prefix check_prefix sanitize
    to_lower trim trim_left trim_right valid_rune validate_runes validate_part named_feature join
    ends_with_underscore lookup insert contains_text text_eq text_lt
compiled_tools = refl

compile-Ready_example : IfOk (Ready false) compiled
compile-Ready_example =
    compile-Ready no_scheme no_template one_id one_revision discover false config

-- A component whose only enabled tool is the first.
abbrev restricted : Server
restricted = record (server (codes "git")) {
  tools =
      record {
        name = codes "log";
        override_name = [];
        description = [];
        override_description = [];
        enabled = true;
      }
      ∷ [];
}

abbrev reported : List (Option Tool)
reported = some log_tool ∷ some (record log_tool { name = codes "push" }) ∷ []

compile_tools-OnlyEnabled_example :
    IfOk
      (OnlyEnabled restricted.tools)
      (compile_tools restricted [] reported [] (new_compile_catalog false))
unfolding new_compile_catalog
compile_tools-OnlyEnabled_example =
    compile_tools-OnlyEnabled restricted [] [] reported (new_compile_catalog false) refl refl refl
      refl

restricted_tools :
    (compile_tools restricted [] reported [] (new_compile_catalog false) >>= λ c.
    ok (tool_names c.tools))
    ≡ ok (codes "log" ∷ [])
unfolding new_compile_catalog compile_tools keyed_overrides compile_loop add_tool put_tool
    named_feature check_prefix join ends_with_underscore validate_runes validate_part valid_rune
    lookup insert contains_text text_eq
restricted_tools = refl
