-- ===== src/Tests/Configs.antt =====
-- Documents of the models of config/interpolate.go and config/load.go.
use mmmcp.Base.{
  ◌≡◌, refl, ◌≢◌, ◌↔◌, true, false, [], ◌∷◌, length, codes, text_eq, if◌then◌else◌, Distinct, All,
  ok, pos,
}
use mmmcp.Config.{ServerDto, ConfigDto, Server, Config}
use mmmcp.Config.Interpolate.{Environment, interpolate}
use mmmcp.Config.Interpolation.{Expands, interpolate-eq-ok_iff, escape, interpolate-escape}
use mmmcp.Config.Load.{server_runtime, config_runtime}
use mmmcp.Config.Loading.{IsValidServer, server_names, config_runtime-valid}

abbrev environment : Environment
environment name = if text_eq name (codes "HOST") then (codes "example.org", true) else ([], false)

interpolate-eq-ok_iff_example :
    (interpolate environment (codes "https://${HOST}/$$") ≡ ok (codes "https://example.org/$"))
    ↔ Expands environment (codes "https://${HOST}/$$") (codes "https://example.org/$")
interpolate-eq-ok_iff_example =
    interpolate-eq-ok_iff environment (codes "https://${HOST}/$$") (codes "https://example.org/$")

interpolate-escape_example :
    interpolate environment (escape (codes "${HOST}")) ≡ ok (codes "${HOST}")
interpolate-escape_example = interpolate-escape environment (codes "${HOST}")

abbrev document : ServerDto
document = record {
  discovery_revision = [];
  name = codes " git ";
  prefix = [];
  url = codes "https://${HOST}";
  headers = [];
  passthrough_headers = [];
  command = [];
  args = [];
  env = [];
  working_directory = [];
  timeout = pos 0;
  tools = [];
  disable_tools = false;
  prompts = [];
  resources = [];
  resource_templates = [];
}

abbrev loaded : Server
loaded = record {
  discovery_method = [];
  discovery_revision = [];
  name = codes "git";
  prefix = [];
  url = codes "https://example.org";
  headers = [];
  passthrough_headers = [];
  command = [];
  args = [];
  env = [];
  working_directory = [];
  timeout = pos 0;
  tools = [];
  disable_tools = false;
  prompts = [];
  resources = [];
  resource_templates = [];
}

document_loads : server_runtime environment document ≡ ok loaded
unfolding server_runtime interpolate text_eq
document_loads = refl

abbrev config_document : ConfigDto
config_document = record {
  name = codes "all";
  version = [];
  tool_search = false;
  listen = [];
  idle_timeout = pos 0;
  servers = document ∷ [];
}

abbrev config : Config
config = record {
  request_scoped_discovery = false;
  name = codes "all";
  version = [];
  tool_search = false;
  defer_authorization = false;
  listen = [];
  idle_timeout = pos 0;
  servers = loaded ∷ [];
}

config_document_loads : config_runtime environment config_document ≡ ok config
unfolding config_runtime server_runtime interpolate text_eq
config_document_loads = refl

config_runtime-valid_example :
    (config.servers ≢ [])
    × Distinct (server_names config.servers)
    × All IsValidServer config.servers
    × (length config.servers ≡ length config_document.servers)
config_runtime-valid_example =
    config_runtime-valid environment config_document config config_document_loads
