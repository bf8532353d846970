-- ===== src/Tests/Calls.antt =====
-- Calls of tools and identities of resources of the models of catalog/tool_calls.go,
-- catalog/rewrite.go and request_catalog.go.
use mmmcp.Base.{
  ok, inl, inr, In, ◌≡◌, refl, ◌⊎◌, true, false, Option, none, some, [], ◌∷◌, Text, codes, text_eq,
  text_keys, contains_text, lookup, insert, pos,
}
use mmmcp.Catalog.{Tool, ToolRoute, ResourceRoute, Catalog, route_tool, route_resource}
use mmmcp.Catalog.Calls.{call_tool_name, route_reference, resolve_reference, resolve_tool_call}
use mmmcp.Catalog.Dispatch.{resolve_tool_call-routed}
use mmmcp.Catalog.Rewriting.{to_composite_uri}
use mmmcp.Catalog.Identities.{to_composite_uri-routes}
use mmmcp.Config.{Config, Server}
use mmmcp.Namespace.{
  to_lower, trim_right, ends_with_underscore, trim_left, join, trim, valid_rune, sanitize,
  validate_runes, validate_part, check_prefix, tool, prefix, named_feature,
}
use mmmcp.Requests.{select_owner}
use mmmcp.Requests.Owners.{select_owner-owner}
use mmmcp.Search.{revision, new_documents}
use mmmcp.Search.Builder.{CallArguments, Decoder, CallResult, tool_error, parse_call_arguments}

abbrev server : Server
server = record {
  discovery_method = [];
  discovery_revision = [];
  name = codes "git";
  prefix = [];
  url = codes "https://example.org";
  headers = [];
  passthrough_headers = [];
  command = [];
  args = [];
  env = [];
  working_directory = [];
  timeout = pos 0;
  tools = [];
  disable_tools = false;
  prompts = [];
  resources = [];
  resource_templates = [];
}

abbrev log_tool : Tool
log_tool = record { name = codes "git__log"; description = []; details = 0 }

abbrev log_route : ToolRoute
log_route = record {
  protocol_version = [];
  component = server;
  prefix = codes "git";
  tool = record { name = codes "log"; description = []; details = 0 };
}

abbrev readme_route : ResourceRoute
readme_route = record {
  component = server;
  prefix = codes "git";
  original_uri = codes "file:readme";
  composite_uri = codes "mmmcp+git:file:readme";
}

-- A catalog with tool search.
abbrev catalog : Catalog
catalog = record {
  pending_authorization = [];
  id = codes "id";
  server_info = none;
  tools = log_tool ∷ [];
  visible_tools = [];
  tool_search = true;
  prompts = [];
  resources = [];
  resource_templates = [];
  tool_routes = (codes "git__log", log_route) ∷ [];
  search_index = some (
      record {
        exposed_name = codes "git__log";
        component = codes "git";
        reference = codes "git__log";
        revision = codes "7";
        tool = log_tool;
      }
      ∷ []);
  prompt_routes = [];
  resource_routes = (codes "mmmcp+git:file:readme", readme_route) ∷ [];
  template_routes = [];
}

-- Stand-ins for the packages: every call is of one tool and one revision.
abbrev decoder : Decoder
decoder = record {
  Raw = Text;
  decode = λ text. some (codes "git__log", codes "7", some text);
  is_object = λ text. true;
  empty = [];
  decode_search = λ text. none;
  encode = λ results. none;
}

abbrev digest : Text → ToolRoute → Tool → Text
digest name route t = []

abbrev search : Text → CallResult
search text = tool_error []

resolve_tool_call-routed_example :
    ((catalog.tool_search ≡ false)
      × (lookup call_tool_name catalog.tool_routes ≡ some log_route)
      × (◌≡◌ {A = Text} (codes "{}") (codes "{}")))
    ⊎ ((catalog.tool_search ≡ true)
        × (call_tool_name ≡ call_tool_name)
        × ((args : CallArguments Text) × (parse_call_arguments decoder (codes "{}") ≡ some args)
            × (lookup args.name catalog.tool_routes ≡ some log_route)
            × (route_reference digest args.name catalog ≡ some (log_route, args.revision))
            × (◌≡◌ {A = Text} (codes "{}") args.arguments)))
unfolding resolve_tool_call resolve_reference route_reference route_tool parse_call_arguments
    revision new_documents lookup insert text_eq
resolve_tool_call-routed_example =
    resolve_tool_call-routed decoder (λ text. text) digest search call_tool_name (codes "{}")
      catalog log_route (codes "{}") refl

abbrev transfer : Text → Text → Text → Option Text
transfer from to uri = none

to_composite_uri-routes_example :
    (found : ResourceRoute) × (route_resource transfer catalog
        (to_composite_uri transfer catalog (codes "git") (codes "file:readme"))
      ≡ some found)
    × (found.prefix ≡ codes "git")
    × (found.original_uri ≡ codes "file:readme")
unfolding contains_text lookup text_eq
to_composite_uri-routes_example =
    to_composite_uri-routes transfer catalog (codes "mmmcp+git:file:readme") readme_route (refl, tt)
      refl

-- The called tool is one of the second server.
abbrev other_server : Server
other_server = record server { name = codes "hg" }

git_prefix : prefix (codes "git") [] ≡ ok (codes "git")
unfolding prefix check_prefix validate_part validate_runes sanitize trim trim_left trim_right
    valid_rune to_lower
git_prefix = refl

git_log : named_feature tool (codes "git") (codes "log") ≡ ok (codes "git__log")
unfolding named_feature check_prefix validate_part validate_runes valid_rune join
    ends_with_underscore
git_log = refl

-- No catalog is cached.
abbrev uncached : Config → Option ToolRoute
uncached cfg = none

abbrev discovered : Config
discovered = record {
  request_scoped_discovery = true;
  name = codes "all";
  version = [];
  tool_search = false;
  defer_authorization = false;
  listen = [];
  idle_timeout = pos 0;
  servers = other_server ∷ server ∷ [];
}

select_owner-owner_example :
    In
      (record server { prefix = codes "git" })
      (select_owner uncached (codes "git__log") discovered).servers
    ⊎ ((cached : Config) × (route : ToolRoute) × (uncached cached ≡ some route)
        × ((cached ≡ discovered) ⊎ In (record server { prefix = codes "git" }) cached.servers)
        × ((select_owner uncached (codes "git__log") discovered).servers
            ≡ record route.component { prefix = route.prefix } ∷ []))
select_owner-owner_example =
    select_owner-owner uncached discovered server (codes "git") (codes "log") (codes "git__log")
      refl (inr (inl refl)) git_prefix git_log
