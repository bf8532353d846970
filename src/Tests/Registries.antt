-- ===== src/Tests/Registries.antt =====
-- A registry of the model of catalog/registry.go.
use mmmcp.Base.{
  ℕ, ◌≤◌, ◌≡◌, refl, ◌⊎◌, Bool, true, false, none, [], Text, codes, text_eq, text_keys, lookup,
  insert, pos, ok,
}
use mmmcp.Catalog.Compiler.Components.{new_compile_catalog}
use mmmcp.Catalog.Registry.{
  Entry, new_entry, entry_for_config, install, write, set_entry, calls, close_channel,
  store_compiled,
}
use mmmcp.Catalog.Registry.Refresh.{
  request_refresh, request_open, request_entry, close, close_loop, close_entry, end_run,
  run_refresh, run_open, run_entry, finish_refresh, finish_entry, begin_refresh, begin_open,
  begin_entry, refresh_entry,
}
use mmmcp.Catalog.Registry.System.{
  System, Reach, initial, runs, here, next, gets, requests, closes, after_run, after_begin, ended,
}
use mmmcp.Catalog.Registry.Progress.{waiters-progress, closed-quiet}
use mmmcp.Config.{Config}

abbrev config : Config
config = record {
  request_scoped_discovery = false;
  name = codes "all";
  version = [];
  tool_search = true;
  defer_authorization = false;
  listen = [];
  idle_timeout = pos 0;
  servers = [];
}

abbrev searches : Text → Bool
searches f = true

abbrev memory : ℕ → Entry
memory a = new_entry false none config

abbrev f : Text
f = codes "f"

abbrev requested : System
requested = record {
  registry = request_refresh f none (entry_for_config f config (initial memory).registry).0;
  running = [];
}

abbrev reach_requested : Reach searches (initial memory) requested
reach_requested = next (next here (gets (initial memory) f config refl)) (
    requests
      (record (initial memory) {
        registry = (entry_for_config f config (initial memory).registry).0;
      })
      f none)

waiters-progress_example :
    (searches f ≡ true)
    × ((requested.registry.memory 0).stale ≡ true)
    × ((1 ≤ runs f 0 requested.running) ⊎ ((requested.registry.memory 0).timer ≡ true))
unfolding request_refresh request_open request_entry entry_for_config install write set_entry
    text_eq lookup insert
waiters-progress_example =
    waiters-progress searches memory requested f 0 reach_requested refl refl refl

abbrev closed : System
closed = record requested { registry = close requested.registry }

closed-quiet_example :
    ((closed.registry.memory 0).timer ≡ false) × ((closed.registry.memory 0).refresh_done ≡ none)
unfolding request_refresh request_open request_entry entry_for_config install write set_entry
    text_eq lookup insert close close_loop close_entry calls close_channel
closed-quiet_example =
    closed-quiet searches memory closed f 0 (next reach_requested (closes requested)) refl refl

-- The timer of a request is reset after it fired, so its callback runs twice; `Refresh` begins
-- beside the second run.
abbrev found : System
found = record (initial memory) {
  registry = (entry_for_config f config (initial memory).registry).0;
}

abbrev compiled : System
compiled = record found {
  registry = store_compiled f 0 (ok (new_compile_catalog true)) found.registry;
}

abbrev asked : System
asked = record compiled { registry = request_refresh f none compiled.registry }

abbrev fired : System
fired = after_run f asked.running (run_refresh f asked.registry)

abbrev ran : System
ran = record {
  registry = end_run f 0 (ok (new_compile_catalog true)) fired.registry;
  running = ended f 0 fired.running;
}

abbrev fired_again : System
fired_again = after_run f ran.running (run_refresh f ran.registry)

abbrev refreshed : System
refreshed = after_begin f fired_again.running (begin_refresh f true fired_again.registry)

two_refreshes : runs f 0 refreshed.running ≡ 2
unfolding request_refresh request_open request_entry entry_for_config install write set_entry
    text_eq lookup insert store_compiled after_run run_refresh run_open run_entry end_run
    finish_refresh finish_entry calls close_channel ended after_begin begin_refresh begin_open
    begin_entry refresh_entry runs new_compile_catalog
two_refreshes = refl
