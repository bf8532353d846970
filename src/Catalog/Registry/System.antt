-- ===== src/Catalog/Registry/System.antt =====
-- The registry of catalog/registry.go with the refreshes that run, under every interleaving of its
-- sections.
use mmmcp.Base.{
  ℕ, suc, ◌+◌, ◌≡◌, Bool, true, false, ◌&&◌, if◌then◌else◌, ◌==◌, Option, none, some, List, [], ◌∷◌,
  Text, text_eq, text_keys,
}
use mmmcp.Catalog.{Catalog}
use mmmcp.Catalog.Registry.{
  Callback, Compiled, Entry, Registry, entry_for_config, store_compiled, publish, await_refresh,
}
use mmmcp.Catalog.Registry.Refresh.{
  BeginRefresh, refresh_canceled, waits_ready, waits_done, compiles, begin_refresh, end_refresh,
  request_refresh, run_refresh, end_run, invalidate_component, close,
}
use mmmcp.Config.{Config}

-- `running` are the refreshes that compile: the fingerprint and the entry of each.
pub record System : Type 0 where
  pub registry : Registry
  pub running : List (Text × ℕ)

-- Every entry in memory is free at first.
abbrev pub initial : (ℕ → Entry) → System
initial memory = record {
  registry = record {
    entries = [];
    memory = memory;
    next_address = 0;
    next_channel = 0;
    closed_channels = [];
    index_calls = [];
    closed = false;
  };
  running = [];
}

abbrev pub same_run : Text → ℕ → Text × ℕ → Bool
same_run f a (g, b) = text_eq g f && b == a

-- How many refreshes run for the fingerprint and the entry.
unfoldable pub runs : Text → ℕ → List (Text × ℕ) → ℕ
runs f a [] = 0
runs f a (p ∷ ps) = let rest = runs f a ps in if same_run f a p then rest + 1 else rest

unfoldable pub ended : Text → ℕ → List (Text × ℕ) → List (Text × ℕ)
ended f a [] = []
ended f a (p ∷ ps) = let rest = ended f a ps in if same_run f a p then ps else p ∷ rest

unfoldable pub after_begin : Text → List (Text × ℕ) → Registry × BeginRefresh → System
after_begin f running (r, refresh_canceled) = record { registry = r; running = running }
after_begin f running (r, waits_ready a) = record { registry = r; running = running }
after_begin f running (r, waits_done c) = record { registry = r; running = running }
after_begin f running (r, compiles none) = record { registry = r; running = running }
after_begin f running (r, compiles (some a)) = record { registry = r; running = (f, a) ∷ running }

unfoldable pub after_run :
    Text → List (Text × ℕ) → Registry × Option (ℕ × Config × List Callback) → System
after_run f running (r, none) = record { registry = r; running = running }
after_run f running (r, some p) = record { registry = r; running = (f, p.0) ∷ running }

-- A fingerprint determines its configuration, so also whether it has tool search. What `compile`
-- returned is any result. A timer that was set may fire at any time, late, again, or after it was
-- stopped.
module _ (searches : Text → Bool) where
  pub data Step : System → System → Type 0 where
    gets :
        (y : System) (f : Text) (cfg : Config)
        → cfg.tool_search ≡ searches f
        → Step y (record y { registry = (entry_for_config f cfg y.registry).0 })
    stores :
        (y : System) (f : Text) (a : ℕ) (compiled : Compiled)
        → Step y (record y { registry = store_compiled f a compiled y.registry })
    publishes :
        (y : System) (f : Text) (cfg : Config) (compiled : Catalog)
        → cfg.tool_search ≡ searches f
        → Step y (record y { registry = publish f cfg compiled y.registry })
    awaits :
        (y : System) (a : ℕ)
        → Step y (record y {
          registry = (await_refresh a (y.registry.memory a).config.tool_search y.registry).0;
        })
    begins :
        (y : System) (f : Text)
        → Step y (after_begin f y.running (begin_refresh f (searches f) y.registry))
    ends_begun :
        (y : System) (f : Text) (a n : ℕ) (cfg : Config) (compiled : Compiled)
        → cfg.tool_search ≡ true
        → searches f ≡ true
        → runs f a y.running ≡ suc n
        → Step y (record {
          registry = (end_refresh f cfg (some a) compiled y.registry).0;
          running = ended f a y.running;
        })
    ends_new :
        (y : System) (f : Text) (cfg : Config) (compiled : Compiled)
        → cfg.tool_search ≡ searches f
        → Step y (record y { registry = (end_refresh f cfg none compiled y.registry).0 })
    requests :
        (y : System) (f : Text) (callback : Option Callback)
        → Step y (record y { registry = request_refresh f callback y.registry })
    fires : (y : System) (f : Text) → Step y (after_run f y.running (run_refresh f y.registry))
    ends_run :
        (y : System) (f : Text) (a n : ℕ) (compiled : Compiled)
        → runs f a y.running ≡ suc n
        → Step y
            (record { registry = end_run f a compiled y.registry; running = ended f a y.running })
    invalidates :
        (y : System) (name : Text)
        → Step y (record y { registry = invalidate_component name y.registry })
    closes : (y : System) → Step y (record y { registry = close y.registry })

  pub data Reach (s : System) : System → Type 0 where
    here : Reach s s
    next : {t u : System} → Reach s t → Step t u → Reach s u
