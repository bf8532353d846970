-- ===== src/Catalog/Registry/Sound.antt =====
-- What each section of catalog/registry.go keeps of an installed entry.
use mmmcp.Base.{ℕ, suc, ◌+◌, ◌≤◌, ◌≡◌, Bool, true, false, ◌||◌, Option, none, ok, err, arith}
use mmmcp.Catalog.{Catalog}
use mmmcp.Catalog.Registry.{Callback, Compiled, Entry, is_none, new_entry, await_entry}
use mmmcp.Catalog.Registry.Refresh.{finish_entry, refresh_entry, request_entry, run_entry}
use mmmcp.Config.{Config}

-- An entry with so many refreshes running, in a registry that is closed or not.
pub record Sound (closed search : Bool) (running : ℕ) (e : Entry) : Type 0 where
  pub searches : e.config.tool_search ≡ search
  pub runs_flag : closed ≡ false → e.refreshing ≡ true → 1 ≤ running
  pub progress : is_none e.refresh_done ≡ false → (e.refreshing || e.timer) ≡ true
  pub done_stale : is_none e.refresh_done ≡ false → (search ≡ true) × (e.stale ≡ true)
  pub quiet : closed ≡ true → (e.timer ≡ false) × (is_none e.refresh_done ≡ true)

pub new_entry-Sound :
    (closed ready : Bool) (catalog : Option Catalog) (cfg : Config)
    → Sound closed cfg.tool_search 0 (new_entry ready catalog cfg)
new_entry-Sound closed ready catalog cfg = ground arith

pub await_entry-Sound :
    (closed search : Bool) (n channel : ℕ) (e : Entry)
    → closed ≡ false
    → e.stale ≡ true
    → e.config.tool_search ≡ true
    → Sound closed search n e
    → Sound closed search n (await_entry channel e)
unfolding await_entry
await_entry-Sound closed search n channel e c s t v = ground arith

pub refresh_entry-Sound :
    (closed search : Bool) (n channel : ℕ) (e : Entry)
    → closed ≡ false
    → search ≡ true
    → Sound closed search n e
    → Sound closed search (n + 1) (refresh_entry channel e)
unfolding refresh_entry
refresh_entry-Sound closed search n channel e c t v = ground arith

pub request_entry-Sound :
    (closed search : Bool) (n channel : ℕ) (callback : Option Callback) (e : Entry)
    → closed ≡ false
    → Sound closed search n e
    → Sound closed search n (request_entry channel callback e)
unfolding request_entry
request_entry-Sound closed search n channel callback e c v = ground arith

pub run_entry-Sound :
    (closed search : Bool) (n : ℕ) (e : Entry)
    → closed ≡ false
    → Sound closed search n e
    → Sound closed search (n + 1) (run_entry e)
unfolding run_entry
run_entry-Sound closed search n e c v = ground arith

pub finish_entry-Sound :
    (closed search : Bool) (n m : ℕ) (compiled : Compiled) (e : Entry)
    → n ≡ suc m
    → Sound closed search n e
    → Sound closed search m (finish_entry closed compiled e)
unfolding finish_entry
finish_entry-Sound closed search n m (ok c) e q v = ground arith
finish_entry-Sound closed search n m (err x) e q v = ground arith

pub stale_entry-Sound :
    (closed search : Bool) (n : ℕ) (e : Entry)
    → Sound closed search n e
    → Sound closed search n (record e { stale = true })
stale_entry-Sound closed search n e v = ground arith

-- `Close` on an entry of a registry.
pub close_entry-Sound :
    (closed search : Bool) (n : ℕ) (e : Entry)
    → Sound closed search n e
    → Sound true search n (record e { refresh_done = none; timer = false })
close_entry-Sound closed search n e v = ground arith
