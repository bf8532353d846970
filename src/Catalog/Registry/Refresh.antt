-- ===== src/Catalog/Registry/Refresh.antt =====
-- The refreshes of catalog/registry.go: `Refresh`, `RequestRefresh`, `runRefresh` and
-- `finishRefresh`, and what ends entries: `InvalidateComponent` and `Close`.
use mmmcp.Base.{
  ℕ, ◌+◌, Bool, true, false, not, ◌&&◌, ◌||◌, if◌then◌else◌, Option, none, some, List, [], ◌∷◌,
  ◌++◌, Text, text_eq, text_keys, lookup, delete, ok, err,
}
use mmmcp.Catalog.{Catalog}
use mmmcp.Catalog.Registry.{
  Callback, Compiled, Entry, Registry, IndexCall, starts, stops, set_entry, calls, close_channel,
  new_entry, install, is_none, is_entry,
}
use mmmcp.Config.{Server, Config}

abbrev pub has_failed : Compiled → Bool
has_failed (ok c) = false
has_failed (err e) = true

-- The entry that `finishRefresh` leaves.
unfoldable pub finish_entry : Bool → Compiled → Entry → Entry
finish_entry closed compiled e = record e {
  catalog = elim compiled [ ok c ↦ some c | err x ↦ e.catalog ];
  failure = elim compiled [ ok c ↦ none | err x ↦ e.failure ];
  refreshing = false;
  pending = false;
  stale = if e.config.tool_search then e.pending || has_failed compiled else e.stale;
  refresh_done = if e.config.tool_search && not e.pending then none else e.refresh_done;
  timer = e.timer || (e.pending && not closed);
}

-- `finishRefresh`
unfoldable pub finish_refresh : ℕ → Compiled → Registry → Registry
unfolding set_entry calls close_channel finish_entry
finish_refresh a compiled r =
    let e = r.memory a in
    let made : List IndexCall = elim compiled [
      | ok c ↦ starts (some c) ∷ stops e.catalog ∷ []
      | err x ↦ []
    ] in
    let finished = set_entry a (finish_entry r.closed compiled e) (calls made r) in
    if e.config.tool_search && not e.pending
    then close_channel e.refresh_done finished
    else finished

-- How a round of the first loop of `Refresh` ends.
pub data BeginRefresh : Type 0 where
  refresh_canceled : BeginRefresh
  waits_ready : ℕ → BeginRefresh
  waits_done : ℕ → BeginRefresh
  compiles : Option ℕ → BeginRefresh

-- The entry that `Refresh` compiles for.
unfoldable pub refresh_entry : ℕ → Entry → Entry
refresh_entry channel e = record e { stale = true; refreshing = true; refresh_done = some channel }

-- The locked section of `Refresh` before it compiles, on an entry that has no refresh under way.
unfoldable pub begin_entry : ℕ → Registry → Registry
unfolding set_entry refresh_entry
begin_entry a r = record (set_entry a (refresh_entry r.next_channel (r.memory a)) r) {
  next_channel = r.next_channel + 1;
}

unfoldable pub begin_open : Text → Registry → Registry × BeginRefresh
unfolding begin_entry
begin_open f r = elim (lookup f r.entries) [
  | none ↦ (r, compiles none)
  | some a ↦
      let begun : Registry × BeginRefresh = (begin_entry a r, compiles (some a)) in
      let idle : Registry × BeginRefresh =
        elim ((r.memory a).refresh_done) as (λ d. Registry × BeginRefresh) [
          | some c ↦ (r, waits_done c)
          | none ↦ begun
        ] in
      if (r.memory a).ready then idle else (r, waits_ready a)
]

-- The locked section of `Refresh` before it compiles.
unfoldable pub begin_refresh : Text → Bool → Registry → Registry × BeginRefresh
unfolding begin_open
begin_refresh f tool_search r =
    if not tool_search
    then (r, compiles none)
    else if r.closed
    then (r, refresh_canceled)
    else begin_open f r

unfoldable pub mark_stale : Text → Registry → Registry
unfolding set_entry
mark_stale f r = elim (lookup f r.entries) [
  | none ↦ r
  | some a ↦ set_entry a (record (r.memory a) { stale = true }) r
]

-- The refreshed catalog in a new entry, in place of the old one.
unfoldable pub replace_entry : Text → Config → Catalog → Registry → Registry
unfolding install calls set_entry close_channel
replace_entry f cfg compiled r =
    let started = calls (starts (some compiled) ∷ []) r in
    elim (lookup f r.entries) [
      | none ↦ install f (new_entry true (some compiled) cfg) started
      | some a ↦ calls (stops (r.memory a).catalog ∷ []) (
          close_channel (r.memory a).refresh_done (
            install f (new_entry true (some compiled) cfg)
              (set_entry a (record (r.memory a) { refresh_done = none }) started)))
    ]

-- `Refresh` after it compiled without an entry to complete.
unfoldable pub end_new : Text → Config → Compiled → Registry → Registry
unfolding mark_stale replace_entry
end_new f cfg (ok c) r = replace_entry f cfg c r
end_new f cfg (err x) r = if cfg.tool_search then mark_stale f r else r

-- `Refresh` after it compiled, for the entry that it began with. The result tells whether it
-- returns what it compiled, or that it was canceled.
unfoldable pub end_refresh : Text → Config → Option ℕ → Compiled → Registry → Registry × Bool
unfolding finish_refresh end_new
end_refresh f cfg none compiled r = (end_new f cfg compiled r, true)
end_refresh f cfg (some a) compiled r =
    if not cfg.tool_search
    then (end_new f cfg compiled r, true)
    else if r.closed
    then (r, false)
    else (finish_refresh a compiled r, true)

-- The entry whose refresh is requested.
unfoldable pub request_entry : ℕ → Option Callback → Entry → Entry
request_entry channel callback e =
    let search = e.config.tool_search in
    record e {
      callbacks = elim callback [ none ↦ e.callbacks | some c ↦ e.callbacks ++ c ∷ [] ];
      stale = e.stale || search;
      refresh_done = if search && is_none e.refresh_done then some channel else e.refresh_done;
      pending = e.pending || e.refreshing;
      timer = e.timer || not e.refreshing;
    }

-- `RequestRefresh` of a registry that is not closed.
unfoldable pub request_open : Text → Option Callback → Registry → Registry
unfolding set_entry request_entry
request_open f callback r = elim (lookup f r.entries) [
  | none ↦ r
  | some a ↦
      let e = r.memory a in
      record (set_entry a (request_entry r.next_channel callback e) r) {
        next_channel =
            if e.config.tool_search && is_none e.refresh_done
            then r.next_channel + 1
            else r.next_channel;
      }
]

-- `RequestRefresh`
unfoldable pub request_refresh : Text → Option Callback → Registry → Registry
unfolding request_open
request_refresh f callback r = if r.closed then r else request_open f callback r

unfoldable pub run_entry : Entry → Entry
run_entry e = record e { timer = false; refreshing = true; pending = false; callbacks = [] }

-- `runRefresh` until it compiles, where the registry is not closed.
unfoldable pub run_open : Text → Registry → Registry × Option (ℕ × Config × List Callback)
unfolding set_entry run_entry
run_open f r = elim (lookup f r.entries) [
  | none ↦ (r, none)
  | some a ↦ if (r.memory a).refreshing then (r, none) else (
    set_entry a (run_entry (r.memory a)) r,
    some (a, (r.memory a).config, (r.memory a).callbacks),
  )
]

-- `runRefresh` until it compiles: the entry, its configuration and the callbacks it goes on with.
unfoldable pub run_refresh : Text → Registry → Registry × Option (ℕ × Config × List Callback)
unfolding run_open
run_refresh f r = if r.closed then (r, none) else run_open f r

-- `runRefresh` after it compiled.
unfoldable pub end_run : Text → ℕ → Compiled → Registry → Registry
unfolding finish_refresh
end_run f a compiled r = if is_entry a (lookup f r.entries) then finish_refresh a compiled r else r

abbrev pub has_server : Text → List Server → Bool
has_server name [] = false
has_server name (s ∷ ss) = text_eq s.name name || has_server name ss

-- One round of `InvalidateComponent`, on the entry at an address.
unfoldable pub invalidate_entry : Text → ℕ → Registry → Registry
unfolding set_entry calls close_channel
invalidate_entry f a r =
    let e = r.memory a in
    record (close_channel e.refresh_done
      (calls (stops e.catalog ∷ []) (set_entry a (record e { refresh_done = none }) r))) {
        entries = delete f r.entries;
      }

unfoldable pub invalidate_round : Text → Text → Registry → Registry
unfolding invalidate_entry
invalidate_round name f r = elim (lookup f r.entries) [
  | none ↦ r
  | some a ↦ if has_server name (r.memory a).config.servers then invalidate_entry f a r else r
]

-- The keys are distinct, and each round reads the entry that its key has then.
unfoldable pub invalidate_loop : Text → List (Text × ℕ) → Registry → Registry
unfolding invalidate_round
invalidate_loop name [] r = r
invalidate_loop name ((f, a) ∷ es) r = invalidate_loop name es (invalidate_round name f r)

-- `InvalidateComponent`
unfoldable pub invalidate_component : Text → Registry → Registry
unfolding invalidate_loop
invalidate_component name r = invalidate_loop name r.entries r

-- One round of `Close`.
unfoldable pub close_entry : ℕ → Registry → Registry
unfolding set_entry calls close_channel
close_entry a r =
    let e = r.memory a in
    close_channel e.refresh_done (
      calls (stops e.catalog ∷ [])
        (set_entry a (record e { refresh_done = none; timer = false }) r))

unfoldable pub close_loop : List (Text × ℕ) → Registry → Registry
unfolding close_entry
close_loop [] r = r
close_loop ((f, a) ∷ es) r =
    close_loop es (elim (lookup f r.entries) [ none ↦ r | some b ↦ close_entry b r ])

-- `Close`
unfoldable pub close : Registry → Registry
unfolding close_loop
close r = close_loop r.entries (record r { closed = true })
