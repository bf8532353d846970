-- ===== src/Catalog/Registry/Progress.antt =====
-- What the invariant gives the callers of catalog/registry.go.
use mmmcp.Base.{
  ℕ, ◌≤◌, ◌≡◌, ◌⊎◌, inl, inr, Bool, true, false, Bool-cases, none, some, Text, text_keys, lookup,
  arith,
}
use mmmcp.Catalog.Registry.{Entry, is_none}
use mmmcp.Catalog.Registry.System.{System, Reach, initial, runs}
use mmmcp.Catalog.Registry.Closing.{Reach-Holds, initial-Holds}

-- In every state that the sections of the registry reach while it is open, under every
-- interleaving and with `runRefresh` called by timers at any time, also late or again, an installed
-- entry with a channel that callers wait on has tool search and is stale, and either at least one
-- refresh of it runs or its timer is not nil; it is not said that this timer will fire.
pub waiters-progress :
    (searches : Text → Bool) (memory : ℕ → Entry) (y : System) (f : Text) (a : ℕ)
    → Reach searches (initial memory) y
    → y.registry.closed ≡ false
    → lookup f y.registry.entries ≡ some a
    → is_none (y.registry.memory a).refresh_done ≡ false
    → (searches f ≡ true)
      × ((y.registry.memory a).stale ≡ true)
      × ((1 ≤ runs f a y.running) ⊎ ((y.registry.memory a).timer ≡ true))
waiters-progress searches memory y f a h c q d =
    let s = (Reach-Holds searches h (initial-Holds searches memory)).sound f a q in
    (
      ((s.done_stale d).0),
      ((s.done_stale d).1),
      elim (Bool-cases (y.registry.memory a).refreshing) [
        | inl w ↦ inl (s.runs_flag c w)
        | inr w ↦ inr (ground (arith, s.progress d))
      ],
    )

-- In every state that the sections reach in which the registry is closed, under every interleaving
-- and with `runRefresh` called by timers at any time, no installed entry has a timer or a channel
-- that callers wait on.
pub closed-quiet :
    (searches : Text → Bool) (memory : ℕ → Entry) (y : System) (f : Text) (a : ℕ)
    → Reach searches (initial memory) y
    → y.registry.closed ≡ true
    → lookup f y.registry.entries ≡ some a
    → ((y.registry.memory a).timer ≡ false) × ((y.registry.memory a).refresh_done ≡ none)
closed-quiet searches memory y f a h c q =
    let s = (Reach-Holds searches h (initial-Holds searches memory)).sound f a q in
    ((s.quiet c).0, ground (arith, s.quiet c))
