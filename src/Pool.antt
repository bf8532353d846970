-- ===== src/Pool.antt =====
-- component/pool.go: the runtimes of sessions. Each definition is one section of the code under the
-- mutex. Sessions, runtimes and errors are told by numbers, entries by their addresses; what the
-- factory and the runtimes return are arguments.
pub mod System
pub mod Places
pub mod Ownership
use mmmcp.Base.{
  ℕ, zero, suc, ◌+◌, ◌-◌, ◌%◌, ◌^◌, ◌≡◌, ◌↔◌, Bool, true, false, not, ◌&&◌, ◌||◌, if◌then◌else◌,
  ◌==◌, ltb, Option, none, some, List, [], ◌∷◌, ◌++◌, map, Text, text_eq, text_eq_iff, Eq, lookup,
  insert, delete, Result, ok, err, arith,
}

pub record PoolKey : Type 0 where
  pub frontend : ℕ
  pub fingerprint : Text
  pub component : Text

abbrev pub same_key : PoolKey → PoolKey → Bool
same_key j k =
    j.frontend == k.frontend
    && text_eq j.fingerprint k.fingerprint
    && text_eq j.component k.component

pub same_key_iff : (j k : PoolKey) → (same_key j k ≡ true) ↔ (j ≡ k)
same_key_iff j k =
    ground (arith, text_eq_iff j.fingerprint k.fingerprint, text_eq_iff j.component k.component)

instance abbrev pub pool_keys : Eq PoolKey
pool_keys = record { same = same_key; same_iff = same_key_iff }

-- `poolEntry`; `ready` tells whether the channel is closed, `on_close` whether there is a callback.
pub record Entry : Type 0 where
  pub ready : Bool
  pub runtime : Option ℕ
  pub failure : Option ℕ
  pub refs : ℕ
  pub on_close : Bool

-- `Pool`, with the entries in memory and the next free address. `cleanup` counts the sessions that
-- are being cleaned up.
pub record Pool : Type 0 where
  pub entries : List (PoolKey × ℕ)
  pub memory : ℕ → Entry
  pub next_address : ℕ
  pub watched : List ℕ
  pub closed : Bool
  pub cleanup : ℕ
  pub cleanup_error : Option ℕ
  pub cleanup_failures : ℕ

unfoldable pub write : ℕ → Entry → (ℕ → Entry) → ℕ → Entry
write a e memory b = if a == b then e else memory b

unfoldable pub has : ℕ → List ℕ → Bool
has s [] = false
has s (t ∷ ts) = let rest = has s ts in t == s || rest

unfoldable pub without : ℕ → List ℕ → List ℕ
without s [] = []
without s (t ∷ ts) = let rest = without s ts in if t == s then rest else t ∷ rest

-- What the first section of `Acquire` decides: an error, an entry to wait for, or an entry to open,
-- and whether a goroutine starts that watches the session.
pub data BeginAcquire : Type 0 where
  no_frontend pool_closed : BeginAcquire
  waits : ℕ → BeginAcquire
  opens : ℕ → Bool → BeginAcquire

-- One more reference.
unfoldable pub refer : ℕ → Pool → Pool
unfolding write
refer a p = record p {
  memory = write a (record (p.memory a) { refs = (p.memory a).refs + 1 }) p.memory;
}

unfoldable pub new_entry : PoolKey → Bool → Pool → Pool
unfolding write has
new_entry key on_close p = record p {
  entries = insert key p.next_address p.entries;
  memory =
      write p.next_address
        (record { ready = false; runtime = none; failure = none; refs = 1; on_close = on_close })
        p.memory;
  next_address = p.next_address + 1;
  watched = if has key.frontend p.watched then p.watched else key.frontend ∷ p.watched;
}

unfoldable pub acquire_open : PoolKey → Bool → Pool → Pool × BeginAcquire
unfolding refer new_entry
acquire_open key on_close p = elim (lookup key p.entries) [
  | some a ↦ (refer a p, waits a)
  | none ↦ (new_entry key on_close p, opens p.next_address (not (has key.frontend p.watched)))
]

-- `Acquire` until it waits or opens, for a frontend, a fingerprint and a component.
unfoldable pub begin_acquire : Option ℕ → Text → Text → Bool → Pool → Pool × BeginAcquire
unfolding acquire_open
begin_acquire none fingerprint component on_close p = (p, no_frontend)
begin_acquire (some frontend) fingerprint component on_close p =
    if p.closed
    then (p, pool_closed)
    else acquire_open
        (record { frontend = frontend; fingerprint = fingerprint; component = component }) on_close
        p

abbrev pub is_entry : ℕ → Option ℕ → Bool
is_entry a none = false
is_entry a (some b) = b == a

-- `releaseEntry`; `releaseFunc` calls it once.
unfoldable pub release_entry : PoolKey → ℕ → Pool → Pool
unfolding write
release_entry key a p =
    if is_entry a (lookup key p.entries) && ltb 0 (p.memory a).refs
    then record p {
      memory = write a (record (p.memory a) { refs = (p.memory a).refs - 1 }) p.memory;
    }
    else p

-- `Acquire` after it waited: the entry is ready, or the context has ended.
unfoldable pub end_wait : PoolKey → ℕ → Option ℕ → Pool → Pool × Result ℕ (Option ℕ)
unfolding release_entry
end_wait key a (some ended) p = (release_entry key a p, err ended)
end_wait key a none p = elim ((p.memory a).failure) [
  | some e ↦ (release_entry key a p, err e)
  | none ↦ (p, ok (p.memory a).runtime)
]

-- The factory failed to open the entry.
unfoldable pub fail_entry : PoolKey → ℕ → ℕ → Pool → Pool
unfolding write
fail_entry key a e p = record p {
  memory = write a (record (p.memory a) { ready = true; failure = some e }) p.memory;
  entries = delete key p.entries;
}

-- `Acquire` after the factory opened the runtime or failed.
unfoldable pub end_acquire : PoolKey → ℕ → Result ℕ ℕ → Pool → Pool × Result ℕ ℕ
unfolding write fail_entry release_entry
end_acquire key a (ok runtime) p = (
  record p {
    memory = write a (record (p.memory a) { ready = true; runtime = some runtime }) p.memory;
  },
  ok runtime,
)
end_acquire key a (err e) p = (release_entry key a (fail_entry key a e p), err e)

-- The addresses of the entries of a session, and the entries of the others.
unfoldable pub of_frontend : ℕ → List (PoolKey × ℕ) → List ℕ
of_frontend s [] = []
of_frontend s ((key, a) ∷ entries) =
    let rest = of_frontend s entries in if key.frontend == s then a ∷ rest else rest

unfoldable pub not_of_frontend : ℕ → List (PoolKey × ℕ) → List (PoolKey × ℕ)
not_of_frontend s [] = []
not_of_frontend s ((key, a) ∷ entries) =
    let rest = not_of_frontend s entries in if key.frontend == s then rest else (key, a) ∷ rest

-- The runtimes of ready entries that count requests.
abbrev pub activity_runtimes : (ℕ → Bool) → (ℕ → Entry) → List ℕ → List ℕ
activity_runtimes counts memory [] = []
activity_runtimes counts memory (a ∷ rest_of) =
    let rest = activity_runtimes counts memory rest_of in
    if (memory a).ready
    then elim ((memory a).runtime) as (λ r. List ℕ) [
      | none ↦ rest
      | some runtime ↦ if counts runtime then runtime ∷ rest else rest
    ]
    else rest

-- `SetFrontendActivity`: the runtimes that it tells.
unfoldable pub set_frontend_activity : (ℕ → Bool) → Option ℕ → Pool → List ℕ
unfolding of_frontend
set_frontend_activity counts none p = []
set_frontend_activity counts (some frontend) p =
    activity_runtimes counts p.memory (of_frontend frontend p.entries)

-- `closeSession` until it waits for the entries that it removed.
unfoldable pub begin_close_session : ℕ → Pool → Pool × List ℕ
unfolding without of_frontend not_of_frontend
begin_close_session s p = if p.closed then (record p { watched = without s p.watched }, []) else (
  record p {
    watched = without s p.watched;
    cleanup = p.cleanup + 1;
    entries = not_of_frontend s p.entries;
  },
  of_frontend s p.entries,
)

-- `closeSession` for one entry that is ready: `result` is what the runtime returned, if there is
-- one, and the result tells whether the callback is called.
unfoldable pub close_detached : ℕ → Option ℕ → Pool → Pool × Bool
close_detached a result p = elim ((p.memory a).runtime) [
  | none ↦ (p, (p.memory a).on_close)
  | some runtime ↦ elim result [
    | none ↦ (p, (p.memory a).on_close)
    | some e ↦ (
      record p { cleanup_error = some e; cleanup_failures = (p.cleanup_failures + 1) % 2 ^ 64 },
      (p.memory a).on_close,
    )
  ]
]

-- The end of `closeSession`, of a pool that was not closed when it began.
unfoldable pub end_close_session : Pool → Pool
end_close_session p = record p { cleanup = p.cleanup - 1 }

-- `Close` until it waits for the entries that it removed; `none` where the pool is closed already.
unfoldable pub begin_close : Pool → Pool × Option (List ℕ)
begin_close p =
    if p.closed
    then (p, none)
    else (record p { closed = true; entries = [] }, some (map (λ e. e.1) p.entries))

-- The result of `Close`, from the errors of the runtimes that it closed: those, and the last error
-- of the sessions with the number of them.
unfoldable pub close_result : List (Option ℕ) → Pool → List ℕ × Option (ℕ × ℕ)
close_result [] p =
    ([], elim p.cleanup_error [ none ↦ none | some e ↦ some (p.cleanup_failures, e) ])
close_result (none ∷ results) p = close_result results p
close_result (some e ∷ results) p = let rest = close_result results p in (e ∷ rest.0, rest.1)
