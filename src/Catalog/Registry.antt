-- ===== src/Catalog/Registry.antt =====
-- catalog/registry.go: catalogs cached by the fingerprint of their configuration, and refreshed.
-- Each definition is one section of the code under the mutex; what it compiles in between, and
-- what its caller goes on with, are arguments and results. Fingerprints are texts, entries are
-- told by their addresses and channels by numbers.
pub mod Refresh
pub mod Sound
pub mod System
pub mod Invariant
pub mod Steps
pub mod Begins
pub mod Ends
pub mod Closing
pub mod Progress
use mmmcp.Base.{
  ℕ, suc, ◌+◌, Bool, true, false, not, ◌&&◌, ◌||◌, if◌then◌else◌, ◌==◌, Option, none, some, List,
  [], ◌∷◌, ◌++◌, Text, text_eq, text_keys, lookup, insert, delete, Result, ok, err,
}
use mmmcp.Catalog.{Catalog}
use mmmcp.Catalog.Compiler
use mmmcp.Config.{Server, Config}

-- A callback of `RequestRefresh`, by its identity.
abbrev pub Callback : Type 0
Callback = ℕ

abbrev pub Compiled : Type 0
Compiled = Result Compiler.Error Catalog

-- `registryEntry`. `ready` tells whether the channel is closed, `timer` whether there is one.
pub record Entry : Type 0 where
  pub ready : Bool
  pub catalog : Option Catalog
  pub failure : Option Compiler.Error
  pub config : Config
  pub refreshing : Bool
  pub pending : Bool
  pub timer : Bool
  pub callbacks : List Callback
  pub stale : Bool
  pub refresh_done : Option ℕ

-- `StartSearchIndex` and `StopSearchIndex` of a catalog that may be nil.
pub data IndexCall : Type 0 where
  starts stops : Option Catalog → IndexCall

-- `Registry`, with the entries in memory, the next free address and channel, the channels closed
-- so far and the calls made to the search indexes.
pub record Registry : Type 0 where
  pub entries : List (Text × ℕ)
  pub memory : ℕ → Entry
  pub next_address : ℕ
  pub next_channel : ℕ
  pub closed_channels : List ℕ
  pub index_calls : List IndexCall
  pub closed : Bool

unfoldable pub write : ℕ → Entry → (ℕ → Entry) → ℕ → Entry
write a e memory b = if a == b then e else memory b

-- `*entry = e`
unfoldable pub set_entry : ℕ → Entry → Registry → Registry
unfolding write
set_entry a e r = record r { memory = write a e r.memory }

unfoldable pub calls : List IndexCall → Registry → Registry
calls made r = record r { index_calls = r.index_calls ++ made }

unfoldable pub close_channel : Option ℕ → Registry → Registry
close_channel none r = r
close_channel (some c) r = record r { closed_channels = c ∷ r.closed_channels }

abbrev pub new_entry : Bool → Option Catalog → Config → Entry
new_entry ready catalog cfg = record {
  ready = ready;
  catalog = catalog;
  failure = none;
  config = cfg;
  refreshing = false;
  pending = false;
  timer = false;
  callbacks = [];
  stale = false;
  refresh_done = none;
}

-- A new entry at a free address, installed under the fingerprint.
unfoldable pub install : Text → Entry → Registry → Registry
unfolding write
install f e r = record r {
  entries = insert f r.next_address r.entries;
  memory = write r.next_address e r.memory;
  next_address = r.next_address + 1;
}

abbrev pub is_pending : Catalog → Bool
is_pending c = not (Compiler.is_nil c.pending_authorization)

-- `Cached`
unfoldable pub cached : Text → Registry → Option Catalog
cached f r = elim (lookup f r.entries) [
  | none ↦ none
  | some a ↦ elim ((r.memory a).failure) [
    | some e ↦ none
    | none ↦
        if r.closed || (r.memory a).stale || not (r.memory a).ready
        then none
        else elim ((r.memory a).catalog) as (λ c. Option Catalog) [
          | none ↦ none
          | some c ↦ if is_pending c then none else some c
        ]
  ]
]

-- `entryForConfig`
unfoldable pub entry_for_config : Text → Config → Registry → Registry × ℕ × Bool
unfolding install
entry_for_config f cfg r = elim (lookup f r.entries) [
  | some a ↦ (r, a, false)
  | none ↦ (install f (new_entry false none cfg) r, r.next_address, true)
]

abbrev pub catalog_of : Compiled → Option Catalog
catalog_of (ok c) = some c
catalog_of (err e) = none

abbrev pub failure_of : Compiled → Option Compiler.Error
failure_of (ok c) = none
failure_of (err e) = some e

-- `compileErr != nil || len(compiled.pendingAuthorization) > 0`
abbrev pub is_uncached : Compiled → Bool
is_uncached (ok c) = is_pending c
is_uncached (err e) = true

abbrev pub starts_compiled : Bool → Compiled → List IndexCall
starts_compiled closed (ok c) = if closed then [] else starts (some c) ∷ []
starts_compiled closed (err e) = []

abbrev pub is_entry : ℕ → Option ℕ → Bool
is_entry a none = false
is_entry a (some b) = b == a

-- `Get`, after the compilation of the entry that it created.
unfoldable pub store_compiled : Text → ℕ → Compiled → Registry → Registry
unfolding set_entry calls
store_compiled f a compiled r =
    let stored =
      set_entry a
        (record (r.memory a) {
          ready = true;
          catalog = catalog_of compiled;
          failure = failure_of compiled;
        })
        r in
    calls (starts_compiled r.closed compiled) (record stored {
      entries =
          if is_entry a (lookup f r.entries) && is_uncached compiled
          then delete f r.entries
          else r.entries;
    })

-- `publish` to a registry that is not closed.
unfoldable pub publish_open : Text → Config → Catalog → Registry → Registry
unfolding install calls
publish_open f cfg compiled r =
    let started = calls (starts (some compiled) ∷ []) r in
    elim (lookup f r.entries) [
      | some a ↦ started
      | none ↦
          if is_pending compiled
          then started
          else install f (new_entry true (some compiled) cfg) started
    ]

-- `publish`
unfoldable pub publish : Text → Config → Catalog → Registry → Registry
unfolding publish_open
publish f cfg compiled r = if r.closed then r else publish_open f cfg compiled r

-- What the first section of `waitForCatalog` makes of a ready entry: a result, or a channel to
-- wait for.
pub data Await : Type 0 where
  returns : Option Catalog → Option Compiler.Error → Await
  canceled : Await
  waits : ℕ → Await

abbrev pub is_none {ℓ} : {A : Type ℓ} → Option A → Bool
is_none none = true
is_none (some a) = false

abbrev pub or_channel : Option ℕ → ℕ → ℕ
or_channel none n = n
or_channel (some c) n = c

-- The entry that a caller waits on, with the next free channel.
unfoldable pub await_entry : ℕ → Entry → Entry
await_entry channel e = record e {
  refresh_done = some (or_channel e.refresh_done channel);
  timer = e.timer || not e.refreshing;
}

-- The registry in which a caller waits on the entry.
unfoldable pub await_open : ℕ → Registry → Registry
unfolding set_entry await_entry
await_open a r = record (set_entry a (await_entry r.next_channel (r.memory a)) r) {
  next_channel = if is_none (r.memory a).refresh_done then r.next_channel + 1 else r.next_channel;
}

unfoldable pub await_refresh : ℕ → Bool → Registry → Registry × Await
unfolding await_open
await_refresh a tool_search r =
    let e = r.memory a in
    if not (is_none e.failure) || not e.stale || not tool_search
    then (r, returns e.catalog e.failure)
    else if r.closed
    then (r, canceled)
    else (await_open a r, waits (or_channel e.refresh_done r.next_channel))

-- The second section of `waitForCatalog`; `none` is `ErrCatalogUnavailable`.
unfoldable pub after_refresh : Text → Registry → Option (Option Catalog × Option Compiler.Error)
after_refresh f r = elim (lookup f r.entries) [
  | none ↦ none
  | some a ↦ if (r.memory a).stale then none else some ((r.memory a).catalog, (r.memory a).failure)
]
