-- ===== src/Storage/Stores.antt =====
-- storage/registry.go, and the opening of a store in storage/open.go. Stores are told by numbers,
-- entries by their addresses.
use mmmcp.Base.{
  ℕ, ◌+◌, Bool, true, false, if◌then◌else◌, ◌==◌, Option, none, some, List, [], ◌∷◌, map, Text,
  codes, is_empty, text_keys, lookup, insert, delete, Result, ok, err, ◌>>=◌,
}
use mmmcp.Storage.Dsn.{ClassifiedDsn}
use mmmcp.Storage.Dsn
use mmmcp.Storage.Options.{Dialect}

pub data Error : Type 0 where
  invalid_dsn : Dsn.Error → Error
  registry_closed : Error
  operation_failed : Dialect → Text → Error
  canceled : Dialect → Text → ℕ → Error

-- An error that a call returned, and whether it is that of a context.
pub record Cause : Type 0 where
  pub cause : ℕ
  pub is_context : Bool

-- `storageError`
unfoldable pub storage_error : Dialect → Text → Cause → Error
storage_error dialect operation c =
    if c.is_context then canceled dialect operation c.cause else operation_failed dialect operation

-- The calls of `Open`, in order: each returns an error or none. `sql_open` returns a database.
pub record Calls : Type 0 where
  pub make_directory : Text → Option Cause
  pub sql_open : Text → Text → Result Cause ℕ
  pub ping : ℕ → Option Cause
  pub migrate : ℕ → Dialect → Option Cause
  pub prune : ℕ → Option Cause

abbrev pub failing : Dialect → Text → Option Cause → Result Error (Unit {0})
failing dialect operation none = ok tt
failing dialect operation (some c) = err (storage_error dialect operation c)

-- What is left to do on an opened database, in order.
unfoldable pub prepare : Calls → Dialect → ℕ → Result Error ℕ
unfolding storage_error
prepare calls dialect db = failing dialect (codes "ping") (calls.ping db) >>= λ _.
    failing dialect (codes "migrate") (calls.migrate db dialect) >>= λ _.
    failing dialect (codes "prune") (calls.prune db) >>= λ _. ok db

-- `Open` of a classified name: the store, and the databases that it closed.
unfoldable pub open_classified : Calls → ClassifiedDsn → Result Error ℕ × List ℕ
unfolding prepare storage_error
open_classified calls c =
    let made : Option Cause = if is_empty c.path then none else calls.make_directory c.path in
    elim made [
      | some e ↦ (err (storage_error c.dialect (codes "create data directory") e), [])
      | none ↦ elim (calls.sql_open c.driver c.value) [
        | err e ↦ (err (storage_error c.dialect (codes "open") e), [])
        | ok db ↦ elim (prepare calls c.dialect db) [ ok s ↦ (ok s, []) | err e ↦ (err e, db ∷ []) ]
      ]
    ]

-- `registryEntry`; `ready` tells whether the channel is closed.
pub record Entry : Type 0 where
  pub ready : Bool
  pub store : Option ℕ
  pub failure : Option Error

-- `Registry`, with its entries in memory and the next free address.
pub record Registry : Type 0 where
  pub entries : List (Text × ℕ)
  pub memory : ℕ → Entry
  pub next_address : ℕ
  pub closed : Bool

unfoldable pub write : ℕ → Entry → (ℕ → Entry) → ℕ → Entry
write a e memory b = if a == b then e else memory b

-- What the first section of `Get` decides.
pub data BeginGet : Type 0 where
  refused : Error → BeginGet
  waits : ℕ → BeginGet
  opens : ℕ → BeginGet

-- `Get` until it opens the store, for the key of the classified name.
unfoldable pub begin_get : Text → Registry → Registry × BeginGet
unfolding write
begin_get key r = if r.closed then (r, refused registry_closed) else elim (lookup key r.entries) [
  | some a ↦ (r, waits a)
  | none ↦ (
    record r {
      entries = insert key r.next_address r.entries;
      memory =
          write r.next_address (record { ready = false; store = none; failure = none }) r.memory;
      next_address = r.next_address + 1;
    },
    opens r.next_address,
  )
]

abbrev pub opened_entry : Result Error ℕ → Entry
opened_entry (ok store) = record { ready = true; store = some store; failure = none }
opened_entry (err e) = record { ready = true; store = none; failure = some e }

abbrev pub is_err : Result Error ℕ → Bool
is_err (ok store) = false
is_err (err e) = true

-- `Get` after it opened the store.
unfoldable pub end_get : Text → ℕ → Result Error ℕ → Registry → Registry
unfolding write
end_get key a result r = record r {
  entries = if is_err result then delete key r.entries else r.entries;
  memory = write a (opened_entry result) r.memory;
}

-- `Close` until it waits for the entries, in order.
unfoldable pub begin_close : Registry → Registry × List ℕ
begin_close r = if r.closed then (r, []) else (record r { closed = true }, map (λ p. p.1) r.entries)
