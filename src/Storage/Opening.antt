-- ===== src/Storage/Opening.antt =====
-- What storage/open.go leaves open.
use mmmcp.Base.{
  ℕ, ◌≡◌, refl, ◌⊎◌, inl, inr, if◌then◌else◌, Option-cases, Result-cases, none, some, Bool, true,
  false, [], ◌∷◌, codes, is_empty, ok, err,
}
use mmmcp.Storage.Dsn.{ClassifiedDsn}
use mmmcp.Storage.Options.{Dialect}
use mmmcp.Storage.Stores.{Calls, Cause, Error, prepare, storage_error, open_classified}

-- A step on an opened database fails.
abbrev pub Unprepared : Calls → Dialect → ℕ → Type 0
Unprepared calls dialect db =
    ((x : Cause) × (calls.ping db ≡ some x))
    ⊎ ((x : Cause) × (calls.migrate db dialect ≡ some x))
    ⊎ ((x : Cause) × (calls.prune db ≡ some x))

abbrev pub Prepared : Calls → Dialect → ℕ → Type 0
Prepared calls dialect db =
    (calls.ping db ≡ none) × (calls.migrate db dialect ≡ none) × (calls.prune db ≡ none)

-- The directory of a store with a path cannot be made.
abbrev pub Unplaced : Calls → ClassifiedDsn → Type 0
Unplaced calls c =
    (is_empty c.path ≡ false) × ((x : Cause) × (calls.make_directory c.path ≡ some x))

abbrev pub Placed : Calls → ClassifiedDsn → Type 0
Placed calls c = (is_empty c.path ≡ true) ⊎ (calls.make_directory c.path ≡ none)

-- The steps on an opened database succeed when each does.
prepare-cases :
    (calls : Calls) (dialect : Dialect) (db : ℕ)
    → ((prepare calls dialect db ≡ ok db) × Prepared calls dialect db)
      ⊎ ((e : Error) × (prepare calls dialect db ≡ err e) × Unprepared calls dialect db)
unfolding prepare
prepare-cases calls dialect db = elim (Option-cases (calls.ping db)) [
  | inr (e, p) ↦ inr (storage_error dialect (codes "ping") e, rw (prepare, p) refl, inl (e, p))
  | inl p ↦ elim (Option-cases (calls.migrate db dialect)) [
    | inr (e, m) ↦
        inr (storage_error dialect (codes "migrate") e, rw (prepare, p, m) refl, inr (inl (e, m)))
    | inl m ↦ elim (Option-cases (calls.prune db)) [
      | inr (e, q) ↦
          inr
            (storage_error dialect (codes "prune") e, rw (prepare, p, m, q) refl, inr (inr (e, q)))
      | inl q ↦ inl (rw (prepare, p, m, q) refl, (p, m, q))
    ]
  ]
]

directory-cases :
    (calls : Calls) (c : ClassifiedDsn) (b : Bool)
    → is_empty c.path ≡ b
    → (((if b then none else calls.make_directory c.path) ≡ none) × Placed calls c)
      ⊎ ((x : Cause) × ((if b then none else calls.make_directory c.path) ≡ some x)
          × Unplaced calls c)
directory-cases calls c true q = inl (refl, inl q)
directory-cases calls c false q = elim (Option-cases (calls.make_directory c.path)) [
  | inl m ↦ inl (m, inr m)
  | inr (x, m) ↦ inr (x, m, (q, (x, m)))
]

-- Where the data directory, if there is one, can be made and the database opened, `Open` returns it
-- when ping, migration and pruning succeed, and then closes nothing; when one of them fails, it
-- returns an error and has closed the database. Where the directory cannot be made or the database
-- cannot be opened, it returns an error and closes nothing.
pub open_classified-cases :
    (calls : Calls) (c : ClassifiedDsn)
    → (Placed calls c
        × ((db : ℕ) × (calls.sql_open c.driver c.value ≡ ok db)
            × (((open_classified calls c ≡ (ok db, [])) × Prepared calls c.dialect db)
                ⊎ ((e : Error) × (open_classified calls c ≡ (err e, db ∷ []))
                    × Unprepared calls c.dialect db))))
      ⊎ ((e : Error) × (open_classified calls c ≡ (err e, []))
          × (Unplaced calls c ⊎ ((x : Cause) × (calls.sql_open c.driver c.value ≡ err x))))
unfolding open_classified
open_classified-cases calls c = elim (directory-cases calls c (is_empty c.path) refl) [
  | inr (e, m, u) ↦ inr (
    storage_error c.dialect (codes "create data directory") e,
    rw (open_classified, m) refl,
    inl u,
  )
  | inl (m, w) ↦ elim (Result-cases (calls.sql_open c.driver c.value)) [
    | inr (e, o) ↦
        inr (storage_error c.dialect (codes "open") e, rw (open_classified, m, o) refl, inr (e, o))
    | inl (db, o) ↦ elim (prepare-cases calls c.dialect db) [
      | inl (p, q) ↦ inl (w, (db, o, inl (rw (open_classified, m, o, p) refl, q)))
      | inr (e, p, u) ↦ inl (w, (db, o, inr (e, rw (open_classified, m, o, p) refl, u)))
    ]
  ]
]
