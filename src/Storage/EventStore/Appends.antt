-- ===== src/Storage/EventStore/Appends.antt =====
-- What the operations of storage/eventstore.go do to the histories of the streams.
use mmmcp.Base.{
  ℕ, ◌+◌, ◌<◌, ◌≡◌, refl, Bool, true, false, none, some, List, [], ◌∷◌, Text, arith, Result, ok,
  err, Returns, IfOk,
}
use mmmcp.Storage.EventStore.{
  total_size, Key, StreamRow, EventRow, Database, Error, unknown_event_stream, upsert_stream,
  append_event, append, open_stream, prune, session_closed, delete_session_events, in_session,
  has_event,
}
use mmmcp.Storage.EventStore.Bounds.{PrimaryKey, Bounded, prune-Bounded}
use mmmcp.Storage.EventStore.Pruning.{prune-Tracks}
use mmmcp.Storage.EventStore.Rows.{prune-AllPruned}
use mmmcp.Storage.EventStore.Tables.{rows_of, rows_of-delete_session_events}
use mmmcp.Storage.EventStore.Tracks.{Value, Tracks}
use mmmcp.Storage.EventStore.Histories.{
  opened, appended, upsert_stream-Tracks, extended, append_event-extended, extended-Tracks,
  extended-PrimaryKey, upsert_stream-PrimaryKey, session_closed-Tracks,
}
use mmmcp.Storage.EventStore.Writes.{
  AllPruned, Writes, next_of, size_of, upserted-Writes, extended-Writes,
}

-- The tables are consistent: the log has its primary key, and every stream's rows hold the
-- history that the function gives it, from its watermark on.
pub record Consistent (histories : Key → List Value) (db : Database) : Type 0 where
  pub keyed : PrimaryKey db.log
  pub tracked : (k : Key) → Tracks k (histories k) db

-- The outcome of an operation that prunes: consistent tables within the size bound, and what the
-- stream rows are.
abbrev pub Done : ℕ → (Key → List Value) → (Database → Type 0) → Result Error Database → Type 0
Done max_event_bytes histories Rows =
    Returns (λ db. Consistent histories db × Bounded max_event_bytes db × Rows db)

Done-intro :
    (max_event_bytes : ℕ) (histories : Key → List Value) (Rows : Database → Type 0)
    (r : Result Error Database)
    → ((k : Key) → IfOk (Tracks k (histories k)) r)
    → Returns (Bounded max_event_bytes) r
    → IfOk Rows r
    → Done max_event_bytes histories Rows r
Done-intro max_event_bytes histories Rows (ok db) t b w =
    (record { keyed = b.keyed; tracked = t }, b, w)
Done-intro max_event_bytes histories Rows (err e) t b w = b

Done-map :
    (max_event_bytes : ℕ) (histories : Key → List Value) (Rows Rows' : Database → Type 0)
    (r : Result Error Database)
    → ((db : Database) → Consistent histories db → Rows db → Rows' db)
    → Done max_event_bytes histories Rows r
    → Done max_event_bytes histories Rows' r
Done-map max_event_bytes histories Rows Rows' (ok db) h (c, b, w) = (c, b, h db c w)
Done-map max_event_bytes histories Rows Rows' (err e) h d = d

abbrev pub empty_database : Database
empty_database = record { streams = λ k. none; log = [] }

-- Empty tables are consistent with any histories.
pub empty_database-Consistent : (histories : Key → List Value) → Consistent histories empty_database
unfolding rows_of
empty_database-Consistent histories = record { keyed = tt; tracked = λ k. refl }

module _ (collates_before : Text → Text → Bool) (max_event_bytes : ℕ) where
  pub prune-Done :
      (now : ℕ) (histories : Key → List Value) (db : Database)
      → Consistent histories db
      → Done max_event_bytes histories
          (AllPruned max_event_bytes now db)
          (prune collates_before max_event_bytes now db)
  prune-Done now histories db c =
      Done-intro max_event_bytes histories _ _
        (λ k. prune-Tracks collates_before max_event_bytes now k (histories k) db (c.tracked k))
        (prune-Bounded collates_before max_event_bytes now db c.keyed)
        (prune-AllPruned collates_before max_event_bytes now db)

  -- On consistent tables, `Open` succeeds and leaves consistent tables within the size bound, where
  -- a new stream has an empty history and every other history stays. The stream has a row with the
  -- next index of the old row or 0, which expires after the time to live and has the old watermark
  -- or 0, unless the log is over the bound; of the other streams those stay that did not expire.
  pub open_stream-Done :
      (ttl now : ℕ) (k : Key) (histories : Key → List Value) (db : Database)
      → 0 < ttl
      → Consistent histories db
      → Done max_event_bytes
          (λ j. opened j k db (histories j))
          (Writes max_event_bytes (total_size db.log) now k (next_of (db.streams k)) (now + ttl) db)
          (open_stream collates_before max_event_bytes ttl now k db)
  unfolding open_stream
  open_stream-Done ttl now k histories db live c =
      Done-map max_event_bytes _ _ _ _
        (λ after d p. upserted-Writes max_event_bytes ttl now k db after live p)
        (prune-Done now _ (upsert_stream k (now + ttl) now db) (record {
          keyed = upsert_stream-PrimaryKey k (now + ttl) now db c.keyed;
          tracked = λ j. upsert_stream-Tracks j k (now + ttl) now (histories j) db (c.tracked j);
        }))

  -- On consistent tables, `Append` to a stream that exists succeeds and leaves consistent tables
  -- within the size bound, where the value is the last of the stream's history and every other
  -- history stays. So appends are numbered without gaps, and a nil payload is not an empty one. The
  -- stream has a row with the index after the old one, which expires after the time to live and has
  -- the old watermark, unless the log with the value is over the bound; of the other streams those
  -- stay that did not expire.
  pub append-Done :
      (ttl now : ℕ) (k : Key) (value : Value) (histories : Key → List Value) (db : Database)
      (s : StreamRow)
      → 0 < ttl
      → Consistent histories db
      → db.streams k ≡ some s
      → Done max_event_bytes
          (λ j. appended j k value (histories j))
          (Writes max_event_bytes
            (total_size db.log + size_of value)
            now
            k
            (s.next_index + 1)
            (now + ttl)
            db)
          (append collates_before max_event_bytes ttl now k value db)
  unfolding append
  append-Done ttl now k value histories db s live c e =
      rw (append_event-extended ttl now k value db s e (histories k) (c.tracked k)) (
        Done-map max_event_bytes _ _ _ _
          (λ after d p. extended-Writes max_event_bytes ttl now k value db s e after live p)
          (prune-Done now _ (extended ttl now k value s db) (record {
            keyed = extended-PrimaryKey ttl now k value db s e (histories k) (c.tracked k) c.keyed;
            tracked = λ j. extended-Tracks ttl now k value db s e j (histories j) (c.tracked j);
          })))

  -- `Append` to a stream that does not exist, or expired, fails and writes nothing.
  pub append_unknown :
      (ttl now : ℕ) (k : Key) (value : Value) (db : Database)
      → db.streams k ≡ none
      → append collates_before max_event_bytes ttl now k value db ≡ err unknown_event_stream
  unfolding append append_event
  append_unknown ttl now k value db e = rw (e, append_event)

has_event-delete_session_events :
    (k : Key) (i : ℕ) (session : Text) (log : List EventRow)
    → has_event k i log ≡ false
    → has_event k i (delete_session_events session log) ≡ false
unfolding has_event delete_session_events
has_event-delete_session_events k i session [] h = refl
has_event-delete_session_events k i session (e ∷ es) h =
    ground (arith, has_event-delete_session_events k i session es)

delete_session_events-PrimaryKey :
    (session : Text) (log : List EventRow)
    → PrimaryKey log
    → PrimaryKey (delete_session_events session log)
unfolding delete_session_events
delete_session_events-PrimaryKey session [] u = tt
delete_session_events-PrimaryKey session (e ∷ es) u = ground (
  arith,
  delete_session_events-PrimaryKey session es u.1,
  has_event-delete_session_events e.key e.event_index session es u.0,
)

-- On consistent tables, `SessionClosed` removes every stream of the session, leaves the rows of the other sessions'
-- streams, and keeps the tables consistent with the same histories.
pub session_closed_lem :
    (session : Text) (histories : Key → List Value) (db : Database)
    → Consistent histories db
    → Consistent histories (session_closed session db)
      × ((k : Key) → in_session session k ≡ true → (session_closed session db).streams k ≡ none)
      × ((k : Key)
          → in_session session k ≡ false
          → ((session_closed session db).streams k ≡ db.streams k)
            × (rows_of k (session_closed session db).log ≡ rows_of k db.log))
unfolding session_closed
session_closed_lem session histories db c = (
  record {
    keyed = delete_session_events-PrimaryKey session db.log c.keyed;
    tracked = λ k. session_closed-Tracks session k (histories k) db (c.tracked k);
  },
  λ k h. ground arith,
  λ k h. (ground arith, ground (arith, rows_of-delete_session_events k session db.log)),
)
