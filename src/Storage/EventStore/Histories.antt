-- ===== src/Storage/EventStore/Histories.antt =====
-- The histories of the streams once storage/eventstore.go wrote to its tables, before it prunes.
use mmmcp.Base.{
  ℕ, ◌+◌, ◌≡◌, refl, inl, inr, false, if◌then◌else◌, none, some, List, [], ◌∷◌, ◌++◌, length-append,
  Text, arith, Bool-cases, ok,
}
use mmmcp.Storage.EventStore.{
  Key, key_eq, StreamRow, Database, update, upsert_stream, new_event, append_event, insert_event,
  read_value, session_closed, has_event,
}
use mmmcp.Storage.EventStore.Bounds.{PrimaryKey, insert_event-PrimaryKey}
use mmmcp.Storage.EventStore.Tables.{
  key_eq_iff, rows_of, rows_of-append, rows_of-delete_session_events, has_event-has_index,
}
use mmmcp.Storage.EventStore.Tracks.{Value, Tracks, HoldsFrom-append, HoldsFrom-has_index}

-- The history of stream `j` once `k` is opened: a new stream starts empty.
abbrev pub opened : Key → Key → Database → List Value → List Value
opened j k db history =
    if key_eq k j then elim (db.streams k) [ none ↦ [] | some s ↦ history ] else history

-- The history of stream `j` once a value is appended to `k`.
abbrev pub appended : Key → Key → Value → List Value → List Value
appended j k value history = if key_eq k j then history ++ value ∷ [] else history

pub upsert_stream-Tracks :
    (j k : Key) (expires now : ℕ) (history : List Value) (db : Database)
    → Tracks j history db
    → Tracks j (opened j k db history) (upsert_stream k expires now db)
unfolding upsert_stream update
upsert_stream-Tracks j k expires now history db t = ground (arith, key_eq_iff k j)

read_value-new_event :
    (k : Key) (i : ℕ) (value : Value) (now : ℕ) → read_value (new_event k i value now) ≡ value
unfolding read_value new_event
read_value-new_event k i none now = refl
read_value-new_event k i (some bytes) now = refl

pub new_event_fields :
    (k : Key) (i : ℕ) (value : Value) (now : ℕ)
    → ((new_event k i value now).key ≡ k) × ((new_event k i value now).event_index ≡ i)
unfolding new_event
new_event_fields k i none now = (refl, refl)
new_event_fields k i (some bytes) now = (refl, refl)

-- The next index is free in the log.
fresh_index :
    (k : Key) (history : List Value) (db : Database) (s : StreamRow)
    → Tracks k history db
    → db.streams k ≡ some s
    → has_event k s.next_index db.log ≡ false
fresh_index k history db s t e = elim (Bool-cases (has_event k s.next_index db.log)) [
  | inl m ↦ absurd (
      ground (
        arith,
        has_event-has_index k s.next_index db.log,
        HoldsFrom-has_index history s.first_retained_index s.next_index (rows_of k db.log),
      ))
  | inr m ↦ m
]

-- The tables after an insert of the next event.
unfoldable pub extended : ℕ → ℕ → Key → Value → StreamRow → Database → Database
extended ttl now k value s db = record {
  streams =
      update db.streams k (
        some
          (record s { next_index = s.next_index + 1; expires_at = now + ttl; updated_at = now }));
  log = db.log ++ new_event k s.next_index value now ∷ [];
}

module _ (ttl now : ℕ) (k : Key) (value : Value) (db : Database) (s : StreamRow)
    (e : db.streams k ≡ some s) where
  pub append_event-extended :
      (history : List Value)
      → Tracks k history db
      → append_event ttl now k value db ≡ ok (extended ttl now k value s db)
  unfolding append_event insert_event extended
  append_event-extended history t =
      ground (arith, fresh_index k history db s t e, new_event_fields k s.next_index value now)

  pub extended-Tracks :
      (j : Key) (history : List Value)
      → Tracks j history db
      → Tracks j (appended j k value history) (extended ttl now k value s db)
  unfolding extended update
  extended-Tracks j history t = ground (
    arith,
    key_eq_iff k j,
    rows_of-append j (new_event k s.next_index value now) db.log,
    new_event_fields k s.next_index value now,
    read_value-new_event k s.next_index value now,
    length-append history (value ∷ []),
    HoldsFrom-append history s.first_retained_index (rows_of j db.log)
        (new_event k s.next_index value now),
  )

  pub extended-PrimaryKey :
      (history : List Value)
      → Tracks k history db
      → PrimaryKey db.log
      → PrimaryKey (extended ttl now k value s db).log
  unfolding extended insert_event
  extended-PrimaryKey history t u =
      let row = new_event k s.next_index value now in
      insert_event-PrimaryKey row db.log _ u
        (ground (arith, fresh_index k history db s t e, new_event_fields k s.next_index value now))

pub upsert_stream-PrimaryKey :
    (k : Key) (expires now : ℕ) (db : Database)
    → PrimaryKey db.log
    → PrimaryKey (upsert_stream k expires now db).log
unfolding upsert_stream
upsert_stream-PrimaryKey k expires now db u = ground arith

pub session_closed-Tracks :
    (session : Text) (k : Key) (history : List Value) (db : Database)
    → Tracks k history db
    → Tracks k history (session_closed session db)
unfolding session_closed
session_closed-Tracks session k history db t =
    ground (arith, rows_of-delete_session_events k session db.log)
