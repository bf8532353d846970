-- ===== src/Tests/Events.antt =====
-- Event streams of the model of storage/eventstore.go.
use mmmcp.Base.{
  subst, inl, inr, Bool-cases, ◌+◌, ◌≡◌, refl, ℕ, Bool, true, false, if◌then◌else◌, ltb, Option,
  none, some, List, [], ◌∷◌, Text, codes, text_lt, drop, ok, err, pos, arith,
}
use mmmcp.Storage.EventStore.{
  key_eq, has_event, is_event, Key, Database, StreamRow, EventRow, update, append, open_stream,
  read_after, session_closed, in_session, events_purged, upsert_stream, total_size,
}
use mmmcp.Storage.EventStore.Tables.{rows_of, key_eq_iff}
use mmmcp.Storage.EventStore.Tracks.{Value, Tracks}
use mmmcp.Storage.EventStore.Appends.{
  Consistent, Done, empty_database, empty_database-Consistent, open_stream-Done, append-Done,
  session_closed_lem,
}
use mmmcp.Storage.EventStore.Histories.{opened, appended}
use mmmcp.Storage.EventStore.Writes.{Writes, next_of, size_of}
use mmmcp.Storage.EventStore.Replay.{Rearranged, nil, cons, swap, read_after_replays}

abbrev stream : Key
stream = (codes "session", codes "stream")

abbrev no_histories : Key → List Value
no_histories k = []

open_stream-Done_example :
    Done 100
      (λ j. opened j stream empty_database (no_histories j))
      (Writes 100
        (total_size empty_database.log)
        3
        stream
        (next_of (empty_database.streams stream))
        53
        empty_database)
      (open_stream text_lt 100 50 3 stream empty_database)
open_stream-Done_example =
    open_stream-Done text_lt 100 50 3 stream no_histories empty_database (omega arith)
      (empty_database-Consistent no_histories)

abbrev row : StreamRow
row = record { first_retained_index = 1; next_index = 2; expires_at = 53; updated_at = 3 }

abbrev event : EventRow
event = record {
  key = stream;
  event_index = 1;
  payload = codes "two";
  payload_is_null = false;
  payload_size = 3;
  created_at = 3;
}

-- The first of two events is pruned.
abbrev database : Database
database = record { streams = update (λ k. none) stream (some row); log = event ∷ [] }

abbrev history : List Value
history = some (codes "one") ∷ some (codes "two") ∷ []

database-Tracks : Tracks stream history database
unfolding update rows_of mmmcp.Storage.EventStore.key_eq mmmcp.Base.text_eq
    mmmcp.Storage.EventStore.read_value
database-Tracks = (refl, omega arith, (refl, refl, refl))

database-row : database.streams stream ≡ some row
unfolding update mmmcp.Storage.EventStore.key_eq mmmcp.Base.text_eq
database-row = refl

-- The database finds the first two rows in the other order.
abbrev swapped : List EventRow → List EventRow
swapped [] = []
swapped (e ∷ []) = e ∷ []
swapped (e ∷ x ∷ es) = x ∷ e ∷ es

same-Rearranged : (rows : List EventRow) → Rearranged rows rows
same-Rearranged [] = nil
same-Rearranged (e ∷ es) = cons e (same-Rearranged es)

swapped-Rearranged : (rows : List EventRow) → Rearranged rows (swapped rows)
swapped-Rearranged [] = nil
swapped-Rearranged (e ∷ []) = cons e nil
swapped-Rearranged (e ∷ x ∷ es) = swap e x es

read_after_replays_example :
    read_after swapped stream (pos 0) database
    ≡ (if ltb 1 row.first_retained_index then err events_purged else ok (drop 1 history))
read_after_replays_example =
    read_after_replays swapped swapped-Rearranged stream history database row (pos 0)
      database-Tracks database-row

abbrev histories : Key → List Value
histories k = if key_eq stream k then history else []

histories-Tracks : Tracks stream (histories stream) database
unfolding update rows_of key_eq mmmcp.Base.text_eq mmmcp.Storage.EventStore.read_value
histories-Tracks = (refl, omega arith, (refl, refl, refl))

other-Tracks : (k : Key) → key_eq stream k ≡ false → Tracks k (histories k) database
unfolding update rows_of
other-Tracks k q = rw (q, Tracks, q) (ground arith)

database-Consistent : Consistent histories database
unfolding has_event
database-Consistent = record {
  keyed = (refl, tt);
  tracked = λ k. elim (Bool-cases (key_eq stream k)) [
    | inl q ↦
        subst (λ j. Tracks j (histories j) database) ((key_eq_iff stream k).0 q) histories-Tracks
    | inr q ↦ other-Tracks k q
  ];
}

append-Done_example :
    Done 3
      (λ j. appended j stream (some (codes "three")) (histories j))
      (Writes 3
        (total_size database.log + size_of (some (codes "three")))
        9
        stream
        (row.next_index + 1)
        59
        database)
      (append text_lt 3 50 9 stream (some (codes "three")) database)
append-Done_example =
    append-Done text_lt 3 50 9 stream (some (codes "three")) histories database row (omega arith)
      database-Consistent database-row

session_closed_lem_example :
    Consistent histories (session_closed (codes "session") database)
    × ((k : Key)
        → in_session (codes "session") k ≡ true
        → (session_closed (codes "session") database).streams k ≡ none)
    × ((k : Key)
        → in_session (codes "session") k ≡ false
        → ((session_closed (codes "session") database).streams k ≡ database.streams k)
          × (rows_of k (session_closed (codes "session") database).log ≡ rows_of k database.log))
session_closed_lem_example =
    session_closed_lem (codes "session") histories database database-Consistent
