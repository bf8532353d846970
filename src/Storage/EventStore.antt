-- ===== src/Storage/EventStore.antt =====
-- storage/eventstore.go and the pruning of storage/eventstore_sqlite.go: replayable event streams
-- in two SQL tables. Each operation is the body of one transaction; a statement of the code is
-- what it does to the tables. Times and sizes are numbers that stay within int64.
pub mod Tables
pub mod Pruning
pub mod Bounds
pub mod Tracks
pub mod Rows
pub mod Histories
pub mod Writes
pub mod Appends
pub mod Replay
use mmmcp.Base.{
  ℕ, zero, suc, ◌+◌, ◌-◌, ◌^◌, Bool, true, false, not, ◌&&◌, ◌||◌, if◌then◌else◌, ltb, leb, ◌==◌,
  Option, none, some, List, [], ◌∷◌, ◌++◌, length, Text, text_eq, Result, ok, err, ◌>>=◌, ℤ, pos,
  negsuc,
}

-- (session_id, stream_id)
abbrev pub Key : Type 0
Key = Text × Text

unfoldable pub key_eq : Key → Key → Bool
key_eq (s, t) (s', t') = text_eq s s' && text_eq t t'

-- A row of `mmmcp_event_streams`, without its key.
pub record StreamRow : Type 0 where
  pub first_retained_index : ℕ
  pub next_index : ℕ
  pub expires_at : ℕ
  pub updated_at : ℕ

-- A row of `mmmcp_event_log`.
pub record EventRow : Type 0 where
  pub key : Key
  pub event_index : ℕ
  pub payload : List ℕ
  pub payload_is_null : Bool
  pub payload_size : ℕ
  pub created_at : ℕ

pub record Database : Type 0 where
  pub streams : Key → Option StreamRow
  pub log : List EventRow

pub data Error : Type 0 where
  unknown_event_stream events_purged unique_violation no_rows : Error

-- The streams table with one row written or removed.
unfoldable pub update : (Key → Option StreamRow) → Key → Option StreamRow → Key → Option StreamRow
update streams k row j = if key_eq k j then row else streams j

-- `INSERT … ON CONFLICT DO UPDATE SET expires_at, updated_at`
unfoldable pub upsert_stream : Key → ℕ → ℕ → Database → Database
unfolding update
upsert_stream k expires now db = elim (db.streams k) [
  | none ↦ record db {
    streams = update db.streams k (
        some (record {
          first_retained_index = 0;
          next_index = 0;
          expires_at = expires;
          updated_at = now;
        }));
  }
  | some s ↦ record db {
    streams = update db.streams k (some (record s { expires_at = expires; updated_at = now }));
  }
]

unfoldable pub is_event : Key → ℕ → EventRow → Bool
is_event k i e = key_eq e.key k && e.event_index == i

unfoldable pub has_event : Key → ℕ → List EventRow → Bool
unfolding is_event
has_event k i [] = false
has_event k i (e ∷ es) = is_event k i e || has_event k i es

-- `INSERT INTO mmmcp_event_log`, which the primary key (session_id, stream_id, event_index) guards.
unfoldable pub insert_event : EventRow → List EventRow → Result Error (List EventRow)
unfolding has_event
insert_event e log =
    if has_event e.key e.event_index log then err unique_violation else ok (log ++ e ∷ [])

-- `DELETE FROM mmmcp_event_log WHERE session_id = ? AND stream_id = ? AND event_index = ?`
unfoldable pub delete_event : Key → ℕ → List EventRow → List EventRow
unfolding is_event
delete_event k i [] = []
delete_event k i (e ∷ es) =
    let rest = delete_event k i es in if is_event k i e then rest else e ∷ rest

unfoldable pub is_expired : ℕ → Option StreamRow → Bool
is_expired now none = false
is_expired now (some s) = leb s.expires_at now

-- `DELETE FROM mmmcp_event_log WHERE EXISTS (… streams.expires_at <= ?)`
unfoldable pub delete_expired_events : ℕ → (Key → Option StreamRow) → List EventRow → List EventRow
unfolding is_expired
delete_expired_events now streams [] = []
delete_expired_events now streams (e ∷ es) =
    let rest = delete_expired_events now streams es in
    if is_expired now (streams e.key) then rest else e ∷ rest

-- `DELETE FROM mmmcp_event_streams WHERE expires_at <= ?`
unfoldable pub delete_expired_streams : ℕ → (Key → Option StreamRow) → Key → Option StreamRow
unfolding is_expired
delete_expired_streams now streams k = if is_expired now (streams k) then none else streams k

-- `SUM(payload_size)`; `COUNT(*)` is the length.
unfoldable pub total_size : List EventRow → ℕ
total_size [] = 0
total_size (e ∷ es) = e.payload_size + total_size es

-- `SET first_retained_index = CASE WHEN first_retained_index < ? THEN ? ELSE … END`
unfoldable pub raise_watermark : Key → ℕ → (Key → Option StreamRow) → Key → Option StreamRow
unfolding update
raise_watermark k watermark streams = elim (streams k) [
  | none ↦ streams
  | some s ↦ update streams k (
      some (record s {
        first_retained_index =
            if ltb s.first_retained_index watermark then watermark else s.first_retained_index;
      }))
]

unfoldable pub delete_expired : ℕ → Database → Database
unfolding delete_expired_events delete_expired_streams
delete_expired now db = record {
  streams = delete_expired_streams now db.streams;
  log = delete_expired_events now db.streams db.log;
}

-- The database's order of texts, its collation, is a parameter.
module _ (collates_before : Text → Text → Bool) where
  -- `ORDER BY created_at, session_id, stream_id, event_index`
  unfoldable pub event_before : EventRow → EventRow → Bool
  event_before a b =
      ltb a.created_at b.created_at
      || (a.created_at == b.created_at
          && (collates_before a.key.0 b.key.0
              || (text_eq a.key.0 b.key.0
                  && (collates_before a.key.1 b.key.1
                      || (text_eq a.key.1 b.key.1 && ltb a.event_index b.event_index)))))

  -- `LIMIT 1`
  unfoldable pub oldest : List EventRow → Option EventRow
  unfolding event_before
  oldest [] = none
  oldest (e ∷ es) = elim (oldest es) [
    | none ↦ some e
    | some o ↦ some (if event_before o e then o else e)
  ]

  -- The loop of `pruneTx` over the bytes and the events left. The fuel bounds its rounds.
  unfoldable pub prune_loop : ℕ → ℕ → ℕ → ℕ → Database → Result Error Database
  unfolding oldest delete_event raise_watermark
  prune_loop max_event_bytes zero total count db = ok db
  prune_loop max_event_bytes (suc fuel) total count db =
      if ltb max_event_bytes total && ltb 1 count
      then elim (oldest db.log) [
        | none ↦ err no_rows
        | some o ↦ prune_loop max_event_bytes fuel (total - o.payload_size) (count - 1) (record {
          streams = raise_watermark o.key (o.event_index + 1) db.streams;
          log = delete_event o.key o.event_index db.log;
        })
      ]
      else ok db

  -- `pruneTx`
  unfoldable pub prune : ℕ → ℕ → Database → Result Error Database
  unfolding prune_loop delete_expired total_size
  prune max_event_bytes now db =
      let kept = delete_expired now db in
      prune_loop max_event_bytes (length kept.log) (total_size kept.log) (length kept.log) kept

  -- `Open`: `ttl` is `EventTTL`.
  unfoldable pub open_stream : ℕ → ℕ → ℕ → Key → Database → Result Error Database
  unfolding upsert_stream prune
  open_stream max_event_bytes ttl now k db =
      prune max_event_bytes now (upsert_stream k (now + ttl) now db)

-- The row that `Append` writes: a nil payload is stored as empty and marked.
unfoldable pub new_event : Key → ℕ → Option (List ℕ) → ℕ → EventRow
new_event k i value now = elim value [
  | none ↦ record {
    key = k;
    event_index = i;
    payload = [];
    payload_is_null = true;
    payload_size = 0;
    created_at = now;
  }
  | some bytes ↦ record {
    key = k;
    event_index = i;
    payload = bytes;
    payload_is_null = false;
    payload_size = length bytes;
    created_at = now;
  }
]

-- `Append` up to its call of `pruneTx`.
unfoldable pub append_event : ℕ → ℕ → Key → Option (List ℕ) → Database → Result Error Database
unfolding insert_event new_event update
append_event ttl now k value db = elim (db.streams k) [
  | none ↦ err unknown_event_stream
  | some s ↦ insert_event (new_event k s.next_index value now) db.log >>= λ log. ok (record {
    streams = update db.streams k (
        some
          (record s { next_index = s.next_index + 1; expires_at = now + ttl; updated_at = now }));
    log = log;
  })
]

module _ (collates_before : Text → Text → Bool) where
  -- `Append`
  unfoldable pub append : ℕ → ℕ → ℕ → Key → Option (List ℕ) → Database → Result Error Database
  unfolding append_event prune
  append max_event_bytes ttl now k value db = append_event ttl now k value db >>= λ appended.
      prune collates_before max_event_bytes now appended

-- `int64(index) + 1`, if it is not negative: the sum of the largest index wraps around.
abbrev pub start_after : ℤ → Option ℕ
start_after (pos n) = if ltb (n + 1) (2 ^ 63) then some (n + 1) else none
start_after (negsuc zero) = some 0
start_after (negsuc (suc n)) = none

-- The value that `readAfter` makes of a row.
unfoldable pub read_value : EventRow → Option (List ℕ)
read_value e = if e.payload_is_null then none else some e.payload

-- `WHERE session_id = ? AND stream_id = ? AND event_index >= start`
unfoldable pub select_from : Key → ℕ → List EventRow → List EventRow
select_from k start [] = []
select_from k start (e ∷ es) =
    let rest = select_from k start es in
    if key_eq e.key k && leb start e.event_index then e ∷ rest else rest

unfoldable pub insert_by_index : EventRow → List EventRow → List EventRow
insert_by_index e [] = e ∷ []
insert_by_index e (x ∷ xs) =
    let rest = insert_by_index e xs in
    if leb e.event_index x.event_index then e ∷ x ∷ xs else x ∷ rest

-- `ORDER BY event_index`
unfoldable pub order_by_index : List EventRow → List EventRow
unfolding insert_by_index
order_by_index [] = []
order_by_index (e ∷ es) = insert_by_index e (order_by_index es)

unfoldable pub read_values : List EventRow → List (Option (List ℕ))
unfolding read_value
read_values [] = []
read_values (e ∷ es) = read_value e ∷ read_values es

-- `readAfter`. A negative start lies below every watermark. `arrange` is the order in which the
-- database finds the rows of the query before it sorts them.
unfoldable pub read_after :
    (List EventRow → List EventRow) → Key → ℤ → Database → Result Error (List (Option (List ℕ)))
unfolding select_from order_by_index read_values
read_after arrange k index db = elim (db.streams k) [
  | none ↦ err events_purged
  | some s ↦ elim (start_after index) [
    | none ↦ err events_purged
    | some start ↦
        if ltb start s.first_retained_index
        then err events_purged
        else if leb s.next_index start
        then ok []
        else ok (read_values (order_by_index (arrange (select_from k start db.log))))
  ]
]

unfoldable pub in_session : Text → Key → Bool
in_session session k = text_eq k.0 session

unfoldable pub delete_session_events : Text → List EventRow → List EventRow
unfolding in_session
delete_session_events session [] = []
delete_session_events session (e ∷ es) =
    let rest = delete_session_events session es in
    if in_session session e.key then rest else e ∷ rest

-- `SessionClosed`
unfoldable pub session_closed : Text → Database → Database
unfolding delete_session_events
session_closed session db = record {
  streams = λ k. if in_session session k then none else db.streams k;
  log = delete_session_events session db.log;
}
