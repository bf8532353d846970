-- ===== src/Storage/EventStore/Bounds.antt =====
-- The size bound of `pruneTx` (storage/eventstore_sqlite.go), from the primary key of the log.
use mmmcp.Base.{
  ℕ, zero, suc, ◌+◌, ◌-◌, ◌≤◌, ◌≡◌, refl, ◌⊎◌, inl, inr, Bool, true, false, ◌&&◌, ◌||◌, ltb, Option,
  none, some, List, [], ◌∷◌, ◌++◌, length, Text, arith, Bool-cases, Option-cases, ok, Returns, In,
}
use mmmcp.Storage.EventStore.{
  Key, StreamRow, EventRow, Database, is_event, has_event, delete_event, delete_expired_events,
  total_size, oldest, event_before, prune_loop, prune, delete_expired, insert_event,
}
use mmmcp.Storage.EventStore.Tables.{key_eq_iff}

-- PRIMARY KEY (session_id, stream_id, event_index)
abbrev pub PrimaryKey : List EventRow → Type 0
PrimaryKey [] = Unit
PrimaryKey (e ∷ es) = (has_event e.key e.event_index es ≡ false) × PrimaryKey es

In-has_event :
    (o : EventRow) (log : List EventRow) → In o log → has_event o.key o.event_index log ≡ true
unfolding has_event is_event
In-has_event o [] m = elim m [ ]
In-has_event o (e ∷ es) (inl q) = ground (arith, key_eq_iff o.key o.key)
In-has_event o (e ∷ es) (inr q) = ground (arith, In-has_event o es q)

oldest-In :
    (collates_before : Text → Text → Bool) (log : List EventRow) (o : EventRow)
    → oldest collates_before log ≡ some o
    → In o log
unfolding oldest
oldest-In collates_before [] o h = cc
oldest-In collates_before (e ∷ log) o h = elim (Option-cases (oldest collates_before log)) [
  | inl q ↦ inl (ground arith)
  | inr (x, q) ↦ elim (Bool-cases (event_before collates_before x e)) [
    | inl w ↦ inr (oldest-In collates_before log o (ground arith))
    | inr w ↦ inl (ground arith)
  ]
]

delete_absent :
    (k : Key) (i : ℕ) (log : List EventRow) → has_event k i log ≡ false → delete_event k i log ≡ log
unfolding has_event delete_event
delete_absent k i [] h = refl
delete_absent k i (e ∷ es) h = ground (arith, delete_absent k i es)

delete_present :
    (o : EventRow) (log : List EventRow)
    → PrimaryKey log
    → In o log
    → (length (delete_event o.key o.event_index log) + 1 ≡ length log)
      × (total_size (delete_event o.key o.event_index log) + o.payload_size ≡ total_size log)
unfolding delete_event total_size is_event
delete_present o [] u m = elim m [ ]
delete_present o (e ∷ es) u (inl q) =
    ground (arith, delete_absent o.key o.event_index es, key_eq_iff o.key o.key)
delete_present o (e ∷ es) u (inr q) =
    ground (arith, delete_present o es u.1 q, In-has_event o es q, key_eq_iff e.key o.key)

has_event-delete_event :
    (j k : Key) (n i : ℕ) (log : List EventRow)
    → has_event j n log ≡ false
    → has_event j n (delete_event k i log) ≡ false
unfolding has_event delete_event
has_event-delete_event j k n i [] h = refl
has_event-delete_event j k n i (e ∷ es) h = ground (arith, has_event-delete_event j k n i es)

delete_event-PrimaryKey :
    (k : Key) (i : ℕ) (log : List EventRow) → PrimaryKey log → PrimaryKey (delete_event k i log)
unfolding delete_event
delete_event-PrimaryKey k i [] u = tt
delete_event-PrimaryKey k i (e ∷ es) u = ground (
  arith,
  delete_event-PrimaryKey k i es u.1,
  has_event-delete_event e.key k e.event_index i es u.0,
)

has_event-delete_expired_events :
    (j : Key) (n now : ℕ) (streams : Key → Option StreamRow) (log : List EventRow)
    → has_event j n log ≡ false
    → has_event j n (delete_expired_events now streams log) ≡ false
unfolding has_event delete_expired_events
has_event-delete_expired_events j n now streams [] h = refl
has_event-delete_expired_events j n now streams (e ∷ es) h =
    ground (arith, has_event-delete_expired_events j n now streams es)

delete_expired_events-PrimaryKey :
    (now : ℕ) (streams : Key → Option StreamRow) (log : List EventRow)
    → PrimaryKey log
    → PrimaryKey (delete_expired_events now streams log)
unfolding delete_expired_events
delete_expired_events-PrimaryKey now streams [] u = tt
delete_expired_events-PrimaryKey now streams (e ∷ es) u = ground (
  arith,
  delete_expired_events-PrimaryKey now streams es u.1,
  has_event-delete_expired_events e.key e.event_index now streams es u.0,
)

has_event-append :
    (k : Key) (i : ℕ) (log : List EventRow) (e : EventRow)
    → has_event k i (log ++ e ∷ []) ≡ (has_event k i log || is_event k i e)
unfolding has_event
has_event-append k i [] e = ground arith
has_event-append k i (x ∷ log) e = ground (arith, has_event-append k i log e)

append-PrimaryKey :
    (log : List EventRow) (e : EventRow)
    → PrimaryKey log
    → has_event e.key e.event_index log ≡ false
    → PrimaryKey (log ++ e ∷ [])
unfolding has_event is_event
append-PrimaryKey [] e u h = (refl, tt)
append-PrimaryKey (x ∷ log) e u h = ground (
  arith,
  append-PrimaryKey log e u.1,
  has_event-append x.key x.event_index log e,
  key_eq_iff x.key e.key,
  key_eq_iff e.key x.key,
)

-- An insert keeps the primary key.
pub insert_event-PrimaryKey :
    (e : EventRow) (log log' : List EventRow)
    → PrimaryKey log
    → insert_event e log ≡ ok log'
    → PrimaryKey log'
unfolding insert_event
insert_event-PrimaryKey e log log' u h = ground (arith, append-PrimaryKey log e u)

-- What pruning leaves: the key, and at most the configured bytes or a single event.
pub record Bounded (max_event_bytes : ℕ) (db : Database) : Type 0 where
  pub keyed : PrimaryKey db.log
  pub fits : (total_size db.log ≤ max_event_bytes) ⊎ (length db.log ≤ 1)

module _ (collates_before : Text → Text → Bool) where
  oldest-none : (log : List EventRow) → oldest collates_before log ≡ none → length log ≡ 0
  unfolding oldest
  oldest-none [] h = refl
  oldest-none (e ∷ es) h = ground arith

  prune_loop-Bounded :
      (max_event_bytes fuel total count : ℕ) (db : Database)
      → PrimaryKey db.log
      → total ≡ total_size db.log
      → count ≡ length db.log
      → count ≤ fuel
      → Returns
          (Bounded max_event_bytes)
          (prune_loop collates_before max_event_bytes fuel total count db)
  unfolding prune_loop
  prune_loop-Bounded max_event_bytes zero total count db u t c b = record {
    keyed = u;
    fits = inr (omega arith);
  }
  prune_loop-Bounded max_event_bytes (suc fuel) total count db u t c b =
      elim (Bool-cases (ltb max_event_bytes total && ltb 1 count)) [
        | inl q ↦ elim (Option-cases (oldest collates_before db.log)) [
          | inl e ↦ absurd (ground (arith, oldest-none db.log e))
          | inr (o, e) ↦
              let (shorter, smaller) =
                delete_present o db.log u (oldest-In collates_before db.log o e) in
              rw (q, e, prune_loop)
                (prune_loop-Bounded max_event_bytes fuel (total - o.payload_size) (count - 1) _
                  (delete_event-PrimaryKey o.key o.event_index db.log u) (omega arith) (omega arith)
                  (omega arith))
        ]
        | inr q ↦ rw (q, prune_loop) (record { keyed = u; fits = ground arith })
      ]

  -- `pruneTx` ends, with at most the configured bytes in the log or a single event.
  pub prune-Bounded :
      (max_event_bytes now : ℕ) (db : Database)
      → PrimaryKey db.log
      → Returns (Bounded max_event_bytes) (prune collates_before max_event_bytes now db)
  unfolding prune delete_expired
  prune-Bounded max_event_bytes now db u =
      let log = delete_expired_events now db.streams db.log in
      prune_loop-Bounded max_event_bytes (length log) (total_size log) (length log) _
        (delete_expired_events-PrimaryKey now db.streams db.log u) refl refl (omega arith)
