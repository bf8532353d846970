-- ===== src/Storage/EventStore/Writes.antt =====
-- The rows of the streams table once storage/eventstore.go wrote one of them and pruned.
use mmmcp.Base.{
  length, Option-cases, Option, ℕ, ◌+◌, ◌<◌, ◌≡◌, refl, ◌⊎◌, subst, ◌∙◌, inl, inr, false, none,
  some, List, [], ◌∷◌, ◌++◌, arith, Bool-cases,
}
use mmmcp.Storage.EventStore.{
  total_size, Key, key_eq, StreamRow, EventRow, Database, update, upsert_stream, new_event,
}
use mmmcp.Storage.EventStore.Rows.{Pruned}
use mmmcp.Storage.EventStore.Tables.{key_eq_iff}
use mmmcp.Storage.EventStore.Tracks.{Value}
use mmmcp.Storage.EventStore.Histories.{extended}

-- The next index of a stream, and the index from which its events are left.
unfoldable pub next_of : Option StreamRow → ℕ
next_of none = 0
next_of (some s) = s.next_index

unfoldable pub watermark_of : Option StreamRow → ℕ
watermark_of none = 0
watermark_of (some s) = s.first_retained_index

-- The bytes of a value in the log.
unfoldable pub size_of : Value → ℕ
size_of none = 0
size_of (some bytes) = length bytes

-- Every stream that has not expired stays, with its index and its expiry, and with its watermark
-- unless the log was over the limit. The streams that expired are gone.
abbrev pub AllPruned : ℕ → ℕ → Database → Database → Type 0
AllPruned max_event_bytes now before after =
    (j : Key)
    → Pruned (max_event_bytes < total_size before.log) now (before.streams j) (after.streams j)

-- A stream has a row with the index and the expiry; every other stream is as pruning leaves it,
-- where the log had so many bytes.
abbrev pub Writes : ℕ → ℕ → ℕ → Key → ℕ → ℕ → Database → Database → Type 0
Writes max_event_bytes bytes now k index expires before after =
    ((t : StreamRow) × (after.streams k ≡ some t)
      × (t.next_index ≡ index)
      × (t.expires_at ≡ expires)
      × ((max_event_bytes < bytes) ⊎ (t.first_retained_index ≡ watermark_of (before.streams k))))
    × ((j : Key)
        → (k ≡ j) ⊎ Pruned (max_event_bytes < bytes) now (before.streams j) (after.streams j))

written_row :
    (now : ℕ) (over : Type 0) (row : StreamRow) (after : Option StreamRow) (watermark : ℕ)
    → now < row.expires_at
    → row.first_retained_index ≡ watermark
    → Pruned over now (some row) after
    → (t : StreamRow) × (after ≡ some t)
      × (t.next_index ≡ row.next_index)
      × (t.expires_at ≡ row.expires_at)
      × (over ⊎ (t.first_retained_index ≡ watermark))
written_row now over row after watermark live same (inl (x, n)) = absurd (omega (arith, live, x))
written_row now over row after watermark live same (inr (x, (t, a, n, y, inl o))) =
    (t, a, n, y, inl o)
written_row now over row after watermark live same (inr (x, (t, a, n, y, inr w))) =
    (t, a, n, y, inr (w ∙ same))

update_same :
    (streams : Key → Option StreamRow) (k : Key) (row : Option StreamRow)
    → update streams k row k ≡ row
unfolding update
update_same streams k row = ground (arith, key_eq_iff k k)

update_other :
    (streams : Key → Option StreamRow) (k j : Key) (row : Option StreamRow)
    → key_eq k j ≡ false
    → update streams k row j ≡ streams j
unfolding update
update_other streams k j row q = ground (arith, q)

-- What is written to one row and then pruned.
written-Writes :
    (max_event_bytes now : ℕ) (k : Key) (row : StreamRow) (log : List EventRow)
    (before after : Database)
    → now < row.expires_at
    → row.first_retained_index ≡ watermark_of (before.streams k)
    → AllPruned max_event_bytes now
        (record { streams = update before.streams k (some row); log = log })
        after
    → Writes max_event_bytes (total_size log) now k row.next_index row.expires_at before after
written-Writes max_event_bytes now k row log before after live same p = (
  written_row now _ row (after.streams k) _ live same (
      subst (λ r. Pruned (max_event_bytes < total_size log) now r (after.streams k))
        (update_same before.streams k (some row)) (p k)),
  λ j. elim (Bool-cases (key_eq k j)) [
    | inl q ↦ inl ((key_eq_iff k j).0 q)
    | inr q ↦ inr (
        subst (λ r. Pruned (max_event_bytes < total_size log) now r (after.streams j))
          (update_other before.streams k j (some row) q) (p j))
  ],
)

-- The row that `Open` writes.
upserted : ℕ → ℕ → Option StreamRow → StreamRow
upserted expires now none = record {
  first_retained_index = 0;
  next_index = 0;
  expires_at = expires;
  updated_at = now;
}
upserted expires now (some s) = record s { expires_at = expires; updated_at = now }

upserted_row :
    (expires now : ℕ) (row : Option StreamRow)
    → ((upserted expires now row).expires_at ≡ expires)
      × ((upserted expires now row).next_index ≡ next_of row)
      × ((upserted expires now row).first_retained_index ≡ watermark_of row)
unfolding upserted next_of watermark_of
upserted_row expires now none = (refl, refl, refl)
upserted_row expires now (some s) = (refl, refl, refl)

upsert_stream-upserted :
    (k : Key) (expires now : ℕ) (db : Database)
    → upsert_stream k expires now db ≡ record {
      streams = update db.streams k (some (upserted expires now (db.streams k)));
      log = db.log;
    }
unfolding upsert_stream upserted
upsert_stream-upserted k expires now db = elim (Option-cases (db.streams k)) [
  | inl e ↦ rw (e, upsert_stream, upserted) refl
  | inr (s, e) ↦ rw (e, upsert_stream, upserted) refl
]

pub upserted-Writes :
    (max_event_bytes ttl now : ℕ) (k : Key) (db after : Database)
    → 0 < ttl
    → AllPruned max_event_bytes now (upsert_stream k (now + ttl) now db) after
    → Writes max_event_bytes (total_size db.log) now k (next_of (db.streams k)) (now + ttl) db after
upserted-Writes max_event_bytes ttl now k db after live p =
    let row : StreamRow = upserted (now + ttl) now (db.streams k) in
    let fields = upserted_row (now + ttl) now (db.streams k) in
    subst (λ n. Writes max_event_bytes (total_size db.log) now k n (now + ttl) db after) fields.1
      (subst (λ x. Writes max_event_bytes (total_size db.log) now k row.next_index x db after)
        fields.0
        (written-Writes max_event_bytes now k row db.log db after (omega (arith, live, fields.0))
          fields.2
          (subst (λ d. AllPruned max_event_bytes now d after)
            (upsert_stream-upserted k (now + ttl) now db) p)))

total_size-append :
    (k : Key) (i : ℕ) (value : Value) (now : ℕ) (log : List EventRow)
    → total_size (log ++ new_event k i value now ∷ []) ≡ total_size log + size_of value
unfolding total_size new_event size_of
total_size-append k i none now [] = refl
total_size-append k i (some bytes) now [] = omega arith
total_size-append k i value now (e ∷ log) = omega (arith, total_size-append k i value now log)

pub extended-Writes :
    (max_event_bytes ttl now : ℕ) (k : Key) (value : Value) (db : Database) (s : StreamRow)
    → db.streams k ≡ some s
    → (after : Database) → 0 < ttl
    → AllPruned max_event_bytes now (extended ttl now k value s db) after
    → Writes max_event_bytes
        (total_size db.log + size_of value)
        now
        k
        (s.next_index + 1)
        (now + ttl)
        db
        after
unfolding extended watermark_of
extended-Writes max_event_bytes ttl now k value db s e after live p =
    subst (λ n. Writes max_event_bytes n now k (s.next_index + 1) (now + ttl) db after)
      (total_size-append k s.next_index value now db.log)
      (written-Writes max_event_bytes now k
        (record s { next_index = s.next_index + 1; expires_at = now + ttl; updated_at = now })
        (db.log ++ new_event k s.next_index value now ∷ []) db after (omega (arith, live))
        (rw (e, watermark_of) refl) p)
