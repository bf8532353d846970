-- ===== src/Storage/EventStore/Pruning.antt =====
-- `pruneTx` (storage/eventstore_sqlite.go): it ends, meets the size bound, and keeps every stream's
-- history from its watermark on.
use mmmcp.Base.{
  ℕ, zero, suc, ◌+◌, ◌-◌, ◌≡◌, inl, inr, Bool, true, ◌&&◌, ltb, List, Text, arith, Bool-cases,
  Option-cases, IfOk,
}
use mmmcp.Storage.EventStore.{
  Key, Database, update, has_event, delete_event, raise_watermark, oldest, prune_loop, prune,
  delete_expired, delete_expired_streams, is_expired,
}
use mmmcp.Storage.EventStore.Tables.{
  key_eq_iff, rows_of, delete_index, rows_of-delete_event, rows_of-delete_expired_events,
  has_event-has_index, oldest-has_event,
}
use mmmcp.Storage.EventStore.Tracks.{Value, Tracks, HoldsFrom-has_index, HoldsFrom-delete_index}

delete_one-Tracks :
    (j k : Key) (i : ℕ) (history : List Value) (db : Database)
    → has_event k i db.log ≡ true
    → Tracks j history db
    → Tracks j history
        (record { streams = raise_watermark k (i + 1) db.streams; log = delete_event k i db.log })
unfolding raise_watermark update delete_index
delete_one-Tracks j k i history db m t = elim (Option-cases (db.streams j)) [
  | inl e ↦ ground (arith, rows_of-delete_event j k i db.log, key_eq_iff k j)
  | inr (s, e) ↦ ground (
    arith,
    rows_of-delete_event j k i db.log,
    key_eq_iff k j,
    has_event-has_index k i db.log,
    HoldsFrom-has_index history s.first_retained_index i (rows_of j db.log),
    HoldsFrom-delete_index history s.first_retained_index i (rows_of j db.log),
  )
]

pub delete_expired-Tracks :
    (k : Key) (now : ℕ) (history : List Value) (db : Database)
    → Tracks k history db
    → Tracks k history (delete_expired now db)
unfolding delete_expired delete_expired_streams is_expired
delete_expired-Tracks k now history db t =
    ground (arith, rows_of-delete_expired_events k now db.streams db.log)

module _ (collates_before : Text → Text → Bool) where
  pub prune_loop-Tracks :
      (max_event_bytes fuel total count : ℕ) (k : Key) (history : List Value) (db : Database)
      → Tracks k history db
      → IfOk (Tracks k history) (prune_loop collates_before max_event_bytes fuel total count db)
  unfolding prune_loop
  prune_loop-Tracks max_event_bytes zero total count k history db t = t
  prune_loop-Tracks max_event_bytes (suc fuel) total count k history db t =
      elim (Bool-cases (ltb max_event_bytes total && ltb 1 count)) [
        | inl q ↦ elim (Option-cases (oldest collates_before db.log)) [
          | inl e ↦ rw (q, e, prune_loop) tt
          | inr (o, e) ↦
              rw (q, e, prune_loop)
                (prune_loop-Tracks max_event_bytes fuel (total - o.payload_size) (count - 1) k
                  history _
                  (delete_one-Tracks k o.key o.event_index history db
                    (oldest-has_event collates_before db.log o e) t))
        ]
        | inr q ↦ rw (q, prune_loop) t
      ]

  pub prune-Tracks :
      (max_event_bytes now : ℕ) (k : Key) (history : List Value) (db : Database)
      → Tracks k history db
      → IfOk (Tracks k history) (prune collates_before max_event_bytes now db)
  unfolding prune
  prune-Tracks max_event_bytes now k history db t =
      prune_loop-Tracks max_event_bytes _ _ _ k history _ (delete_expired-Tracks k now history db t)
