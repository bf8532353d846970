-- ===== src/Storage/EventStore/Rows.antt =====
-- The rows of the streams table under `pruneTx` (storage/eventstore_sqlite.go): which streams stay,
-- and what stays of them.
use mmmcp.Base.{
  ℕ, zero, suc, ◌+◌, ◌-◌, ◌≤◌, ◌<◌, ◌≡◌, refl, ◌⊎◌, inl, inr, Bool, true, false, ◌&&◌,
  if◌then◌else◌, leb, ltb, Option, none, some, List, [], ◌∷◌, length, Text, arith, Bool-cases,
  Option-cases, IfOk, Result, ok, err,
}
use mmmcp.Storage.EventStore.{
  Key, StreamRow, EventRow, Error, Database, update, raise_watermark, oldest, prune_loop, prune,
  delete_expired, delete_expired_streams, delete_expired_events, is_expired, total_size,
}
use mmmcp.Storage.EventStore.Tables.{key_eq_iff}

-- A row that stays: its index and its expiry are the same, and its watermark is, unless the log was
-- over its limit.
abbrev pub Stays : Type 0 → StreamRow → Option StreamRow → Type 0
Stays over s after =
    (t : StreamRow) × (after ≡ some t)
    × (t.next_index ≡ s.next_index)
    × (t.expires_at ≡ s.expires_at)
    × (over ⊎ (t.first_retained_index ≡ s.first_retained_index))

-- A stream's row before and after pruning at a time.
abbrev pub Pruned : Type 0 → ℕ → Option StreamRow → Option StreamRow → Type 0
Pruned over now none after = after ≡ none
Pruned over now (some s) after =
    ((s.expires_at ≤ now) × (after ≡ none)) ⊎ ((now < s.expires_at) × Stays over s after)

-- A stream's row before and after the loop.
abbrev Trimmed : Type 0 → Option StreamRow → Option StreamRow → Type 0
Trimmed over none after = after ≡ none
Trimmed over (some s) after = Stays over s after

same-Trimmed : (over : Type 0) (row : Option StreamRow) → Trimmed over row row
same-Trimmed over none = refl
same-Trimmed over (some s) = (s, refl, refl, refl, inr refl)

raise_watermark-Trimmed :
    (over : Type 0) (k j : Key) (watermark : ℕ) (streams : Key → Option StreamRow)
    (after : Option StreamRow)
    → over
    → Trimmed over (raise_watermark k watermark streams j) after
    → Trimmed over (streams j) after
unfolding raise_watermark update
raise_watermark-Trimmed over k j watermark streams after o t = ground (arith, key_eq_iff k j)

total_size-delete_expired_events :
    (now : ℕ) (streams : Key → Option StreamRow) (log : List EventRow)
    → total_size (delete_expired_events now streams log) ≤ total_size log
unfolding total_size delete_expired_events
total_size-delete_expired_events now streams [] = omega arith
total_size-delete_expired_events now streams (e ∷ log) =
    ground (arith, total_size-delete_expired_events now streams log)

gone-Trimmed :
    (over : Type 0) (b : Bool) (row after : Option StreamRow)
    → b ≡ true
    → Trimmed over (if b then none else row) after
    → after ≡ none
gone-Trimmed over true row after q t = t
gone-Trimmed over false row after q t = absurd (ground (arith, q))

kept-Trimmed :
    (over : Type 0) (b : Bool) (row after : Option StreamRow)
    → b ≡ false
    → Trimmed over (if b then none else row) after
    → Trimmed over row after
kept-Trimmed over true row after q t = absurd (ground (arith, q))
kept-Trimmed over false row after q t = t

expired-Pruned :
    (over : ℕ → Type 0) (small big now : ℕ) (row after : Option StreamRow)
    → (over small → over big)
    → Trimmed (over small) (if is_expired now row then none else row) after
    → Pruned (over big) now row after
unfolding is_expired
expired-Pruned over small big now none after h t = t
expired-Pruned over small big now (some s) after h t = elim (Bool-cases (leb s.expires_at now)) [
  | inl q ↦
      inl (ground (arith, q), gone-Trimmed (over small) (leb s.expires_at now) (some s) after q t)
  | inr q ↦
      let (r, e, n, x, w) : Stays (over small) s after =
        kept-Trimmed (over small) (leb s.expires_at now) (some s) after q t in
      inr (ground (arith, q), (r, e, n, x, elim w [ inl o ↦ inl (h o) | inr i ↦ inr i ]))
]

IfOk-map :
    (P Q : Database → Type 0) (r : Result Error Database)
    → ((db : Database) → P db → Q db)
    → IfOk P r
    → IfOk Q r
IfOk-map P Q (ok db) h p = h db p
IfOk-map P Q (err e) h p = p

IfOk-all :
    (P : Key → Database → Type 0) (r : Result Error Database)
    → ((j : Key) → IfOk (P j) r)
    → IfOk (λ db. (j : Key) → P j db) r
IfOk-all P (ok db) h = h
IfOk-all P (err e) h = tt

module _ (collates_before : Text → Text → Bool) (max_event_bytes : ℕ) where
  prune_loop-Trimmed :
      (over : Type 0) (fuel total count : ℕ) (j : Key) (db : Database)
      → (max_event_bytes < total → over)
      → IfOk
          (λ after. Trimmed over (db.streams j) (after.streams j))
          (prune_loop collates_before max_event_bytes fuel total count db)
  unfolding prune_loop
  prune_loop-Trimmed over zero total count j db h = same-Trimmed over (db.streams j)
  prune_loop-Trimmed over (suc fuel) total count j db h =
      elim (Bool-cases (ltb max_event_bytes total && ltb 1 count)) [
        | inl q ↦ elim (Option-cases (oldest collates_before db.log)) [
          | inl e ↦ rw (q, e, prune_loop) tt
          | inr (o, e) ↦
              rw (q, e, prune_loop)
                (IfOk-map _ _ _
                  (λ after t.
                    raise_watermark-Trimmed over o.key j (o.event_index + 1) db.streams
                      (after.streams j) (h (ground (arith, q))) t)
                  (prune_loop-Trimmed over fuel (total - o.payload_size) (count - 1) j _
                    (λ _. h (ground (arith, q)))))
        ]
        | inr q ↦ rw (q, prune_loop) (same-Trimmed over (db.streams j))
      ]

  -- Streams that expired by the time go; the others stay, with their watermarks if the log was within
  -- its limit.
  pub prune-Pruned :
      (now : ℕ) (j : Key) (db : Database)
      → IfOk
          (λ after.
            Pruned (max_event_bytes < total_size db.log) now (db.streams j) (after.streams j))
          (prune collates_before max_event_bytes now db)
  unfolding prune delete_expired delete_expired_streams
  prune-Pruned now j db =
      let kept : ℕ = total_size (delete_expired_events now db.streams db.log) in
      IfOk-map _ _ _
        (λ after t.
          expired-Pruned (λ n. max_event_bytes < n) kept (total_size db.log) now (db.streams j)
            (after.streams j)
            (λ b. omega (arith, b, total_size-delete_expired_events now db.streams db.log)) t)
        (prune_loop-Trimmed (max_event_bytes < kept) (length (delete_expired now db).log) kept
          (length (delete_expired now db).log) j (delete_expired now db) (λ b. b))

  pub prune-AllPruned :
      (now : ℕ) (db : Database)
      → IfOk
          (λ after.
            (j : Key)
            → Pruned (max_event_bytes < total_size db.log) now (db.streams j) (after.streams j))
          (prune collates_before max_event_bytes now db)
  prune-AllPruned now db = IfOk-all _ _ (λ j. prune-Pruned now j db)
