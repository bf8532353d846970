-- ===== src/Storage/EventStore/Replay.antt =====
-- `After` against the history (storage/eventstore.go): all of the rest, or the purge error.
use mmmcp.Base.{
  ℕ, zero, suc, ◌≤◌, ◌≡◌, refl, if◌then◌else◌, ltb, some, List, [], ◌∷◌, length, get_elem?, drop,
  arith, Bool-cases, Option-cases, inl, inr, ℤ, ok, err, false, none, ◌==◌, sym, ap, ◌∙◌,
}
use mmmcp.Storage.EventStore.{
  Key, StreamRow, EventRow, Database, read_value, read_values, insert_by_index, order_by_index,
  select_from, start_after, read_after, events_purged,
}
use mmmcp.Storage.EventStore.Tables.{rows_of, rows_from, select_from-rows_of, has_index}
use mmmcp.Storage.EventStore.Tracks.{Value, Holds, HoldsFrom, Tracks, Holds-has_index}

rows_from_all :
    (history : List Value) (i start : ℕ) (rows : List EventRow)
    → Holds history i rows
    → start ≤ i
    → rows_from start rows ≡ rows
unfolding rows_from
rows_from_all history i start [] h b = refl
rows_from_all history i start (e ∷ es) h b =
    ground (arith, rows_from_all history (suc i) start es h.2)

Holds-rows_from :
    (history : List Value) (i start : ℕ) (rows : List EventRow)
    → Holds history i rows
    → i ≤ start
    → start ≤ length history
    → Holds history start (rows_from start rows)
unfolding rows_from
Holds-rows_from history i start [] h b c = omega arith
Holds-rows_from history i start (e ∷ es) h b c = ground (
  arith,
  rows_from_all history i start (e ∷ es) h,
  rows_from_all history (suc i) start es h.2,
  Holds-rows_from history (suc i) start es h.2,
)

HoldsFrom-rows_from :
    (history : List Value) (first start : ℕ) (rows : List EventRow)
    → HoldsFrom history first rows
    → first ≤ start
    → start ≤ length history
    → Holds history start (rows_from start rows)
unfolding rows_from
HoldsFrom-rows_from history first start [] h b c = omega arith
HoldsFrom-rows_from history first start (e ∷ es) h b c =
    elim (Bool-cases (ltb e.event_index first)) [
      | inl q ↦ ground (arith, HoldsFrom-rows_from history first start es)
      | inr q ↦ ground (arith, Holds-rows_from history first start (e ∷ es))
    ]

-- Rows in another order.
pub data Rearranged : List EventRow → List EventRow → Type 0 where
  nil : Rearranged [] []
  cons : (e : EventRow) {a b : List EventRow} → Rearranged a b → Rearranged (e ∷ a) (e ∷ b)
  swap : (e x : EventRow) (a : List EventRow) → Rearranged (e ∷ x ∷ a) (x ∷ e ∷ a)
  trans : {a b c : List EventRow} → Rearranged a b → Rearranged b c → Rearranged a c

-- No index twice.
abbrev Distinct : List EventRow → Type 0
Distinct [] = Unit
Distinct (e ∷ es) = (has_index e.event_index es ≡ false) × Distinct es

has_index-Rearranged :
    (i : ℕ) {a b : List EventRow} → Rearranged a b → has_index i a ≡ has_index i b
unfolding has_index
has_index-Rearranged i nil = refl
has_index-Rearranged i (cons e p) = ground (arith, has_index-Rearranged i p)
has_index-Rearranged i (swap e x a) = ground arith
has_index-Rearranged i (trans p q) = has_index-Rearranged i p ∙ has_index-Rearranged i q

Distinct-Rearranged : {a b : List EventRow} → Rearranged a b → Distinct a → Distinct b
unfolding has_index
Distinct-Rearranged nil d = d
Distinct-Rearranged (cons e p) d =
    (sym (has_index-Rearranged e.event_index p) ∙ d.0, Distinct-Rearranged p d.1)
Distinct-Rearranged (swap e x a) d = ground arith
Distinct-Rearranged (trans p q) d = Distinct-Rearranged q (Distinct-Rearranged p d)

insert_by_index_swap :
    (e x : EventRow) (es : List EventRow)
    → (e.event_index == x.event_index) ≡ false
    → insert_by_index e (insert_by_index x es) ≡ insert_by_index x (insert_by_index e es)
unfolding insert_by_index
insert_by_index_swap e x [] d = ground arith
insert_by_index_swap e x (y ∷ es) d = ground (arith, insert_by_index_swap e x es d)

-- `ORDER BY` makes the order in which the rows were found not matter.
order_by_index-Rearranged :
    {a b : List EventRow} → Rearranged a b → Distinct a → order_by_index a ≡ order_by_index b
unfolding order_by_index has_index
order_by_index-Rearranged nil d = refl
order_by_index-Rearranged (cons e p) d = ap (insert_by_index e) (order_by_index-Rearranged p d.1)
order_by_index-Rearranged (swap e x a) d =
    insert_by_index_swap e x (order_by_index a) (ground arith)
order_by_index-Rearranged (trans p q) d =
    order_by_index-Rearranged p d ∙ order_by_index-Rearranged q (Distinct-Rearranged p d)

Holds-Distinct :
    (history : List Value) (i : ℕ) (rows : List EventRow) → Holds history i rows → Distinct rows
unfolding has_index
Holds-Distinct history i [] h = tt
Holds-Distinct history i (e ∷ es) h = (
  elim (Bool-cases (has_index e.event_index es)) [
    | inl q ↦
        absurd (omega (arith, h.0, (Holds-has_index history (suc i) e.event_index es h.2 q).0))
    | inr q ↦ q
  ],
  Holds-Distinct history (suc i) es h.2,
)

order_by_index_of_Holds :
    (history : List Value) (i : ℕ) (rows : List EventRow)
    → Holds history i rows
    → order_by_index rows ≡ rows
unfolding order_by_index insert_by_index
order_by_index_of_Holds history i [] h = refl
order_by_index_of_Holds history i (e ∷ []) h = refl
order_by_index_of_Holds history i (e ∷ x ∷ es) h =
    ground (arith, order_by_index_of_Holds history (suc i) (x ∷ es) h.2)

drop_at :
    (history : List Value) (i : ℕ) (v : Value)
    → get_elem? history i ≡ some v
    → drop i history ≡ v ∷ drop (suc i) history
drop_at [] i v h = cc
drop_at (x ∷ xs) zero v h = ground arith
drop_at (x ∷ xs) (suc i) v h = drop_at xs i v h

drop-length : (history : List Value) → drop (length history) history ≡ []
drop-length [] = refl
drop-length (x ∷ xs) = drop-length xs

read_values_of_Holds :
    (history : List Value) (i : ℕ) (rows : List EventRow)
    → Holds history i rows
    → read_values rows ≡ drop i history
unfolding read_values
read_values_of_Holds history i [] h = ground (arith, drop-length history)
read_values_of_Holds history i (e ∷ es) h =
    ground (arith, drop_at history i (read_value e), read_values_of_Holds history (suc i) es h.2)

drop_of_length-le : (n : ℕ) (history : List Value) → length history ≤ n → drop n history ≡ []
drop_of_length-le zero [] h = refl
drop_of_length-le zero (x ∷ xs) h = absurd (omega arith)
drop_of_length-le (suc n) [] h = refl
drop_of_length-le (suc n) (x ∷ xs) h = drop_of_length-le n xs (omega arith)

module _ (arrange : List EventRow → List EventRow)
    (arranged : (rows : List EventRow) → Rearranged rows (arrange rows)) where
  replay_rows :
      (k : Key) (history : List Value) (first start : ℕ) (log : List EventRow)
      → HoldsFrom history first (rows_of k log)
      → first ≤ start
      → start ≤ length history
      → read_values (order_by_index (arrange (select_from k start log))) ≡ drop start history
  replay_rows k history first start log h b c =
      let rows = rows_from start (rows_of k log) in
      let kept : Holds history start rows =
        HoldsFrom-rows_from history first start (rows_of k log) h b c in
      let sorted : order_by_index (arrange rows) ≡ rows =
        sym (order_by_index-Rearranged (arranged rows) (Holds-Distinct history start rows kept))
        ∙ order_by_index_of_Holds history start rows kept in
      rw (select_from-rows_of, sorted) (read_values_of_Holds history start rows kept)

  -- Replay is never partial. On a stream whose rows track its history, and in whatever order the
  -- database finds the rows, `After` returns every value after the index, in order, and exactly
  -- where the watermark lies at or below the first of them; otherwise it is the purge error. So it
  -- is for an index whose successor, as an int64, is negative.
  pub read_after_replays :
      (k : Key) (history : List Value) (db : Database) (s : StreamRow) (index : ℤ)
      → Tracks k history db
      → db.streams k ≡ some s
      → read_after arrange k index db ≡ elim (start_after index) [
        | none ↦ err events_purged
        | some start ↦
            if ltb start s.first_retained_index then err events_purged else ok (drop start history)
      ]
  unfolding read_after
  read_after_replays k history db s index t e = elim (Option-cases (start_after index)) [
    | inl b ↦ rw (e, b, read_after) refl
    | inr (start, b) ↦
        rw (e, b, read_after)
          (ground (
            arith,
            replay_rows k history s.first_retained_index start db.log,
            drop_of_length-le start history,
          ))
  ]
