-- ===== src/Storage/EventStore/Tracks.antt =====
-- The rows of a stream against the history of the values appended to it, and what deleting rows
-- does to that relation (storage/eventstore.go, storage/eventstore_sqlite.go).
use mmmcp.Base.{
  ℕ, zero, suc, ◌+◌, ◌≤◌, ◌<◌, ◌≡◌, refl, true, if◌then◌else◌, ltb, Option, none, some, List, [],
  ◌∷◌, ◌++◌, length, length-append, get_elem?, arith, Bool-cases, inl, inr,
}
use mmmcp.Storage.EventStore.{Key, EventRow, Database, read_value}
use mmmcp.Storage.EventStore.Tables.{rows_of, delete_index, has_index}

-- What callers append: `none` is a nil payload.
abbrev pub Value : Type 0
Value = Option (List ℕ)

-- The rows hold the values of the history from position `i` to its end, one each, in order.
abbrev pub Holds : List Value → ℕ → List EventRow → Type 0
Holds history i [] = i ≡ length history
Holds history i (e ∷ es) =
    (e.event_index ≡ i) × (get_elem? history i ≡ some (read_value e)) × Holds history (suc i) es

-- The rows below the watermark come first and do not count; the others hold the history from it.
abbrev pub HoldsFrom : List Value → ℕ → List EventRow → Type 0
HoldsFrom history first [] = first ≡ length history
HoldsFrom history first (e ∷ es) =
    if ltb e.event_index first then HoldsFrom history first es else Holds history first (e ∷ es)

-- A stream's row and its events against the history. A stream without a row has no events.
abbrev pub Tracks : Key → List Value → Database → Type 0
Tracks k history db = elim (db.streams k) [
  | none ↦ rows_of k db.log ≡ []
  | some s ↦
      (s.next_index ≡ length history)
      × (s.first_retained_index ≤ s.next_index)
      × HoldsFrom history s.first_retained_index (rows_of k db.log)
]

Holds-HoldsFrom :
    (history : List Value) (i : ℕ) (rows : List EventRow)
    → Holds history i rows
    → HoldsFrom history i rows
Holds-HoldsFrom history i [] h = h
Holds-HoldsFrom history i (e ∷ es) h = ground arith

Holds-bound :
    (history : List Value) (i : ℕ) (rows : List EventRow)
    → Holds history i rows
    → i ≤ length history
Holds-bound history i [] h = omega arith
Holds-bound history i (e ∷ es) h = omega (arith, Holds-bound history (suc i) es h.2)

-- No row of a stream has an index outside the history.
pub Holds-has_index :
    (history : List Value) (i j : ℕ) (rows : List EventRow)
    → Holds history i rows
    → has_index j rows ≡ true
    → (i ≤ j) × (j < length history)
unfolding has_index
Holds-has_index history i j [] h m = cc
Holds-has_index history i j (e ∷ es) h m =
    ground (arith, Holds-has_index history (suc i) j es h.2, Holds-bound history (suc i) es h.2)

pub HoldsFrom-has_index :
    (history : List Value) (first j : ℕ) (rows : List EventRow)
    → first ≤ length history
    → HoldsFrom history first rows
    → has_index j rows ≡ true
    → j < length history
unfolding has_index
HoldsFrom-has_index history first j [] b h m = cc
HoldsFrom-has_index history first j (e ∷ es) b h m = elim (Bool-cases (ltb e.event_index first)) [
  | inl q ↦ ground (arith, HoldsFrom-has_index history first j es b)
  | inr q ↦ ground (arith, Holds-has_index history first j (e ∷ es))
]

-- Rows from a position that is not among the rows stay when it is deleted.
delete_index_below :
    (history : List Value) (i j : ℕ) (rows : List EventRow)
    → Holds history i rows
    → j < i
    → delete_index j rows ≡ rows
unfolding delete_index
delete_index_below history i j [] h b = refl
delete_index_below history i j (e ∷ es) h b =
    ground (arith, delete_index_below history (suc i) j es h.2)

Holds-delete_index :
    (history : List Value) (i j : ℕ) (rows : List EventRow)
    → Holds history i rows
    → i ≤ j
    → j < length history
    → HoldsFrom history (j + 1) (delete_index j rows)
unfolding delete_index
Holds-delete_index history i j [] h b c = absurd (omega arith)
Holds-delete_index history i j (e ∷ es) h b c = ground (
  arith,
  delete_index_below history (suc i) j es h.2,
  Holds-HoldsFrom history (suc i) es h.2,
  Holds-delete_index history (suc i) j es h.2,
)

HoldsFrom-delete_index_low :
    (history : List Value) (first j : ℕ) (rows : List EventRow)
    → HoldsFrom history first rows
    → j < first
    → HoldsFrom history first (delete_index j rows)
unfolding delete_index
HoldsFrom-delete_index_low history first j [] h c = h
HoldsFrom-delete_index_low history first j (e ∷ es) h c =
    elim (Bool-cases (ltb e.event_index first)) [
      | inl q ↦ ground (arith, HoldsFrom-delete_index_low history first j es)
      | inr q ↦ ground (arith, delete_index_below history (suc first) j es)
    ]

HoldsFrom-delete_index_high :
    (history : List Value) (first j : ℕ) (rows : List EventRow)
    → HoldsFrom history first rows
    → first ≤ j
    → j < length history
    → HoldsFrom history (j + 1) (delete_index j rows)
unfolding delete_index
HoldsFrom-delete_index_high history first j [] h b c = absurd (omega arith)
HoldsFrom-delete_index_high history first j (e ∷ es) h b c =
    elim (Bool-cases (ltb e.event_index first)) [
      | inl q ↦ ground (arith, HoldsFrom-delete_index_high history first j es)
      | inr q ↦ ground (arith, Holds-delete_index history first j (e ∷ es))
    ]

-- Deleting an event at or above the watermark keeps the history from behind it; deleting one
-- below the watermark changes nothing that counts.
pub HoldsFrom-delete_index :
    (history : List Value) (first j : ℕ) (rows : List EventRow)
    → HoldsFrom history first rows
    → j < length history
    → HoldsFrom history (if ltb first (j + 1) then j + 1 else first) (delete_index j rows)
HoldsFrom-delete_index history first j rows h c = ground (
  arith,
  HoldsFrom-delete_index_low history first j rows h,
  HoldsFrom-delete_index_high history first j rows h,
)

get_elem?-append_left :
    (xs ys : List Value) (i : ℕ) (v : Value)
    → get_elem? xs i ≡ some v
    → get_elem? (xs ++ ys) i ≡ some v
get_elem?-append_left [] ys i v h = cc
get_elem?-append_left (x ∷ xs) ys zero v h = h
get_elem?-append_left (x ∷ xs) ys (suc i) v h = get_elem?-append_left xs ys i v h

get_elem?-length : (xs : List Value) (v : Value) → get_elem? (xs ++ v ∷ []) (length xs) ≡ some v
get_elem?-length [] v = refl
get_elem?-length (x ∷ xs) v = get_elem?-length xs v

Holds-append :
    (history : List Value) (i : ℕ) (rows : List EventRow) (e : EventRow)
    → Holds history i rows
    → e.event_index ≡ length history
    → Holds (history ++ read_value e ∷ []) i (rows ++ e ∷ [])
Holds-append history i [] e h q = (
  omega arith,
  rw h (get_elem?-length history (read_value e)),
  omega (arith, length-append history (read_value e ∷ [])),
)
Holds-append history i (x ∷ rows) e h q = (
  h.0,
  get_elem?-append_left history (read_value e ∷ []) i (read_value x) h.1,
  Holds-append history (suc i) rows e h.2 q,
)

-- An event with the next index extends the history.
pub HoldsFrom-append :
    (history : List Value) (first : ℕ) (rows : List EventRow) (e : EventRow)
    → HoldsFrom history first rows
    → e.event_index ≡ length history
    → first ≤ length history
    → HoldsFrom (history ++ read_value e ∷ []) first (rows ++ e ∷ [])
HoldsFrom-append history first [] e h q b =
    Holds-HoldsFrom _ first (e ∷ []) (Holds-append history first [] e h q)
HoldsFrom-append history first (x ∷ rows) e h q b = elim (Bool-cases (ltb x.event_index first)) [
  | inl w ↦ ground (arith, HoldsFrom-append history first rows e)
  | inr w ↦ ground (arith, Holds-append history first (x ∷ rows) e)
]
