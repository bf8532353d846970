-- ===== src/Storage/EventStore/Tables.antt =====
-- What the statements of storage/eventstore.go do to the rows of one stream.
use mmmcp.Base.{
  ℕ, ◌≡◌, refl, ◌↔◌, Bool, true, false, ◌||◌, if◌then◌else◌, leb, ◌==◌, Option, some, List, [], ◌∷◌,
  ◌++◌, Text, text_eq_iff, arith, Option-cases, inl, inr,
}
use mmmcp.Storage.EventStore.{
  Key, key_eq, StreamRow, EventRow, is_event, has_event, delete_event, is_expired,
  delete_expired_events, in_session, delete_session_events, select_from, oldest,
}

pub key_eq_iff : (a b : Key) → (key_eq a b ≡ true) ↔ (a ≡ b)
unfolding key_eq
key_eq_iff a b = (
  λ h. ground (arith, text_eq_iff a.0 b.0, text_eq_iff a.1 b.1),
  λ h. ground (arith, text_eq_iff a.0 b.0, text_eq_iff a.1 b.1),
)

-- The rows of one stream, in the table's order.
unfoldable pub rows_of : Key → List EventRow → List EventRow
rows_of k [] = []
rows_of k (e ∷ es) = let rest = rows_of k es in if key_eq e.key k then e ∷ rest else rest

unfoldable pub delete_index : ℕ → List EventRow → List EventRow
delete_index i [] = []
delete_index i (e ∷ es) =
    let rest = delete_index i es in if e.event_index == i then rest else e ∷ rest

unfoldable pub has_index : ℕ → List EventRow → Bool
has_index i [] = false
has_index i (e ∷ es) = e.event_index == i || has_index i es

unfoldable pub rows_from : ℕ → List EventRow → List EventRow
rows_from start [] = []
rows_from start (e ∷ es) =
    let rest = rows_from start es in if leb start e.event_index then e ∷ rest else rest

pub rows_of-append :
    (k : Key) (e : EventRow) (log : List EventRow)
    → rows_of k (log ++ e ∷ [])
      ≡ (if key_eq e.key k then rows_of k log ++ e ∷ [] else rows_of k log)
unfolding rows_of
rows_of-append k e [] = ground arith
rows_of-append k e (x ∷ log) = ground (arith, rows_of-append k e log)

pub rows_of-delete_event :
    (j k : Key) (i : ℕ) (log : List EventRow)
    → rows_of j (delete_event k i log)
      ≡ (if key_eq k j then delete_index i (rows_of j log) else rows_of j log)
unfolding rows_of delete_event is_event delete_index
rows_of-delete_event j k i [] = ground arith
rows_of-delete_event j k i (e ∷ log) =
    ground (
      arith,
      rows_of-delete_event j k i log,
      key_eq_iff e.key k,
      key_eq_iff e.key j,
      key_eq_iff k j,
    )

pub has_event-has_index :
    (k : Key) (i : ℕ) (log : List EventRow) → has_event k i log ≡ has_index i (rows_of k log)
unfolding rows_of has_event is_event has_index
has_event-has_index k i [] = refl
has_event-has_index k i (e ∷ log) = ground (arith, has_event-has_index k i log)

pub rows_of-delete_expired_events :
    (k : Key) (now : ℕ) (streams : Key → Option StreamRow) (log : List EventRow)
    → rows_of k (delete_expired_events now streams log)
      ≡ (if is_expired now (streams k) then [] else rows_of k log)
unfolding rows_of delete_expired_events
rows_of-delete_expired_events k now streams [] = ground arith
rows_of-delete_expired_events k now streams (e ∷ log) =
    ground (arith, rows_of-delete_expired_events k now streams log, key_eq_iff e.key k)

pub rows_of-delete_session_events :
    (k : Key) (session : Text) (log : List EventRow)
    → rows_of k (delete_session_events session log)
      ≡ (if in_session session k then [] else rows_of k log)
unfolding rows_of delete_session_events
rows_of-delete_session_events k session [] = ground arith
rows_of-delete_session_events k session (e ∷ log) =
    ground (arith, rows_of-delete_session_events k session log, key_eq_iff e.key k)

pub select_from-rows_of :
    (k : Key) (start : ℕ) (log : List EventRow)
    → select_from k start log ≡ rows_from start (rows_of k log)
unfolding select_from rows_of rows_from
select_from-rows_of k start [] = refl
select_from-rows_of k start (e ∷ log) = ground (arith, select_from-rows_of k start log)

pub oldest-has_event :
    (collates_before : Text → Text → Bool) (log : List EventRow) (o : EventRow)
    → oldest collates_before log ≡ some o
    → has_event o.key o.event_index log ≡ true
unfolding oldest has_event is_event
oldest-has_event collates_before [] o h = cc
oldest-has_event collates_before (e ∷ log) o h = elim (Option-cases (oldest collates_before log)) [
  | inl q ↦ ground (arith, key_eq_iff e.key e.key)
  | inr (x, q) ↦ ground (arith, oldest-has_event collates_before log x q, key_eq_iff e.key e.key)
]
