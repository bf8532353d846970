-- ===== src/Storage/Adapter.antt =====
-- storage/event_adapter.go: the store that each session is bound to. Stores are told by numbers;
-- what the registry and the stores return are arguments.
use mmmcp.Base.{
  ℕ, Bool, true, false, not, ◌&&◌, ◌||◌, if◌then◌else◌, ◌==◌, Option, none, some, List, Text,
  text_eq, text_keys, lookup, insert, delete, Result, ok, err,
}

pub data Error : Type 0 where
  no_registry : Error
  not_open : Error
  failed : ℕ → Error

-- `EventAdapter`
pub record Adapter : Type 0 where
  pub has_registry : Bool
  pub sessions : List (Text × ℕ)

-- `Open` until it opens the stream: the store, and whether the session was bound by it. `selected`
-- is what the registry returns for the selected name.
unfoldable pub begin_open : Text → Result ℕ ℕ → Adapter → Adapter × Result Error (ℕ × Bool)
begin_open session selected a = elim (lookup session a.sessions) [
  | some store ↦ (a, ok (store, false))
  | none ↦ if not a.has_registry then (a, err no_registry) else elim selected [
    | err e ↦ (a, err (failed e))
    | ok store ↦ (record a { sessions = insert session store a.sessions }, ok (store, true))
  ]
]

abbrev pub is_bound : ℕ → Option ℕ → Bool
is_bound store none = false
is_bound store (some other) = other == store

-- `if a.sessions[sessionID] == store { delete(a.sessions, sessionID) }`
unfoldable pub unbind : Text → ℕ → Adapter → Adapter
unbind session store a =
    if is_bound store (lookup session a.sessions)
    then record a { sessions = delete session a.sessions }
    else a

-- `Open` after the store opened the stream, or failed to.
unfoldable pub end_open : Text → ℕ → Bool → Option ℕ → Adapter → Adapter × Result Error (Unit {0})
unfolding unbind
end_open session store created none a = (a, ok tt)
end_open session store created (some e) a =
    (if created then unbind session store a else a, err (failed e))

-- `store`, then the call of `Append` or `After` to it.
unfoldable pub call_store {ℓ} : {A : Type ℓ} → Text → (ℕ → Result ℕ A) → Adapter → Result Error A
call_store session call a = elim (lookup session a.sessions) [
  | none ↦ err not_open
  | some store ↦ elim (call store) [ ok x ↦ ok x | err e ↦ err (failed e) ]
]

-- `Append`
abbrev pub append : Text → (ℕ → Result ℕ (Unit {0})) → Adapter → Result Error (Unit {0})
append session call a = call_store session call a

-- `After`
abbrev pub after : Text → (ℕ → Result ℕ (List Text)) → Adapter → Result Error (List Text)
after session call a = call_store session call a

-- `SessionClosed` after the store returned.
unfoldable pub end_session_closed :
    Text → ℕ → Option ℕ → Adapter → Adapter × Result Error (Unit {0})
unfolding unbind
end_session_closed session store none a = (unbind session store a, ok tt)
end_session_closed session store (some e) a = (a, err (failed e))

abbrev pub open_failed : Option ℕ → Bool
open_failed none = false
open_failed (some e) = true

-- The sections of the adapter in any order, and whether a step may release the session: an opening
-- that bound it and then failed, or its end.
pub data Step (session : Text) : Adapter → Adapter → Bool → Type 0 where
  begins :
      (a : Adapter) (other : Text) (selected : Result ℕ ℕ)
      → Step session a (begin_open other selected a).0 false
  opened :
      (a : Adapter) (other : Text) (store : ℕ) (created : Bool) (result : Option ℕ)
      → Step session a
          (end_open other store created result a).0
          (text_eq other session && created && open_failed result)
  ends :
      (a : Adapter) (other : Text) (store : ℕ) (result : Option ℕ)
      → Step session a (end_session_closed other store result a).0 (text_eq other session)

pub data Steps (session : Text) : Adapter → Adapter → Bool → Type 0 where
  here : (a : Adapter) → Steps session a a false
  next :
      (a b c : Adapter) (released releases : Bool)
      → Steps session a b released
      → Step session b c releases
      → Steps session a c (released || releases)
