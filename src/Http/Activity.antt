-- ===== src/Http/Activity.antt =====
-- http_activity.go: how many requests each frontend session has in flight, and the sessions that
-- are connected. Each definition is one section of the code under the mutex.
pub mod System
pub mod Invariant
pub mod Counts
use mmmcp.Base.{
  ℕ, suc, ◌+◌, ◌-◌, Bool, true, false, if◌then◌else◌, ltb, ◌==◌, is_empty, Option, none, some, List,
  [], Text, text_keys, lookup, insert, delete,
}

-- `mcp.ServerSession`; the handle stands for the pointer.
pub record Session : Type 0 where
  pub handle : ℕ
  pub id : Text

-- `httpActivityRegistry`. A nil map reads as an empty one.
pub record Activity : Type 0 where
  pub active : List (Text × ℕ)
  pub sessions : List (Text × Session)
  pub watchers : ℕ

-- `r.active[sessionID]`
unfoldable pub active_of : Text → Activity → ℕ
active_of id a = elim (lookup id a.active) [ none ↦ 0 | some n ↦ n ]

-- `begin`
unfoldable pub begin : Text → Activity → Activity × ℕ
unfolding active_of
begin id a =
    let after : Activity = record a { active = insert id (active_of id a + 1) a.active } in
    if is_empty id then (a, 0) else (after, active_of id after)

-- `end`
unfoldable pub end : Text → Activity → Activity × ℕ
unfolding active_of
end id a =
    let after : Activity = record a {
      active =
          if ltb 1 (active_of id a)
          then insert id (active_of id a - 1) a.active
          else delete id a.active;
    } in
    if is_empty id then (a, 0) else (after, active_of id after)

-- `previous == session`, where the map may have no previous session.
unfoldable pub is_session : Session → Option Session → Bool
is_session s none = false
is_session s (some p) = p.handle == s.handle

-- `bind`, and whether it starts a watcher.
unfoldable pub bind : Option Session → Activity → Activity × ℕ × Bool
unfolding active_of is_session
bind none a = (a, 0, false)
bind (some s) a =
    let known = is_session s (lookup s.id a.sessions) in
    let after : Activity = record a {
      sessions = insert s.id s a.sessions;
      watchers = if known then a.watchers else a.watchers + 1;
    } in
    if is_empty s.id
    then (a, 0, false)
    else (after, active_of s.id a, if known then false else true)

-- The end of the goroutine that `bind` starts, when its session is over.
unfoldable pub watch_ends : Session → Activity → Activity
unfolding is_session
watch_ends s a = record a {
  sessions = if is_session s (lookup s.id a.sessions) then delete s.id a.sessions else a.sessions;
  watchers = a.watchers - 1;
}

-- `session`
unfoldable pub session_of : Text → Activity → Option Session
session_of id a = lookup id a.sessions
