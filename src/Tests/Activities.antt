-- ===== src/Tests/Activities.antt =====
-- Runs of the model of http_activity.go.
use mmmcp.Base.{◌+◌, ◌-◌, ◌≡◌, refl, inl, none, some, Text, codes, text_keys, lookup}
use mmmcp.Http.Activity.{Session, active_of, begin, end, session_of, bind, watch_ends}
use mmmcp.Http.Activity.System.{
  System, initial, Reach, start, next, begins, binds, watch_over, after_bind, unwatch, count,
}
use mmmcp.Http.Activity.Counts.{counts_requests, idle-IsEmpty}

abbrev session : Session
session = record { handle = 5; id = codes "s" }

-- One request is in flight.
abbrev busy : System
busy = record initial {
  activity = (begin (codes "s") initial.activity).0;
  inflight = count (codes "s") (initial.inflight (codes "s") + 1) initial.inflight;
}

busy-Reach : Reach busy
busy-Reach = next start (begins initial (codes "s") (λ h. cc))

counts_requests_example :
    (active_of (codes "s") busy.activity ≡ busy.inflight (codes "s"))
    × ((begin (codes "s") busy.activity).1 ≡ busy.inflight (codes "s") + 1)
    × ((end (codes "s") busy.activity).1 ≡ busy.inflight (codes "s") - 1)
counts_requests_example = counts_requests busy (codes "s") busy-Reach (λ h. cc)

-- A session is bound and ends.
abbrev bound : System
bound = after_bind initial session (bind (some session) initial.activity)

abbrev over : System
over = record bound {
  activity = watch_ends session bound.activity;
  watching = unwatch session bound.watching;
}

over-Reach : Reach over
unfolding after_bind bind lookup
over-Reach = next (next start (binds initial session tt)) (watch_over bound session (inl refl))

idle-IsEmpty_example :
    (over.activity.watchers ≡ 0)
    × ((id : Text) → (lookup id over.activity.active ≡ none) × (session_of id over.activity ≡ none))
unfolding after_bind unwatch bind lookup
idle-IsEmpty_example = idle-IsEmpty over over-Reach (λ id. refl) refl
