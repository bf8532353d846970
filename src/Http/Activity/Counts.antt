-- ===== src/Http/Activity/Counts.antt =====
-- What the registry of http_activity.go promises: exact counts, and nothing left behind.
use mmmcp.Base.{
  ◌+◌, ◌-◌, ◌≡◌, ◌≢◌, ap, ◌∙◌, subst, inl, inr, Option-cases, none, [], length, Text, text_eq_iff,
  text_keys, lookup, lookup-insert, lookup-delete, In, arith,
}
use mmmcp.Http.Activity.{active_of, begin, end, session_of}
use mmmcp.Http.Activity.System.{System, Reach}
use mmmcp.Http.Activity.Invariant.{Inv, Reach-holds, entry}

-- In every reachable state the registry counts exactly the requests in flight of each session:
-- `begin` returns one more than there are, and `end` one less.
pub counts_requests :
    (y : System) (id : Text)
    → Reach y
    → id ≢ []
    → (active_of id y.activity ≡ y.inflight id)
      × ((begin id y.activity).1 ≡ y.inflight id + 1)
      × ((end id y.activity).1 ≡ y.inflight id - 1)
unfolding active_of begin end
counts_requests y id r ne =
    let v = Reach-holds r in
    ground (
      arith,
      v.counted id,
      lookup-insert id id (y.inflight id + 1) y.activity.active,
      lookup-insert id id (y.inflight id - 1) y.activity.active,
      lookup-delete id id y.activity.active,
      text_eq_iff id id,
    )

unregistered :
    (y : System) → Inv y → (id : Text) → y.watching ≡ [] → session_of id y.activity ≡ none
unfolding session_of
unregistered y v id over = elim (Option-cases (lookup id y.activity.sessions)) [
  | inl q ↦ q
  | inr (s, q) ↦ absurd (subst (In s) over (v.registered id s q).1)
]

-- Nothing is left behind: once no request is in flight and every watcher is done, the registry
-- has no count, no session and no watcher.
pub idle-IsEmpty :
    (y : System)
    → Reach y
    → ((id : Text) → y.inflight id ≡ 0)
    → y.watching ≡ []
    → (y.activity.watchers ≡ 0)
      × ((id : Text) → (lookup id y.activity.active ≡ none) × (session_of id y.activity ≡ none))
unfolding session_of
idle-IsEmpty y r quiet over =
    let v = Reach-holds r in
    (
      v.watched ∙ ap length over,
      λ id. (v.counted id ∙ ap entry (quiet id), unregistered y v id over),
    )
