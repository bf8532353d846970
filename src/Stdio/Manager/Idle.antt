-- ===== src/Stdio/Manager/Idle.antt =====
-- When component/stdio/manager.go closes its runtime: when it is idle, and for good after Close.
use mmmcp.Base.{ℕ, ◌≡◌, inl, inr, true, none, some, [], ℤ, arith, Option-cases}
use mmmcp.Stdio.Manager.{
  Manager, Runtime, begin_acquire, finish_acquire, release, set_frontend_activity, retire, close,
  stop_timer, next_generation, refused,
}
use mmmcp.Stdio.Manager.System.{
  System, Step, begins, finishes, releases, sets_activity, fires, closes, Reach, here, next,
  initial, after_begin, after_finish, after_close,
}
use mmmcp.Stdio.Manager.Invariant.{Inv, Reach-Inv, Step-Inv}

-- In a reachable state a runtime that nobody uses has an armed timer, and when that fires the
-- runtime is closed and none is left open.
pub idle_retires :
    (idle_timeout : ℤ) (s : System) (r : Runtime)
    → Reach (initial idle_timeout) s
    → s.manager.runtime ≡ some r
    → s.holders ≡ 0
    → s.manager.frontend_activity ≡ 0
    → (g : ℕ) × (s.manager.idle_timer ≡ some g)
      × ((retire s.manager g).1 ≡ some r)
      × ((after_close s (retire s.manager g)).alive ≡ [])
unfolding retire after_close
idle_retires idle_timeout s r reach e h a =
    let v = Reach-Inv idle_timeout reach in
    elim (Option-cases s.manager.idle_timer) [
      | inl q ↦ absurd (ground (arith, v.counted, v.idle_timed))
      | inr (g, q) ↦ (
        g,
        q,
        ground (arith, v.timer_idle g, v.counted, v.owns, v.closed_empty),
        ground (arith, v.timer_idle g, v.counted, v.owns, v.closed_empty),
      )
    ]

-- A timer that was stopped and fires all the same finds another generation: it changes nothing.
pub retire-stop_timer : (m : Manager) → retire (stop_timer m) m.generation ≡ (stop_timer m, none)
unfolding retire stop_timer next_generation
retire-stop_timer m = ground arith

abbrev IsClosed : System → Type 0
IsClosed s = s.manager.closed ≡ true

Step-IsClosed : {s t : System} → Step s t → IsClosed s → IsClosed t
unfolding after_begin after_finish after_close begin_acquire finish_acquire release
    set_frontend_activity retire close
Step-IsClosed (begins s) h = ground arith
Step-IsClosed (finishes s n none e) h = ground arith
Step-IsClosed (finishes s n (some r) e) h = ground arith
Step-IsClosed (releases s n e) h = ground arith
Step-IsClosed (sets_activity s active) h = ground arith
Step-IsClosed (fires s generation) h = ground arith
Step-IsClosed (closes s) h = ground arith

Reach-IsClosed : {s t : System} → Reach s t → IsClosed s → IsClosed t
Reach-IsClosed here h = h
Reach-IsClosed (next r st) h = Step-IsClosed st (Reach-IsClosed r h)

Reach-keeps-Inv : {s t : System} → Reach s t → Inv s → Inv t
Reach-keeps-Inv here v = v
Reach-keeps-Inv (next r st) v = Step-Inv st (Reach-keeps-Inv r v)

close-IsClosed : (s : System) → IsClosed (after_close s (close s.manager))
unfolding after_close close
close-IsClosed s = ground arith

-- From a state with the invariant, after `Close` no runtime is open, no timer is armed and `acquire` refuses, whatever the callers
-- still do, also those whose `open` was under way.
pub closed_for_good :
    (s t : System)
    → Inv s
    → Reach (after_close s (close s.manager)) t
    → (t.alive ≡ [])
      × (t.manager.idle_timer ≡ none)
      × (begin_acquire t.manager ≡ (t.manager, refused))
unfolding begin_acquire
closed_for_good s t v r =
    let c = Reach-IsClosed r (close-IsClosed s) in
    let w = Reach-keeps-Inv r (Step-Inv (closes s) v) in
    elim (Option-cases t.manager.idle_timer) [
      | inl q ↦ (ground (arith, w.owns, w.closed_empty), q, ground arith)
      | inr (g, q) ↦ absurd (ground (arith, w.timer_idle g, w.closed_empty))
    ]
