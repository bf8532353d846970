-- ===== src/Stdio/Manager/Invariant.antt =====
-- The invariant of component/stdio/manager.go under every interleaving.
use mmmcp.Base.{ℕ, suc, ◌≡◌, ◌≢◌, Bool, true, false, Option, none, some, List, [], ◌∷◌, ℤ, arith}
use mmmcp.Stdio.Manager.{
  Runtime, begin_acquire, finish_acquire, release, set_frontend_activity, retire, close,
}
use mmmcp.Stdio.Manager.System.{
  System, Step, begins, finishes, releases, sets_activity, fires, closes, Reach, here, next,
  initial, after_begin, after_finish, after_close,
}

-- The runtimes that should be open: the manager's own.
abbrev pub owned : Option Runtime → List Runtime
owned none = []
owned (some r) = r ∷ []

abbrev pub starters : Bool → ℕ
starters true = 1
starters false = 0

pub record Inv (s : System) : Type 0 where
  pub counted : s.manager.active_operations ≡ s.holders
  pub one_opener : s.openers ≡ starters s.manager.starting
  pub starts_without : s.manager.starting ≡ true → s.manager.runtime ≡ none
  pub owns : s.alive ≡ owned s.manager.runtime
  pub closed_empty : s.manager.closed ≡ true → s.manager.runtime ≡ none
  pub timer_idle :
      (g : ℕ)
      → s.manager.idle_timer ≡ some g
      → (s.manager.active_operations ≡ 0)
        × (s.manager.frontend_activity ≡ 0)
        × (s.manager.runtime ≢ none)
        × (g ≡ s.manager.generation)
  pub idle_timed :
      s.manager.runtime ≢ none
      → s.manager.active_operations ≡ 0
      → s.manager.frontend_activity ≡ 0
      → s.manager.idle_timer ≢ none

pub initial-Inv : (idle_timeout : ℤ) → Inv (initial idle_timeout)
unfolding initial
initial-Inv idle_timeout = ground arith

begins-Inv : (s : System) → Inv s → Inv (after_begin s (begin_acquire s.manager))
unfolding begin_acquire after_begin
begins-Inv s v = ground arith

finishes-Inv :
    (s : System) (n : ℕ) (result : Option Runtime)
    → s.openers ≡ suc n
    → Inv s
    → Inv (after_finish s n result (finish_acquire s.manager result))
unfolding finish_acquire after_finish
finishes-Inv s n none e v = ground arith
finishes-Inv s n (some r) e v = ground arith

releases-Inv :
    (s : System) (n : ℕ)
    → s.holders ≡ suc n
    → Inv s
    → Inv (record s { manager = release s.manager; holders = n })
unfolding release
releases-Inv s n e v = ground arith

sets_activity-Inv :
    (s : System) (active : ℤ)
    → Inv s
    → Inv (record s { manager = set_frontend_activity s.manager active })
unfolding set_frontend_activity
sets_activity-Inv s active v = ground arith

fires-Inv :
    (s : System) (generation : ℕ) → Inv s → Inv (after_close s (retire s.manager generation))
unfolding retire after_close
fires-Inv s generation v = ground arith

closes-Inv : (s : System) → Inv s → Inv (after_close s (close s.manager))
unfolding close after_close
closes-Inv s v = ground arith

-- Every locked section keeps the invariant.
pub Step-Inv : {s t : System} → Step s t → Inv s → Inv t
Step-Inv (begins s) v = begins-Inv s v
Step-Inv (finishes s n result e) v = finishes-Inv s n result e v
Step-Inv (releases s n e) v = releases-Inv s n e v
Step-Inv (sets_activity s active) v = sets_activity-Inv s active v
Step-Inv (fires s generation) v = fires-Inv s generation v
Step-Inv (closes s) v = closes-Inv s v

-- The invariant holds in every state that a new manager can reach: the manager counts its holders,
-- starts at most one runtime at a time, owns the one runtime that is open, so that one which `open`
-- returned to a closed manager is closed, and has a timer armed
-- exactly while a runtime is open that nobody uses.
pub Reach-Inv : (idle_timeout : ℤ) {t : System} → Reach (initial idle_timeout) t → Inv t
Reach-Inv idle_timeout here = initial-Inv idle_timeout
Reach-Inv idle_timeout (next r st) = Step-Inv st (Reach-Inv idle_timeout r)
