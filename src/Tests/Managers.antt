-- ===== src/Tests/Managers.antt =====
-- Interleavings of the model of component/stdio/manager.go.
use mmmcp.Base.{◌≡◌, refl, ℕ, some, none, [], pos}
use mmmcp.Stdio.Manager.{retire, close, begin_acquire, finish_acquire, release, refused}
use mmmcp.Stdio.Manager.System.{
  System, initial, Reach, here, next, begins, finishes, releases, after_begin, after_finish,
  after_close,
}
use mmmcp.Stdio.Manager.Invariant.{Inv, Reach-Inv}
use mmmcp.Stdio.Manager.Idle.{idle_retires, closed_for_good}

-- A caller starts the runtime, gets it, and releases it.
abbrev begun : System
begun = after_begin (initial (pos 5)) (begin_acquire (initial (pos 5)).manager)

abbrev held : System
held = after_finish begun 0 (some 7) (finish_acquire begun.manager (some 7))

abbrev idle : System
idle = record held { manager = release held.manager; holders = 0 }

held-Reach : Reach (initial (pos 5)) held
unfolding initial after_begin begin_acquire
held-Reach = next (next here (begins (initial (pos 5)))) (finishes begun 0 (some 7) refl)

idle-Reach : Reach (initial (pos 5)) idle
unfolding initial after_begin begin_acquire after_finish finish_acquire
idle-Reach = next held-Reach (releases held 0 refl)

Reach-Inv_example : Inv idle
Reach-Inv_example = Reach-Inv (pos 5) idle-Reach

idle_retires_example :
    (g : ℕ) × (idle.manager.idle_timer ≡ some g)
    × ((retire idle.manager g).1 ≡ some 7)
    × ((after_close idle (retire idle.manager g)).alive ≡ [])
unfolding initial after_begin begin_acquire after_finish finish_acquire release
idle_retires_example = idle_retires (pos 5) idle 7 idle-Reach refl refl refl

closed_for_good_example :
    ((after_close held (close held.manager)).alive ≡ [])
    × ((after_close held (close held.manager)).manager.idle_timer ≡ none)
    × (begin_acquire (after_close held (close held.manager)).manager
        ≡ ((after_close held (close held.manager)).manager, refused))
closed_for_good_example =
    closed_for_good held (after_close held (close held.manager)) (Reach-Inv (pos 5) held-Reach) here
