-- ===== src/Stdio/Manager.antt =====
-- component/stdio/manager.go: the runtime of a command-backed component, started on demand and
-- retired by a timer when idle. Each definition is one section of the code under the mutex; what
-- it closes, or its caller goes on with, is its result.
pub mod System
pub mod Invariant
pub mod Idle
use mmmcp.Base.{
  ℕ, zero, suc, ◌+◌, ◌-◌, ◌%◌, ◌^◌, Bool, true, false, not, ◌&&◌, ◌||◌, if◌then◌else◌, ltb, ◌==◌,
  Option, none, some, ℤ, is_nonpositive, clamp, seconds,
}

-- A connected runtime, by its identity.
abbrev pub Runtime : Type 0
Runtime = ℕ

-- The channel `starting` is told by whether it is there, a timer by the generation that its
-- callback hands to `retire`.
pub record Manager : Type 0 where
  pub idle_timeout : ℤ
  pub runtime : Option Runtime
  pub starting : Bool
  pub active_operations : ℕ
  pub frontend_activity : ℕ
  pub idle_timer : Option ℕ
  pub generation : ℕ
  pub closed : Bool

abbrev pub default_idle_timeout : ℤ
default_idle_timeout = seconds 30

-- `newManager`
unfoldable pub new_manager : ℤ → Manager
new_manager idle_timeout = record {
  idle_timeout = if is_nonpositive idle_timeout then default_idle_timeout else idle_timeout;
  runtime = none;
  starting = false;
  active_operations = 0;
  frontend_activity = 0;
  idle_timer = none;
  generation = 0;
  closed = false;
}

-- `m.generation++` on a uint64
unfoldable pub next_generation : ℕ → ℕ
next_generation g = (g + 1) % 2 ^ 64

-- `stopTimerLocked`
unfoldable pub stop_timer : Manager → Manager
stop_timer m = record m { idle_timer = none; generation = next_generation m.generation }

abbrev pub is_none {ℓ} : {A : Type ℓ} → Option A → Bool
is_none none = true
is_none (some a) = false

-- `armTimerLocked`
unfoldable pub arm_timer : Manager → Manager
arm_timer m =
    if m.closed
      || is_none m.runtime
      || not (m.active_operations == 0)
      || not (m.frontend_activity == 0)
      || not (is_none m.idle_timer)
    then m
    else record m {
      idle_timer = some (next_generation m.generation);
      generation = next_generation m.generation;
    }

-- How the first section of `acquire` ends.
pub data Begin : Type 0 where
  refused : Begin
  acquired : Runtime → Begin
  wait : Begin
  start : Begin

-- `acquire` up to the wait for another caller's start, or up to the call of `open`.
unfoldable pub begin_acquire : Manager → Manager × Begin
unfolding stop_timer
begin_acquire m =
    if m.closed
    then (m, refused)
    else let s = stop_timer m in
      elim s.runtime [
        | some r ↦ (record s { active_operations = s.active_operations + 1 }, acquired r)
        | none ↦ if s.starting then (s, wait) else (record s { starting = true }, start)
      ]

-- How `acquire` ends once `open` has returned. A runtime opened for a closed manager is closed.
pub data Finish : Type 0 where
  failed : Finish
  closed_meanwhile : Runtime → Finish
  opened : Runtime → Finish

-- `acquire` after `open`; `none` is an error of `open`.
unfoldable pub finish_acquire : Manager → Option Runtime → Manager × Finish
finish_acquire m none = (record m { starting = false }, failed)
finish_acquire m (some r) =
    if m.closed then (record m { starting = false }, closed_meanwhile r) else (
      record m { starting = false; runtime = some r; active_operations = m.active_operations + 1 },
      opened r,
    )

-- `release`
unfoldable pub release : Manager → Manager
unfolding arm_timer
release m = arm_timer (
    if ltb 0 m.active_operations
    then record m { active_operations = m.active_operations - 1 }
    else m)

-- `SetFrontendActivity`
unfoldable pub set_frontend_activity : Manager → ℤ → Manager
unfolding arm_timer stop_timer
set_frontend_activity m active =
    let s = record m { frontend_activity = clamp active } in
    if ltb 0 (clamp active) then stop_timer s else arm_timer s

-- `retire`, and the runtime that it closes.
unfoldable pub retire : Manager → ℕ → Manager × Option Runtime
retire m generation =
    if m.closed
      || not (generation == m.generation)
      || not (m.active_operations == 0)
      || not (m.frontend_activity == 0)
    then (m, none)
    else elim m.runtime [
      | none ↦ (record m { idle_timer = none }, none)
      | some r ↦ (
        record m { runtime = none; idle_timer = none; generation = next_generation m.generation },
        some r,
      )
    ]

-- `Close`, and the runtime that it closes.
unfoldable pub close : Manager → Manager × Option Runtime
unfolding stop_timer
close m =
    if m.closed
    then (m, none)
    else (record (stop_timer (record m { closed = true })) { runtime = none }, m.runtime)
