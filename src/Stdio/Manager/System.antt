-- ===== src/Stdio/Manager/System.antt =====
-- The manager among its callers: every interleaving of the locked sections of
-- component/stdio/manager.go, with the runtimes that are open.
use mmmcp.Base.{ℕ, suc, ◌+◌, ◌≡◌, Option, none, some, List, [], ◌∷◌, ℤ, ◌==◌, if◌then◌else◌}
use mmmcp.Stdio.Manager.{
  Manager, Runtime, Begin, refused, acquired, wait, start, Finish, failed, closed_meanwhile, opened,
  new_manager, begin_acquire, finish_acquire, release, set_frontend_activity, retire, close,
}

-- `holders` are the callers that `acquire` gave a runtime and that have not released it, `openers`
-- those inside `open`. `alive` are the runtimes opened and not closed.
pub record System : Type 0 where
  pub manager : Manager
  pub holders : ℕ
  pub openers : ℕ
  pub alive : List Runtime

unfoldable pub initial : ℤ → System
unfolding new_manager
initial idle_timeout = record {
  manager = new_manager idle_timeout;
  holders = 0;
  openers = 0;
  alive = [];
}

unfoldable pub remove : Runtime → List Runtime → List Runtime
remove r [] = []
remove r (x ∷ xs) = let rest = remove r xs in if x == r then xs else x ∷ rest

unfoldable pub close_runtime : Option Runtime → List Runtime → List Runtime
unfolding remove
close_runtime none alive = alive
close_runtime (some r) alive = remove r alive

unfoldable pub after_begin : System → Manager × Begin → System
after_begin s (m, refused) = record s { manager = m }
after_begin s (m, acquired r) = record s { manager = m; holders = s.holders + 1 }
after_begin s (m, wait) = record s { manager = m }
after_begin s (m, start) = record s { manager = m; openers = s.openers + 1 }

-- The runtimes that are open once `open` returned.
unfoldable pub with_opened : Option Runtime → List Runtime → List Runtime
with_opened none alive = alive
with_opened (some r) alive = r ∷ alive

-- What `open` returned is open, until the section closes it.
unfoldable pub after_finish : System → ℕ → Option Runtime → Manager × Finish → System
unfolding with_opened remove
after_finish s openers result (m, failed) = record s {
  manager = m;
  openers = openers;
  alive = with_opened result s.alive;
}
after_finish s openers result (m, closed_meanwhile r) = record s {
  manager = m;
  openers = openers;
  alive = remove r (with_opened result s.alive);
}
after_finish s openers result (m, opened r) = record s {
  manager = m;
  openers = openers;
  holders = s.holders + 1;
  alive = with_opened result s.alive;
}

unfoldable pub after_close : System → Manager × Option Runtime → System
unfolding close_runtime
after_close s (m, r) = record s { manager = m; alive = close_runtime r s.alive }

-- One locked section runs. A timer may fire late, after it was stopped, so `fires` is allowed at
-- every generation.
pub data Step : System → System → Type 0 where
  begins : (s : System) → Step s (after_begin s (begin_acquire s.manager))
  finishes :
      (s : System) (n : ℕ) (result : Option Runtime)
      → s.openers ≡ suc n
      → Step s (after_finish s n result (finish_acquire s.manager result))
  releases :
      (s : System) (n : ℕ)
      → s.holders ≡ suc n
      → Step s (record s { manager = release s.manager; holders = n })
  sets_activity :
      (s : System) (active : ℤ)
      → Step s (record s { manager = set_frontend_activity s.manager active })
  fires : (s : System) (generation : ℕ) → Step s (after_close s (retire s.manager generation))
  closes : (s : System) → Step s (after_close s (close s.manager))

pub data Reach (s : System) : System → Type 0 where
  here : Reach s s
  next : {t u : System} → Reach s t → Step t u → Reach s u
