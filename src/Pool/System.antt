-- ===== src/Pool/System.antt =====
-- The pool of component/pool.go with the entries that are being cleaned up, under every
-- interleaving of its sections.
use mmmcp.Base.{
  ℕ, ◌≡◌, Bool, true, false, if◌then◌else◌, ◌==◌, Option, none, some, List, [], ◌∷◌, ◌++◌, Text,
  Result,
}
use mmmcp.Pool.{
  PoolKey, Entry, Pool, has, begin_acquire, end_wait, end_acquire, release_entry,
  begin_close_session, close_detached, end_close_session, begin_close,
}

-- `cleaning` are the entries that were removed to be closed, `cleaned` those that were closed.
pub record System : Type 0 where
  pub pool : Pool
  pub cleaning : List ℕ
  pub cleaned : List ℕ

-- `NewPool`
abbrev pub initial : (ℕ → Entry) → System
initial memory = record {
  pool = record {
    entries = [];
    memory = memory;
    next_address = 0;
    watched = [];
    closed = false;
    cleanup = 0;
    cleanup_error = none;
    cleanup_failures = 0;
  };
  cleaning = [];
  cleaned = [];
}

unfoldable pub drop_one : ℕ → List ℕ → List ℕ
drop_one a [] = []
drop_one a (b ∷ bs) = let rest = drop_one a bs in if b == a then bs else b ∷ rest

abbrev pub after_session : System → Pool × List ℕ → System
after_session y (p, removed) = record y { pool = p; cleaning = removed ++ y.cleaning }

unfoldable pub after_close : System → Pool × Option (List ℕ) → System
after_close y (p, none) = record y { pool = p }
after_close y (p, some removed) = record y { pool = p; cleaning = removed ++ y.cleaning }

-- What the factory and the runtimes return is any result. An entry is closed when it is ready, by
-- `closeSession` (`cleans`) or by `Close` (`closes_one`).
pub data Step : System → System → Type 0 where
  acquires :
      (y : System) (frontend : Option ℕ) (fingerprint component : Text) (on_close : Bool)
      → Step y
          (record y { pool = (begin_acquire frontend fingerprint component on_close y.pool).0 })
  waited :
      (y : System) (key : PoolKey) (a : ℕ) (ended : Option ℕ)
      → Step y (record y { pool = (end_wait key a ended y.pool).0 })
  opened :
      (y : System) (key : PoolKey) (a : ℕ) (result : Result ℕ ℕ)
      → Step y (record y { pool = (end_acquire key a result y.pool).0 })
  releases :
      (y : System) (key : PoolKey) (a : ℕ) → Step y (record y { pool = release_entry key a y.pool })
  session_ends : (y : System) (s : ℕ) → Step y (after_session y (begin_close_session s y.pool))
  cleans :
      (y : System) (a : ℕ) (result : Option ℕ)
      → has a y.cleaning ≡ true
      → (y.pool.memory a).ready ≡ true
      → Step y (record {
        pool = (close_detached a result y.pool).0;
        cleaning = drop_one a y.cleaning;
        cleaned = a ∷ y.cleaned;
      })
  closes_one :
      (y : System) (a : ℕ)
      → has a y.cleaning ≡ true
      → (y.pool.memory a).ready ≡ true
      → Step y (record y { cleaning = drop_one a y.cleaning; cleaned = a ∷ y.cleaned })
  session_done : (y : System) → Step y (record y { pool = end_close_session y.pool })
  closes : (y : System) → Step y (after_close y (begin_close y.pool))

pub data Reach (s : System) : System → Type 0 where
  here : Reach s s
  next : {t u : System} → Reach s t → Step t u → Reach s u
