-- ===== src/Tests/Pools.antt =====
-- A pool of the model of component/pool.go.
use mmmcp.Base.{
  ℕ, ◌≤◌, ◌≡◌, refl, false, none, some, [], ◌∷◌, codes, text_eq, lookup, insert, delete, err,
}
use mmmcp.Pool.{
  PoolKey, pool_keys, Entry, write, has, refer, new_entry, acquire_open, begin_acquire, end_acquire,
  fail_entry, release_entry, begin_close_session, of_frontend, not_of_frontend, without,
}
use mmmcp.Pool.System.{System, Reach, initial, after_session, here, next, acquires}
use mmmcp.Pool.Ownership.{cleaned-once}
use mmmcp.Pool.Places.{addresses, count}

abbrev memory : ℕ → Entry
memory a = record { ready = false; runtime = none; failure = none; refs = 0; on_close = false }

abbrev key : PoolKey
key = record { frontend = 1; fingerprint = codes "f"; component = codes "git" }

-- A session acquires a runtime.
abbrev acquired : System
acquired = record (initial memory) {
  pool = (begin_acquire (some 1) (codes "f") (codes "git") false (initial memory).pool).0;
}

abbrev reach_acquired : Reach (initial memory) acquired
reach_acquired = next here (acquires (initial memory) (some 1) (codes "f") (codes "git") false)

cleaned-once_example :
    (count 0 acquired.cleaned ≤ 1)
    × ((k : PoolKey)
        → lookup k acquired.pool.entries ≡ some 0
        → (count 0 acquired.cleaning ≡ 0) × (count 0 acquired.cleaned ≡ 0))
cleaned-once_example = cleaned-once memory acquired 0 reach_acquired

-- The session ends while its runtime opens, and acquires it once more.
abbrev ended : System
ended = after_session acquired (begin_close_session 1 acquired.pool)

abbrev again : System
again = record ended {
  pool = (begin_acquire (some 1) (codes "f") (codes "git") false ended.pool).0;
}

-- The first opening fails. The second entry, which is at address 1, is then neither installed nor
-- cleaned up, so that nothing closes its runtime.
abbrev failed : System
failed = record again { pool = (end_acquire key 0 (err 5) again.pool).0 }

failed_entries :
    (addresses again.pool.entries ≡ 1 ∷ [])
    × (failed.pool.entries ≡ [])
    × (failed.cleaning ≡ 0 ∷ [])
unfolding begin_acquire acquire_open refer new_entry write has begin_close_session of_frontend
    not_of_frontend without end_acquire fail_entry release_entry lookup insert delete text_eq
failed_entries = (refl, refl, refl)
