-- ===== src/Http/Activity/System.antt =====
-- The registry of http_activity.go with the requests that are in flight and the watchers that run.
use mmmcp.Base.{
  ℕ, suc, ◌+◌, ◌≡◌, ◌≢◌, if◌then◌else◌, ◌==◌, Bool, some, List, [], ◌∷◌, Text, text_eq, In,
}
use mmmcp.Http.Activity.{Session, Activity, begin, end, bind, watch_ends}

-- `inflight` counts the requests between `begin` and `end`, `watching` are the sessions that a
-- goroutine waits for.
pub record System : Type 0 where
  pub activity : Activity
  pub inflight : Text → ℕ
  pub watching : List Session

abbrev pub initial : System
initial = record {
  activity = record { active = []; sessions = []; watchers = 0 };
  inflight = λ id. 0;
  watching = [];
}

unfoldable pub count : Text → ℕ → (Text → ℕ) → Text → ℕ
count id n inflight j = if text_eq id j then n else inflight j

unfoldable pub unwatch : Session → List Session → List Session
unwatch s [] = []
unwatch s (x ∷ xs) = let rest = unwatch s xs in if x.handle == s.handle then xs else x ∷ rest

unfoldable pub after_bind : System → Session → Activity × ℕ × Bool → System
after_bind y s (a, n, starts) = record y {
  activity = a;
  watching = if starts then s ∷ y.watching else y.watching;
}

-- The SDK gives each session one identifier: `IsKnown` says that handles tell sessions apart.
abbrev pub IsKnown : Session → List Session → Type 0
IsKnown s [] = Unit
IsKnown s (x ∷ xs) = ((x.handle ≡ s.handle) → x ≡ s) × IsKnown s xs

pub data Step : System → System → Type 0 where
  begins :
      (y : System) (id : Text)
      → id ≢ []
      → Step y (record y {
        activity = (begin id y.activity).0;
        inflight = count id (y.inflight id + 1) y.inflight;
      })
  ends :
      (y : System) (id : Text) (n : ℕ)
      → id ≢ []
      → y.inflight id ≡ suc n
      → Step y (record y { activity = (end id y.activity).0; inflight = count id n y.inflight })
  binds :
      (y : System) (s : Session)
      → IsKnown s y.watching
      → Step y (after_bind y s (bind (some s) y.activity))
  watch_over :
      (y : System) (s : Session)
      → In s y.watching
      → Step y (record y { activity = watch_ends s y.activity; watching = unwatch s y.watching })

pub data Reach : System → Type 0 where
  start : Reach initial
  next : {y z : System} → Reach y → Step y z → Reach z
