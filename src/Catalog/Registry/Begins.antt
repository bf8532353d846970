-- ===== src/Catalog/Registry/Begins.antt =====
-- The sections of catalog/registry.go that begin refreshes, or ask for them, keep the invariant.
use mmmcp.Base.{
  ℕ, ◌≡◌, refl, sym, subst, inl, inr, Bool, true, false, not, if◌then◌else◌, Option-cases, Option,
  none, some, List, Text, text_keys, lookup, arith,
}
use mmmcp.Catalog.Registry.{Callback, Registry}
use mmmcp.Catalog.Registry.Refresh.{
  compiles, waits_done, BeginRefresh, begin_entry, begin_open, begin_refresh, request_open,
  request_refresh, run_open, run_refresh,
}
use mmmcp.Catalog.Registry.Sound.{request_entry-Sound, run_entry-Sound}
use mmmcp.Catalog.Registry.System.{System, runs, after_begin, after_run}
use mmmcp.Config.{Config}
use mmmcp.Catalog.Registry.Steps.{Keeps, touch, Keeps-if, grow, begin_entry-Keeps}

module _ (searches : Text → Bool) where
  abbrev pub Holds : System → Type 0
  Holds y = Keeps searches y.registry y.running

  Holds-if :
      (f : Text) (b : Bool) (s t : Registry × BeginRefresh) (running : List (Text × ℕ))
      → (b ≡ true → Holds (after_begin f running s))
      → (b ≡ false → Holds (after_begin f running t))
      → Holds (after_begin f running (if b then s else t))
  Holds-if f true s t running h k = h refl
  Holds-if f false s t running h k = k refl

  begin_idle-Keeps :
      (r : Registry) (running : List (Text × ℕ)) (f : Text) (a : ℕ) (d : Option ℕ)
      → r.closed ≡ false
      → searches f ≡ true
      → lookup f r.entries ≡ some a
      → Keeps searches r running
      → Holds (
          after_begin f running (elim d as (λ d. Registry × BeginRefresh) [
            | some c ↦ (r, waits_done c)
            | none ↦ (begin_entry a r, compiles (some a))
          ]))
  unfolding after_begin
  begin_idle-Keeps r running f a none c t l v = begin_entry-Keeps searches r running f a c t l v
  begin_idle-Keeps r running f a (some x) c t l v = v

  begin_open-Keeps :
      (r : Registry) (running : List (Text × ℕ)) (f : Text)
      → r.closed ≡ false
      → searches f ≡ true
      → Keeps searches r running
      → Holds (after_begin f running (begin_open f r))
  unfolding after_begin begin_open
  begin_open-Keeps r running f c t v = elim (Option-cases (lookup f r.entries)) [
    | inl q ↦
        let missing : begin_open f r ≡ (r, compiles none) = rw (begin_open, q) refl in
        subst (λ s. Holds (after_begin f running s)) (sym missing) v
    | inr (a, q) ↦
        rw (q, begin_open)
          (Holds-if f (r.memory a).ready _ _ running
            (λ w. begin_idle-Keeps r running f a (r.memory a).refresh_done c t q v) (λ w. v))
  ]

  pub begin_refresh-Holds :
      (r : Registry) (running : List (Text × ℕ)) (f : Text)
      → Keeps searches r running
      → Holds (after_begin f running (begin_refresh f (searches f) r))
  unfolding after_begin begin_refresh
  begin_refresh-Holds r running f v =
      Holds-if f (not (searches f)) _ _ running (λ w. v)
        (λ w.
          Holds-if f r.closed _ _ running (λ c. v)
            (λ c. begin_open-Keeps r running f c (ground (arith, w)) v))

  request_open-Keeps :
      (r : Registry) (running : List (Text × ℕ)) (f : Text) (callback : Option Callback)
      → r.closed ≡ false
      → Keeps searches r running
      → Keeps searches (request_open f callback r) running
  unfolding request_open
  request_open-Keeps r running f callback c v = elim (Option-cases (lookup f r.entries)) [
    | inl q ↦ rw (q, request_open) v
    | inr (a, q) ↦
        rw (q, request_open)
          (touch searches r running a _ v (λ w.
            request_entry-Sound r.closed _ _ r.next_channel callback (r.memory a) c
              (v.sound (v.owner a) a w)))
  ]

  pub request_refresh-Keeps :
      (r : Registry) (running : List (Text × ℕ)) (f : Text) (callback : Option Callback)
      → Keeps searches r running
      → Keeps searches (request_refresh f callback r) running
  unfolding request_refresh
  request_refresh-Keeps r running f callback v =
      Keeps-if searches r.closed r _ running (λ c. v)
        (λ c. request_open-Keeps r running f callback c v)

  Runs-if :
      (f : Text) (b : Bool) (s t : Registry × Option (ℕ × Config × List Callback))
      (running : List (Text × ℕ))
      → (b ≡ true → Holds (after_run f running s))
      → (b ≡ false → Holds (after_run f running t))
      → Holds (after_run f running (if b then s else t))
  Runs-if f true s t running h k = h refl
  Runs-if f false s t running h k = k refl

  run_open-Holds :
      (r : Registry) (running : List (Text × ℕ)) (f : Text)
      → r.closed ≡ false
      → Keeps searches r running
      → Holds (after_run f running (run_open f r))
  unfolding after_run run_open
  run_open-Holds r running f c v = elim (Option-cases (lookup f r.entries)) [
    | inl q ↦
        let missing : run_open f r ≡ (r, none) = rw (run_open, q) refl in
        subst (λ s. Holds (after_run f running s)) (sym missing) v
    | inr (a, q) ↦
        rw (q, run_open)
          (Runs-if f (r.memory a).refreshing _ _ running (λ w. v)
            (λ w. grow searches r running f a _ v q (
              run_entry-Sound r.closed (searches f) (runs f a running) (r.memory a) c
                (v.sound f a q))))
  ]

  pub run_refresh-Holds :
      (r : Registry) (running : List (Text × ℕ)) (f : Text)
      → Keeps searches r running
      → Holds (after_run f running (run_refresh f r))
  unfolding after_run run_refresh
  run_refresh-Holds r running f v =
      Runs-if f r.closed _ _ running (λ c. v) (λ c. run_open-Holds r running f c v)
