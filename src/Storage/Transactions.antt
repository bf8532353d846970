-- ===== src/Storage/Transactions.antt =====
-- `runTransaction` and `bind` of storage/eventstore.go.
use mmmcp.Base.{
  ℕ, zero, suc, ◌+◌, ◌*◌, ◌^◌, ◌≤◌, ◌<◌, ◌≡◌, refl, true, false, if◌then◌else◌, ◌==◌, Bool-cases,
  Option-cases, Option, none, some, [], ◌∷◌, ◌++◌, Text, Result, ok, err, Result-cases, ◌⊎◌, inl,
  inr, sym, ap, ◌∙◌, subst, arith,
}
use mathlib.Core.List.{append_assoc}
use native.Mathlib.Nat.{two-pow-succ}
use mmmcp.Storage.Options.{Dialect, Failure, retryable, postgres, sqlite, mysql}

abbrev pub default_transaction_attempts : ℕ
default_transaction_attempts = 5

-- How `runTransaction` ended: its result, the attempts that it made and the nanoseconds that it
-- waited between them.
pub record Run (State : Type 0) : Type 0 where
  pub result : Result Failure State
  pub attempts : ℕ
  pub waited : ℕ

-- Which calls of an attempt fail, and whether the context ends while it waits.
module _ {State : Type 0} (begin : ℕ → Option Failure)
    (operation : ℕ → State → Result Failure State) (commit : ℕ → State → Option Failure)
    (interrupted : ℕ → Option Failure) (dialect : Dialect) where
  -- One attempt. A transaction that is not committed leaves the database as it was.
  unfoldable pub run_attempt : ℕ → State → Result Failure State
  run_attempt attempt s = elim (begin attempt) [
    | some e ↦ err e
    | none ↦ elim (operation attempt s) [
      | err e ↦ err e
      | ok t ↦ elim (commit attempt t) [ some e ↦ err e | none ↦ ok t ]
    ]
  ]

  -- `time.Duration(1<<attempt) * 2 * time.Millisecond`
  abbrev pub delay : ℕ → ℕ
  delay attempt = 2 ^ attempt * 2000000

  -- The loop from an attempt on, where so many more follow it.
  unfoldable pub run_loop : ℕ → ℕ → ℕ → State → Run State
  unfolding run_attempt
  run_loop zero attempt waited s = record {
    result = run_attempt attempt s;
    attempts = attempt + 1;
    waited = waited;
  }
  run_loop (suc more) attempt waited s =
      let rest = run_loop more (attempt + 1) (waited + delay attempt) s in
      elim (run_attempt attempt s) [
        | ok t ↦ record { result = ok t; attempts = attempt + 1; waited = waited }
        | err e ↦
            if retryable dialect e
            then elim (interrupted attempt) [
              | some c ↦ record { result = err c; attempts = attempt + 1; waited = waited }
              | none ↦ rest
            ]
            else record { result = err e; attempts = attempt + 1; waited = waited }
      ]

  -- `runTransaction`
  unfoldable pub run_transaction : State → Run State
  unfolding run_loop
  run_transaction s = run_loop 4 0 0 s

  delay_doubles : (n : ℕ) → delay (n + 1) ≡ delay n + delay n
  delay_doubles n =
      let doubled : 2 ^ (n + 1) ≡ 2 ^ n + 2 ^ n = ap (λ m. 2 ^ m) (omega arith) ∙ two-pow-succ n in
      omega (arith, doubled)

  -- How the last attempt determines the result, where `end` is the last one allowed.
  abbrev pub Outcome : ℕ → ℕ → State → Run State → Type 0
  Outcome end last s r =
      ((t : State) × (run_attempt last s ≡ ok t) × (r.result ≡ ok t))
      ⊎ ((e : Failure) × (run_attempt last s ≡ err e)
          × (((r.result ≡ err e) × ((retryable dialect e ≡ false) ⊎ (last ≡ end)))
              ⊎ ((c : Failure) × (interrupted last ≡ some c) × (r.result ≡ err c))))

  -- How the attempts from one on ended, at most so many after it.
  pub record Ended (more attempt waited : ℕ) (s : State) (r : Run State) : Type 0 where
    pub last : ℕ
    pub counts : r.attempts ≡ last + 1
    pub from : attempt ≤ last
    pub to : last ≤ attempt + more
    pub waits : r.waited + delay attempt ≡ waited + delay last
    pub retries :
        (n : ℕ)
        → attempt ≤ n
        → n < last
        → (e : Failure) × (run_attempt n s ≡ err e) × (retryable dialect e ≡ true)
    pub outcome : Outcome (attempt + more) last s r

  -- The first of the attempts is the last one.
  stops :
      (more attempt waited : ℕ) (s : State) (result : Result Failure State)
      → Outcome
          (attempt + more)
          attempt
          s
          (record { result = result; attempts = attempt + 1; waited = waited })
      → Ended more attempt waited s
          (record { result = result; attempts = attempt + 1; waited = waited })
  stops more attempt waited s result o = record {
    last = attempt;
    counts = refl;
    from = omega arith;
    to = omega arith;
    waits = refl;
    retries = λ n l h. absurd (omega (arith, l, h));
    outcome = o;
  }

  -- The first of the attempts is followed by another.
  continues :
      (more attempt waited : ℕ) (s : State) (r : Run State) (e : Failure)
      → run_attempt attempt s ≡ err e
      → retryable dialect e ≡ true
      → Ended more (attempt + 1) (waited + delay attempt) s r
      → Ended (suc more) attempt waited s r
  continues more attempt waited s r e q t v = record {
    last = v.last;
    counts = v.counts;
    from = omega (arith, v.from);
    to = omega (arith, v.to);
    waits = omega (arith, v.waits, delay_doubles attempt);
    retries = λ n l h. elim (Bool-cases (n == attempt)) [
      | inl w ↦ (e, subst (λ m. run_attempt m s ≡ err e) (sym (ground (arith, w))) q, t)
      | inr w ↦ v.retries n (ground (arith, w)) h
    ];
    outcome = subst (λ m. Outcome m v.last s r) (omega arith) v.outcome;
  }

  run_loop-Ended :
      (more attempt waited : ℕ) (s : State)
      → Ended more attempt waited s (run_loop more attempt waited s)
  unfolding run_loop
  run_loop-Ended zero attempt waited s =
      stops zero attempt waited s _ (elim (Result-cases (run_attempt attempt s)) [
        | inl (t, q) ↦ inl (t, q, q)
        | inr (e, q) ↦ inr (e, q, inl (q, inr (omega arith)))
      ])
  run_loop-Ended (suc more) attempt waited s = elim (Result-cases (run_attempt attempt s)) [
    | inl (t, q) ↦ rw (run_loop, q) (stops (suc more) attempt waited s (ok t) (inl (t, q, refl)))
    | inr (e, q) ↦ elim (Bool-cases (retryable dialect e)) [
      | inr w ↦
          rw (run_loop, q, w)
            (stops (suc more) attempt waited s (err e) (inr (e, q, inl (refl, inl w))))
      | inl w ↦ elim (Option-cases (interrupted attempt)) [
        | inr (c, i) ↦
            rw (run_loop, q, w, i)
              (stops (suc more) attempt waited s (err c) (inr (e, q, inr (c, i, refl))))
        | inl i ↦
            rw (run_loop, q, w, i)
              (continues more attempt waited s _ e q w
                (run_loop-Ended more (attempt + 1) (waited + delay attempt) s))
      ]
    ]
  ]

  -- An attempt runs at least once and at most five times. All but the last failed with errors that
  -- the driver calls retryable, and the waits in between take less than 2 ms doubled for each of
  -- them, so at most 30 ms. The result is the state that the last attempt committed, or the error
  -- of the last attempt, which is then the fifth or not retryable, or what interrupted the wait
  -- after it.
  pub run_transaction-Ended : (s : State) → Ended 4 0 0 s (run_transaction s)
  unfolding run_transaction
  run_transaction-Ended s = run_loop-Ended 4 0 0 s

-- `bind`, where `itoa` writes a number in decimal: from a parameter on.
module _ (itoa : ℕ → Text) where
  abbrev pub question_mark : ℕ
  question_mark = 63

  abbrev pub dollar : ℕ
  dollar = 36

  unfoldable pub bind_loop : ℕ → Text → Text
  bind_loop parameter [] = []
  bind_loop parameter (char ∷ query) =
      let numbered = bind_loop (parameter + 1) query in
      let rest = bind_loop parameter query in
      if char == question_mark then dollar ∷ itoa parameter ++ numbered else char ∷ rest

  unfoldable pub bind : Dialect → Text → Text
  unfolding bind_loop
  bind postgres query = bind_loop 1 query
  bind sqlite query = query
  bind mysql query = query

  -- How many parameters a query has.
  abbrev pub parameters : Text → ℕ
  parameters [] = 0
  parameters (char ∷ query) =
      let rest = parameters query in if char == question_mark then rest + 1 else rest

  bind_loop-append :
      (n : ℕ) (a b : Text) → bind_loop n (a ++ b) ≡ bind_loop n a ++ bind_loop (n + parameters a) b
  unfolding bind_loop
  bind_loop-append n [] b = ap (λ m. bind_loop m b) (omega arith)
  bind_loop-append n (c ∷ a) b = elim (Bool-cases (c == question_mark)) [
    | inl q ↦ rw (q) (
        ap (λ t. dollar ∷ itoa n ++ t)
          (bind_loop-append (n + 1) a b
            ∙ ap (λ m. bind_loop (n + 1) a ++ bind_loop m b) (omega arith))
        ∙ ap (λ t. dollar ∷ t) (sym (append_assoc (itoa n) (bind_loop (n + 1) a) _)))
    | inr q ↦ rw (q) (ap (λ t. c ∷ t) (bind_loop-append n a b))
  ]

  -- For PostgreSQL each question mark becomes a dollar sign with the number of the question marks
  -- up to it, and the other runes stay.
  pub bind-placeholder :
      (a b : Text)
      → bind postgres (a ++ question_mark ∷ b)
        ≡ bind postgres a ++ (dollar ∷ itoa (parameters a + 1) ++ bind_loop (parameters a + 2) b)
  unfolding bind bind_loop
  bind-placeholder a b =
      bind_loop-append 1 a (question_mark ∷ b)
      ∙ ap (λ m. bind_loop 1 a ++ (dollar ∷ itoa m ++ bind_loop (m + 1) b)) (omega arith)
      ∙ ap (λ m. bind_loop 1 a ++ (dollar ∷ itoa (parameters a + 1) ++ bind_loop m b)) (omega arith)
