-- ===== src/Search/Builder.antt =====
-- The background builder of toolsearch/search.go, and the arguments and results of its two tools.
use mmmcp.Base.{
  ℕ, zero, suc, ◌+◌, ◌*◌, ◌≤◌, ◌<◌, min, ◌≡◌, refl, ap, ◌∙◌, Bool, true, false, not, ◌||◌,
  if◌then◌else◌, Option, none, some, Text, codes, is_empty, Result, ok, err, ℤ, pos, negsuc, arith,
}
use mmmcp.Search.{Results, Error, invalid_arguments, not_ready, canceled, index_failed, is_invalid}

-- `Index`, without its documents: the published index, whether the builder was started, whether its
-- context was canceled, and whether it has ended.
pub record Index : Type 0 where
  pub index : Option ℕ
  pub started : Bool
  pub canceled : Bool
  pub stopped : Bool

-- `New`
abbrev pub new_index : Index
new_index = record { index = none; started = false; canceled = false; stopped = false }

-- `Start`: whether this call starts the builder.
unfoldable pub start : Index → Index × Bool
start i = (record i { started = true }, not i.started)

-- `publish`
unfoldable pub publish : ℕ → Index → Index
publish built i = record i { index = some built }

-- `Stop`
unfoldable pub stop : Index → Index
stop i = record i { canceled = i.canceled || i.started }

-- What ends the wait of `await`.
pub data Event : Type 0 where
  is_ready has_stopped timed_out ended : Event

-- `await`, for the event that ends it.
unfoldable pub await : Event → Index → Option Error
await is_ready i = none
await has_stopped i = elim i.index [ some built ↦ none | none ↦ some not_ready ]
await timed_out i = some not_ready
await ended i = some canceled

abbrev pub second : ℕ
second = 1000000000

-- How `run` ends, with the time that it waited: the index it published, the index it closed, or
-- nothing.
pub data Run : Type 0 where
  publishes closes : ℕ → ℕ → Run
  quits : ℕ → Run

-- The attempts of `build`, and whether the context has ended before an attempt, after it, and in
-- the wait that follows.
pub record World : Type 0 where
  pub build : ℕ → Result ℕ ℕ
  pub ended_before : ℕ → Bool
  pub ended_after : ℕ → Bool
  pub ended_waiting : ℕ → Bool

-- `min(delay*2, 30*time.Second)`
abbrev pub next_delay : ℕ → ℕ
next_delay delay = min (delay * 2) (30 * second)

-- `run` from an attempt on, `none` where it goes on after so many attempts.
unfoldable pub run : World → ℕ → ℕ → ℕ → ℕ → Option Run
run w zero attempt delay waited = none
run w (suc fuel) attempt delay waited =
    let rest = run w fuel (attempt + 1) (next_delay delay) (waited + delay) in
    if w.ended_before attempt then some (quits waited) else elim (w.build attempt) [
      | ok built ↦
          if w.ended_after attempt
          then some (closes built waited)
          else some (publishes built waited)
      | err e ↦
          if w.ended_after attempt || w.ended_waiting attempt then some (quits waited) else rest
    ]

-- The first attempts fail, the next one succeeds, and the context does not end until then.
pub record Recovers (w : World) (failures attempt built : ℕ) : Type 0 where
  pub fails : (n : ℕ) → attempt ≤ n → n < attempt + failures → (e : ℕ) × (w.build n ≡ err e)
  pub succeeds : w.build (attempt + failures) ≡ ok built
  pub lives :
      (n : ℕ)
      → attempt ≤ n
      → n ≤ attempt + failures
      → (w.ended_before n ≡ false) × (w.ended_after n ≡ false) × (w.ended_waiting n ≡ false)

-- A run that publishes the index after at most so long.
abbrev pub Publishes : ℕ → ℕ → Option Run → Type 0
Publishes built most r = (waited : ℕ) × (r ≡ some (publishes built waited)) × (waited ≤ most)

run-Publishes_lem :
    (w : World) (failures attempt delay waited built : ℕ)
    → delay ≤ 30 * second
    → Recovers w failures attempt built
    → Publishes built
        (waited + failures * (30 * second))
        (run w (suc failures) attempt delay waited)
unfolding run
run-Publishes_lem w zero attempt delay waited built d v =
    let alive = v.lives attempt (omega arith) (omega arith) in
    let done : w.build attempt ≡ ok built = ap w.build (omega arith) ∙ v.succeeds in
    (waited, rw (run, alive.0, done, alive.1) refl, omega arith)
run-Publishes_lem w (suc failures) attempt delay waited built d v =
    let alive = v.lives attempt (omega arith) (omega arith) in
    let failed = v.fails attempt (omega arith) (omega arith) in
    let rest =
      run-Publishes_lem w failures (attempt + 1) (next_delay delay) (waited + delay) built
        (omega arith)
        (record {
          fails = λ n l h. v.fails n (omega (arith, l)) (omega (arith, h));
          succeeds = ap w.build (omega arith) ∙ v.succeeds;
          lives = λ n l h. v.lives n (omega (arith, l)) (omega (arith, h));
        }) in
    (rest.0, rw (run, alive.0, failed.1, alive.1, alive.2) rest.1, omega (arith, rest.2, d))

-- A builder that starts at one second between attempts publishes the index of the first attempt
-- that succeeds, if its context does not end until then, and it has waited at most 30 seconds for
-- each attempt that failed. It needs one attempt more than there are failures.
pub run-Publishes :
    (w : World) (failures built : ℕ)
    → Recovers w failures 0 built
    → Publishes built (failures * (30 * second)) (run w (suc failures) 0 second 0)
run-Publishes w failures built v =
    let p = run-Publishes_lem w failures 0 second 0 built (omega arith) v in
    (p.0, p.1, omega (arith, p.2))

-- `CallArguments`, with the raw value of its arguments.
pub record CallArguments (Raw : Type 0) : Type 0 where
  pub name : Text
  pub revision : Text
  pub arguments : Raw

-- The packages for JSON: `empty` is `{}`.
pub record Decoder : Type 1 where
  pub Raw : Type 0
  pub decode : Text → Option (Text × Text × Option Raw)
  pub is_object : Raw → Bool
  pub empty : Raw
  pub decode_search : Text → Option (Text × ℤ × ℤ)
  pub encode : Results → Option Text

-- `ParseCallArguments`, where `none` is the error.
unfoldable pub parse_call_arguments : (d : Decoder) → Text → Option (CallArguments d.Raw)
parse_call_arguments d text = elim (d.decode text) [
  | none ↦ none
  | some args ↦ if is_empty args.0 || is_empty args.1 then none else elim args.2 [
    | none ↦ some (record { name = args.0; revision = args.1; arguments = d.empty })
    | some raw ↦
        if d.is_object raw
        then some (record { name = args.0; revision = args.1; arguments = raw })
        else none
  ]
]

-- The result of `Call`: an error result for the client, an error, or the results with their text.
pub data CallResult : Type 0 where
  tool_error : Text → CallResult
  fails : Error → CallResult
  encoding_failed : CallResult
  returns : Results → Text → CallResult

abbrev pub arguments_message : Text
arguments_message = codes "INVALID_ARGUMENTS: expected query and optional limit and offset"

abbrev pub bounds_message : Text
bounds_message =
    codes
      "INVALID_ARGUMENTS: query must be nonempty, limit must be positive, and offset must be nonnegative"

abbrev pub not_ready_message : Text
not_ready_message = codes "SEARCH_INDEX_NOT_READY: Tool search is still indexing; retry shortly."

abbrev pub default_limit : ℤ → ℤ
default_limit (pos zero) = pos 5
default_limit (pos (suc n)) = pos (suc n)
default_limit (negsuc n) = negsuc n

-- The results of `Search` as a result of the tool.
unfoldable pub call_result : Decoder → Result Error Results → CallResult
call_result d (err invalid_arguments) = fails invalid_arguments
call_result d (err not_ready) = tool_error not_ready_message
call_result d (err canceled) = fails canceled
call_result d (err (index_failed e)) = fails (index_failed e)
call_result d (ok results) = elim (d.encode results) [
  | none ↦ encoding_failed
  | some encoded ↦ returns results encoded
]

-- `Call`, for the search that it calls with the query, the limit and the offset.
unfoldable pub call : Decoder → (Text → ℤ → ℤ → Result Error Results) → Text → CallResult
unfolding call_result
call d search text = elim (d.decode_search text) [
  | none ↦ tool_error arguments_message
  | some params ↦
      if is_invalid params.0 (default_limit params.1) params.2
      then tool_error bounds_message
      else call_result d (search params.0 (default_limit params.1) params.2)
]
