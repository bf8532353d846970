-- ===== src/Stdio/Environment/Precedence.antt =====
-- Which value a component's process sees (component/stdio/env.go).
use mmmcp.Base.{
  ◌≡◌, refl, sym, ap, ◌∙◌, Bool, if◌then◌else◌, Option, none, some, List, [], ◌∷◌, ◌++◌, map, Text,
  text_keys, text_eq, text_eq_iff, contains_text, lookup, arith, true, false, not, ◌&&◌, ◌==◌,
  codes, All, All-append, Option-cases, Bool-cases, inl, inr, subst,
}
use mmmcp.Catalog.{sort_by}
use mmmcp.Catalog.Sorting.{contains_text-sort_by}
use mmmcp.Stdio.Environment.{
  names, host_value, host_entries, configured_names, configured_value, configured_entries, entries,
  environment,
}

-- The value of the last entry of the name: where a name is repeated, a process gets the last one.
unfoldable pub last_value : Text → List (Text × Text) → Option Text
last_value name [] = none
last_value name ((n, v) ∷ es) = elim (last_value name es) [
  | some w ↦ some w
  | none ↦ if text_eq n name then some v else none
]

-- The first value, if there is one, and else the second.
unfoldable pub or_else : Option Text → Option Text → Option Text
or_else none w = w
or_else (some v) w = some v

last_value-append :
    (name : Text) (xs ys : List (Text × Text))
    → last_value name (xs ++ ys) ≡ or_else (last_value name ys) (last_value name xs)
unfolding last_value or_else
last_value-append name [] ys = ground arith
last_value-append name ((n, v) ∷ xs) ys = ground (arith, last_value-append name xs ys)

last_value-host_entries :
    (name : Text) (host : Text → Option Text) (ns : List Text)
    → last_value name (host_entries host ns) ≡ (if contains_text name ns then host name else none)
unfolding last_value host_entries contains_text
last_value-host_entries name host [] = refl
last_value-host_entries name host (n ∷ ns) =
    ground (arith, last_value-host_entries name host ns, text_eq_iff n name)

last_value-configured_entries :
    (name : Text) (configured : List (Text × Text)) (ns : List Text)
    → last_value name (configured_entries configured ns)
      ≡ (if contains_text name ns then some (configured_value configured name) else none)
unfolding last_value configured_entries contains_text
last_value-configured_entries name configured [] = refl
last_value-configured_entries name configured (n ∷ ns) =
    ground (arith, last_value-configured_entries name configured ns, text_eq_iff n name)

configured_names-lookup :
    (name : Text) (configured : List (Text × Text))
    → (if contains_text name (configured_names configured)
        then some (configured_value configured name)
        else none)
      ≡ lookup name configured
unfolding contains_text configured_value lookup
configured_names-lookup name [] = refl
configured_names-lookup name ((n, v) ∷ es) =
    ground (arith, configured_names-lookup name es, text_eq_iff n name)

map_id : (ns : List Text) → map (λ n. n) ns ≡ ns
map_id [] = refl
map_id (n ∷ ns) = rw (map_id ns)

contains_text-sorted :
    (name : Text) (ns : List Text)
    → contains_text name (sort_by (λ n. n) ns) ≡ contains_text name ns
contains_text-sorted name ns =
    ap (contains_text name) (sym (map_id (sort_by (λ n. n) ns)))
    ∙ contains_text-sort_by (λ n. n) name ns
    ∙ ap (contains_text name) (map_id ns)

-- The last value in the pairs: the configured one, else the host's.
last_value-entries :
    (windows : Bool) (host : Option (Text → Option Text)) (configured : List (Text × Text))
    (name : Text)
    → last_value name (entries windows host configured)
      ≡ or_else
          (lookup name configured)
          (if contains_text name (names windows) then host_value host name else none)
unfolding entries
last_value-entries windows host configured name = rw (
  last_value-append, last_value-host_entries, last_value-configured_entries, contains_text-sorted,
  configured_names-lookup,
)

-- The value in a text NAME=value of this name.
unfoldable pub value_at : Text → Text → Option Text
value_at [] [] = none
value_at [] (c ∷ t) = if c == b'=' then some t else none
value_at (r ∷ name) [] = none
value_at (r ∷ name) (c ∷ t) = let rest = value_at name t in if c == r then rest else none

-- The value of the last text of the name, which is the one that a process gets.
unfoldable pub get_variable : Text → List Text → Option Text
get_variable name [] = none
get_variable name (t ∷ ts) = elim (get_variable name ts) [
  | some w ↦ some w
  | none ↦ value_at name t
]

-- A name without "=".
unfoldable pub is_name : Text → Bool
is_name [] = true
is_name (r ∷ name) = not (r == b'=') && is_name name

value_at-render :
    (name n v : Text)
    → is_name name ≡ true
    → is_name n ≡ true
    → value_at name (n ++ (codes "=" ++ v)) ≡ (if text_eq n name then some v else none)
unfolding value_at is_name text_eq
value_at-render [] [] v h k = refl
value_at-render [] (c ∷ n) v h k = ground arith
value_at-render (r ∷ name) [] v h k = ground arith
value_at-render (r ∷ name) (c ∷ n) v h k = ground (arith, value_at-render name n v)

abbrev AreNames : List (Text × Text) → Type 0
AreNames es = All (λ e. is_name e.0 ≡ true) es

get_variable-render :
    (name : Text) (es : List (Text × Text))
    → is_name name ≡ true
    → AreNames es
    → get_variable name (map (λ e. e.0 ++ (codes "=" ++ e.1)) es) ≡ last_value name es
unfolding get_variable last_value
get_variable-render name [] h k = refl
get_variable-render name ((n, v) ∷ es) h (k, ks) =
    ground (arith, get_variable-render name es h ks, value_at-render name n v h k)

host_entries-AreNames :
    (host : Text → Option Text) (ns : List Text)
    → All (λ n. is_name n ≡ true) ns
    → AreNames (host_entries host ns)
unfolding host_entries
host_entries-AreNames host [] h = tt
host_entries-AreNames host (n ∷ ns) (h, hs) = elim (Option-cases (host n)) [
  | inl q ↦ rw (q, host_entries) (host_entries-AreNames host ns hs)
  | inr (v, q) ↦ rw (q, host_entries) (h, host_entries-AreNames host ns hs)
]

-- Names among which each is a name without "=".
configured_entries-AreNames :
    (configured : List (Text × Text)) (ns : List Text)
    → ((n : Text) → contains_text n ns ≡ true → is_name n ≡ true)
    → AreNames (configured_entries configured ns)
unfolding configured_entries contains_text
configured_entries-AreNames configured [] h = tt
configured_entries-AreNames configured (n ∷ ns) h = (
  h n (ground (arith, text_eq_iff n n)),
  configured_entries-AreNames configured ns (λ m q. h m (ground (arith, q))),
)

-- Texts of which one is contained have what all have.
contained :
    (n : Text) (ns : List Text)
    → All (λ m. is_name m ≡ true) ns
    → contains_text n ns ≡ true
    → is_name n ≡ true
unfolding contains_text
contained n [] h q = cc
contained n (m ∷ ns) (h, hs) q = elim (Bool-cases (text_eq m n)) [
  | inl w ↦ subst (λ t. is_name t ≡ true) ((text_eq_iff m n).0 w) h
  | inr w ↦ contained n ns hs (ground (arith, q, w))
]

baseline_names-AreNames : All (λ n. is_name n ≡ true) (names false)
unfolding names is_name
baseline_names-AreNames = (refl, (refl, (refl, (refl, (refl, (refl, (refl, (refl, (refl, tt)))))))))

-- Outside of Windows, where the configured names have no "=", a process that gets the last text
-- NAME=value of a name sees the configured value of the variable where there is one, else the host's
-- value if the variable is on the baseline list, and nothing else of the host's environment.
pub get_variable-environment :
    (host : Option (Text → Option Text)) (configured : List (Text × Text)) (name : Text)
    → is_name name ≡ true
    → All (λ n. is_name n ≡ true) (configured_names configured)
    → get_variable name (environment false host configured)
      ≡ or_else
          (lookup name configured)
          (if contains_text name (names false) then host_value host name else none)
unfolding environment entries
get_variable-environment host configured name h k =
    let sorted = sort_by (λ n. n) (configured_names configured) in
    let valid : AreNames (entries false host configured) =
      All-append (λ e. is_name e.0 ≡ true) (host_entries (host_value host) (names false))
        (configured_entries configured sorted)
        (host_entries-AreNames (host_value host) (names false) baseline_names-AreNames)
        (configured_entries-AreNames configured sorted (λ n q.
          contained n (configured_names configured) k
            (sym (contains_text-sorted n (configured_names configured)) ∙ q))) in
    get_variable-render name (entries false host configured) h valid
    ∙ last_value-entries false host configured name
