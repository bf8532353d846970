-- ===== src/Catalog/Compiler/Keys.antt =====
-- The keys of the route maps of catalog/compiler.go against the lists of exposed features.
use mmmcp.Base.{
  ◌≡◌, refl, Bool, true, false, Option, none, some, List, [], ◌∷◌, ◌++◌, Text, text_keys,
  text_eq_iff, contains_text, Distinct, lookup, insert, map, arith, All,
}

-- The keys of a map, and whether a look-up found something.
abbrev pub keys : {V : Type 0} → List (Text × V) → List Text
keys [] = []
keys ((k, v) ∷ m) = k ∷ keys m

abbrev pub is_some : {V : Type 0} → Option V → Bool
is_some none = false
is_some (some v) = true

-- The names are the map's keys, in the order of insertion, and there is no name twice.
abbrev pub Keyed : {V : Type 0} → List Text → List (Text × V) → Type 0
Keyed names m = (names ≡ keys m) × Distinct names

pub contains_text-keys :
    {V : Type 0} (k : Text) (m : List (Text × V)) → contains_text k (keys m) ≡ is_some (lookup k m)
unfolding lookup contains_text
contains_text-keys k [] = refl
contains_text-keys k ((j, v) ∷ m) =
    ground (arith, contains_text-keys k m, text_eq_iff j k, text_eq_iff k j)

contains_text-append :
    (k j : Text) (ts : List Text)
    → contains_text k ts ≡ false
    → contains_text k (j ∷ []) ≡ false
    → contains_text k (ts ++ j ∷ []) ≡ false
unfolding contains_text
contains_text-append k j [] h g = g
contains_text-append k j (t ∷ ts) h g = ground (arith, contains_text-append k j ts)

Distinct-append :
    (k : Text) (ts : List Text) → contains_text k ts ≡ false → Distinct ts → Distinct (ts ++ k ∷ [])
unfolding contains_text
Distinct-append k [] h d = (refl, tt)
Distinct-append k (t ∷ ts) h d =
    ground (
      arith,
      Distinct-append k ts,
      contains_text-append t k ts d.0,
      text_eq_iff k t,
      text_eq_iff t k,
    )

pub insert-absent :
    {V : Type 0} (k : Text) (v : V) (m : List (Text × V))
    → lookup k m ≡ none
    → insert k v m ≡ m ++ (k, v) ∷ []
unfolding lookup insert
insert-absent k v [] h = refl
insert-absent k v ((j, w) ∷ m) h = ground (arith, insert-absent k v m)

keys-append :
    {V : Type 0} (k : Text) (v : V) (m : List (Text × V))
    → keys (m ++ (k, v) ∷ []) ≡ keys m ++ k ∷ []
keys-append k v [] = refl
keys-append k v ((j, w) ∷ m) = rw (keys-append k v m)

pub Keyed-insert :
    {V : Type 0} (names : List Text) (k : Text) (v : V) (m : List (Text × V))
    → Keyed names m
    → lookup k m ≡ none
    → Keyed (names ++ k ∷ []) (insert k v m)
Keyed-insert names k v m h q = ground (
  arith,
  insert-absent k v m q,
  keys-append k v m,
  contains_text-keys k m,
  Distinct-append k names,
)

pub map-append :
    {A : Type 0} (f : A → Text) (a : A) (xs : List A) → map f (xs ++ a ∷ []) ≡ map f xs ++ f a ∷ []
map-append f a [] = refl
map-append f a (x ∷ xs) = rw (map-append f a xs)

pub All-lookup :
    {V : Type 0} (P : Text × V → Type 0) (k : Text) (v : V) (m : List (Text × V))
    → All P m
    → lookup k m ≡ some v
    → P (k, v)
unfolding lookup
All-lookup P k v [] h q = cc
All-lookup P k v ((j, w) ∷ m) h q = ground (arith, All-lookup P k v m h.1, text_eq_iff j k)
