-- ===== src/Pool/Places.antt =====
-- Where the entries of component/pool.go stand, counted.
use mmmcp.Base.{
  ℕ, ◌+◌, ◌≤◌, ◌≡◌, refl, Bool, true, if◌then◌else◌, ◌==◌, none, some, List, [], ◌∷◌, ◌++◌, map,
  lookup, insert, delete, arith,
}
use mmmcp.Pool.{PoolKey, pool_keys, has, of_frontend, not_of_frontend}
use mmmcp.Pool.System.{System, drop_one}

abbrev pub addresses : List (PoolKey × ℕ) → List ℕ
addresses = map (λ e. e.1)

abbrev pub count : ℕ → List ℕ → ℕ
count a [] = 0
count a (b ∷ bs) = let rest = count a bs in if b == a then rest + 1 else rest

pub count-append : (a : ℕ) (bs cs : List ℕ) → count a (bs ++ cs) ≡ count a bs + count a cs
count-append a [] cs = omega arith
count-append a (b ∷ bs) cs = ground (arith, count-append a bs cs)

pub count-insert :
    (b : ℕ) (key : PoolKey) (a : ℕ) (m : List (PoolKey × ℕ))
    → lookup key m ≡ none
    → count b (addresses (insert key a m))
      ≡ (if a == b then count b (addresses m) + 1 else count b (addresses m))
unfolding lookup insert
count-insert b key a [] h = refl
count-insert b key a ((j, c) ∷ m) h = ground (arith, count-insert b key a m)

pub count-delete :
    (b : ℕ) (key : PoolKey) (m : List (PoolKey × ℕ))
    → count b (addresses (delete key m)) ≤ count b (addresses m)
unfolding delete
count-delete b key [] = omega arith
count-delete b key ((j, c) ∷ m) = ground (arith, count-delete b key m)

pub count-split :
    (b s : ℕ) (m : List (PoolKey × ℕ))
    → count b (of_frontend s m) + count b (addresses (not_of_frontend s m)) ≡ count b (addresses m)
unfolding of_frontend not_of_frontend
count-split b s [] = omega arith
count-split b s ((j, c) ∷ m) = ground (arith, count-split b s m)

pub count-drop_one :
    (b a : ℕ) (xs : List ℕ)
    → has a xs ≡ true
    → (if a == b then count b (drop_one a xs) + 1 else count b (drop_one a xs)) ≡ count b xs
unfolding has drop_one
count-drop_one b a [] h = absurd (ground (arith, h))
count-drop_one b a (x ∷ xs) h = ground (arith, count-drop_one b a xs)

pub lookup-count :
    (key : PoolKey) (a : ℕ) (m : List (PoolKey × ℕ))
    → lookup key m ≡ some a
    → 1 ≤ count a (addresses m)
unfolding lookup
lookup-count key a [] h = absurd (ground (arith, h))
lookup-count key a ((j, c) ∷ m) h = ground (arith, lookup-count key a m)

-- Where an address stands, over the entries and the lists.
abbrev pub places : List (PoolKey × ℕ) → List ℕ → List ℕ → ℕ → ℕ
places entries cleaning cleaned a = count a (addresses entries) + count a cleaning + count a cleaned

pub record Inv (entries : List (PoolKey × ℕ)) (next_address : ℕ) (closed : Bool)
    (cleaning cleaned : List ℕ) : Type 0 where
  pub once : (a : ℕ) → places entries cleaning cleaned a ≤ 1
  pub fresh : (a : ℕ) → next_address ≤ a → places entries cleaning cleaned a ≡ 0
  pub shut : closed ≡ true → entries ≡ []

abbrev pub Holds : System → Type 0
Holds y = Inv y.pool.entries y.pool.next_address y.pool.closed y.cleaning y.cleaned
