-- ===== src/Pool/Ownership.antt =====
-- Every entry of component/pool.go is installed, being cleaned up or cleaned up, and only one of
-- these.
use mmmcp.Base.{
  ℕ, ◌+◌, ◌≤◌, ◌≡◌, refl, ap, inl, inr, Bool, true, false, ◌&&◌, if◌then◌else◌, ltb, Option-cases,
  Option, none, some, List, [], ◌∷◌, ◌++◌, Text, lookup, insert, delete, Result, ok, err, arith,
}
use mmmcp.Pool.{
  PoolKey, pool_keys, Entry, Pool, pool_closed, fail_entry, has, refer, new_entry, acquire_open,
  begin_acquire, end_wait, end_acquire, release_entry, is_entry, of_frontend, not_of_frontend,
  begin_close_session, close_detached, end_close_session, begin_close,
}
use mmmcp.Pool.System.{
  System, initial, drop_one, after_session, after_close, Step, Reach, acquires, waited, opened,
  releases, session_ends, cleans, closes_one, session_done, closes, here, next,
}
use mmmcp.Pool.Places.{
  addresses, count, count-append, count-insert, count-delete, count-split, count-drop_one,
  lookup-count, Inv, Holds,
}

module _ (cleaning cleaned : List ℕ) where
  abbrev pub Keeps : Pool → Type 0
  Keeps p = Inv p.entries p.next_address p.closed cleaning cleaned

  new_entry-Inv :
      (entries : List (PoolKey × ℕ)) (n : ℕ) (closed : Bool) (key : PoolKey)
      → closed ≡ false
      → lookup key entries ≡ none
      → Inv entries n closed cleaning cleaned
      → Inv (insert key n entries) (n + 1) closed cleaning cleaned
  new_entry-Inv entries n closed key c q v = record {
    once = λ a. ground (arith, v.once a, v.fresh a, count-insert a key n entries q);
    fresh = λ a h. ground (arith, h, v.fresh a, count-insert a key n entries q);
    shut = λ h. absurd (ground (arith, h, c));
  }

  delete-Inv :
      (entries : List (PoolKey × ℕ)) (n : ℕ) (closed : Bool) (key : PoolKey)
      → Inv entries n closed cleaning cleaned
      → Inv (delete key entries) n closed cleaning cleaned
  unfolding delete
  delete-Inv entries n closed key v = record {
    once = λ a. omega (arith, v.once a, count-delete a key entries);
    fresh = λ a h. omega (arith, v.fresh a h, count-delete a key entries);
    shut = λ h. ap (delete key) (v.shut h);
  }

  Keeps-if :
      (b : Bool) (p q : Pool)
      → (b ≡ true → Keeps p)
      → (b ≡ false → Keeps q)
      → Keeps (if b then p else q)
  Keeps-if true p q h k = h refl
  Keeps-if false p q h k = k refl

  release_entry-Keeps : (key : PoolKey) (a : ℕ) (p : Pool) → Keeps p → Keeps (release_entry key a p)
  unfolding release_entry
  release_entry-Keeps key a p v =
      Keeps-if (is_entry a (lookup key p.entries) && ltb 0 (p.memory a).refs) _ p (λ h. v) (λ h. v)

  acquire_open-Keeps :
      (key : PoolKey) (on_close : Bool) (p : Pool)
      → p.closed ≡ false
      → Keeps p
      → Keeps (acquire_open key on_close p).0
  unfolding acquire_open refer new_entry
  acquire_open-Keeps key on_close p c v = elim (Option-cases (lookup key p.entries)) [
    | inr (a, q) ↦ rw (acquire_open, q) v
    | inl q ↦ rw (acquire_open, q) (new_entry-Inv p.entries p.next_address p.closed key c q v)
  ]

  Either :
      {A : Type 0} (b : Bool) (s t : Pool × A)
      → (b ≡ true → Keeps s.0)
      → (b ≡ false → Keeps t.0)
      → Keeps (if b then s else t).0
  Either true s t h k = h refl
  Either false s t h k = k refl

  begin_acquire-Keeps :
      (frontend : Option ℕ) (fingerprint component : Text) (on_close : Bool) (p : Pool)
      → Keeps p
      → Keeps (begin_acquire frontend fingerprint component on_close p).0
  unfolding begin_acquire
  begin_acquire-Keeps none fingerprint component on_close p v = v
  begin_acquire-Keeps (some s) fingerprint component on_close p v =
      Either p.closed _ _ (λ c. v) (λ c. acquire_open-Keeps _ on_close p c v)

  end_wait-Keeps :
      (key : PoolKey) (a : ℕ) (ended : Option ℕ) (p : Pool)
      → Keeps p
      → Keeps (end_wait key a ended p).0
  unfolding end_wait
  end_wait-Keeps key a (some e) p v = release_entry-Keeps key a p v
  end_wait-Keeps key a none p v = elim (Option-cases ((p.memory a).failure)) [
    | inl q ↦ rw (end_wait, q) v
    | inr (e, q) ↦ rw (end_wait, q) (release_entry-Keeps key a p v)
  ]

  end_acquire-Keeps :
      (key : PoolKey) (a : ℕ) (result : Result ℕ ℕ) (p : Pool)
      → Keeps p
      → Keeps (end_acquire key a result p).0
  unfolding end_acquire fail_entry
  end_acquire-Keeps key a (ok runtime) p v = v
  end_acquire-Keeps key a (err e) p v =
      release_entry-Keeps key a (fail_entry key a e p)
        (delete-Inv p.entries p.next_address p.closed key v)

  close_detached-Keeps :
      (a : ℕ) (result : Option ℕ) (p : Pool) → Keeps p → Keeps (close_detached a result p).0
  unfolding close_detached
  close_detached-Keeps a none p v = elim (Option-cases ((p.memory a).runtime)) [
    | inl q ↦ rw (close_detached, q) v
    | inr (runtime, q) ↦ rw (close_detached, q) v
  ]
  close_detached-Keeps a (some e) p v = elim (Option-cases ((p.memory a).runtime)) [
    | inl q ↦ rw (close_detached, q) v
    | inr (runtime, q) ↦ rw (close_detached, q) v
  ]

-- The entries of a session, and those of all sessions, are removed to be cleaned up.
split-Inv :
    (entries left : List (PoolKey × ℕ)) (n : ℕ) (closed after : Bool)
    (cleaning cleaned removed : List ℕ)
    → ((a : ℕ) → count a removed + count a (addresses left) ≡ count a (addresses entries))
    → (after ≡ true → left ≡ [])
    → Inv entries n closed cleaning cleaned
    → Inv left n after (removed ++ cleaning) cleaned
split-Inv entries left n closed after cleaning cleaned removed h e v = record {
  once = λ a. omega (arith, v.once a, h a, count-append a removed cleaning);
  fresh = λ a l. omega (arith, v.fresh a l, h a, count-append a removed cleaning);
  shut = e;
}

session-if :
    (y : System) (b : Bool) (s t : Pool × List ℕ)
    → (b ≡ true → Holds (after_session y s))
    → (b ≡ false → Holds (after_session y t))
    → Holds (after_session y (if b then s else t))
session-if y true s t h k = h refl
session-if y false s t h k = k refl

begin_close_session-Holds :
    (s : ℕ) (y : System) → Holds y → Holds (after_session y (begin_close_session s y.pool))
unfolding begin_close_session
begin_close_session-Holds s y v =
    session-if y y.pool.closed _ _ (λ c. v)
      (λ c.
        split-Inv y.pool.entries (not_of_frontend s y.pool.entries) y.pool.next_address
          y.pool.closed y.pool.closed y.cleaning y.cleaned (of_frontend s y.pool.entries)
          (λ a. count-split a s y.pool.entries) (λ h. absurd (ground (arith, h, c))) v)

close-if :
    (y : System) (b : Bool) (s t : Pool × Option (List ℕ))
    → (b ≡ true → Holds (after_close y s))
    → (b ≡ false → Holds (after_close y t))
    → Holds (after_close y (if b then s else t))
close-if y true s t h k = h refl
close-if y false s t h k = k refl

begin_close-Holds : (y : System) → Holds y → Holds (after_close y (begin_close y.pool))
unfolding begin_close after_close
begin_close-Holds y v =
    close-if y y.pool.closed _ _ (λ c. v)
      (λ c.
        split-Inv y.pool.entries [] y.pool.next_address y.pool.closed true y.cleaning y.cleaned
          (addresses y.pool.entries) (λ a. omega arith) (λ h. refl) v)

cleans-Inv :
    (entries : List (PoolKey × ℕ)) (n : ℕ) (closed : Bool) (cleaning cleaned : List ℕ) (a : ℕ)
    → has a cleaning ≡ true
    → Inv entries n closed cleaning cleaned
    → Inv entries n closed (drop_one a cleaning) (a ∷ cleaned)
cleans-Inv entries n closed cleaning cleaned a h v = record {
  once = λ b. ground (arith, v.once b, count-drop_one b a cleaning h);
  fresh = λ b l. ground (arith, v.fresh b l, count-drop_one b a cleaning h);
  shut = v.shut;
}

Step-Holds : {y z : System} → Step y z → Holds y → Holds z
unfolding end_close_session
Step-Holds (acquires y frontend fingerprint component on_close) v =
    begin_acquire-Keeps y.cleaning y.cleaned frontend fingerprint component on_close y.pool v
Step-Holds (waited y key a ended) v = end_wait-Keeps y.cleaning y.cleaned key a ended y.pool v
Step-Holds (opened y key a result) v = end_acquire-Keeps y.cleaning y.cleaned key a result y.pool v
Step-Holds (releases y key a) v = release_entry-Keeps y.cleaning y.cleaned key a y.pool v
Step-Holds (session_ends y s) v = begin_close_session-Holds s y v
Step-Holds (cleans y a result h r) v =
    close_detached-Keeps (drop_one a y.cleaning) (a ∷ y.cleaned) a result y.pool
      (cleans-Inv y.pool.entries y.pool.next_address y.pool.closed y.cleaning y.cleaned a h v)
Step-Holds (closes_one y a h r) v =
    cleans-Inv y.pool.entries y.pool.next_address y.pool.closed y.cleaning y.cleaned a h v
Step-Holds (session_done y) v = v
Step-Holds (closes y) v = begin_close-Holds y v

Reach-Holds : {y z : System} → Reach y z → Holds y → Holds z
Reach-Holds here v = v
Reach-Holds (next r s) v = Step-Holds s (Reach-Holds r v)

initial-Holds : (memory : ℕ → Entry) → Holds (initial memory)
initial-Holds memory = record { once = λ a. omega arith; fresh = λ a h. refl; shut = λ h. refl }

-- In every state that the sections of the pool reach, in whatever order, no entry was cleaned up
-- twice, and an entry that `Acquire` can find is not being cleaned up and was not cleaned up.
pub cleaned-once :
    (memory : ℕ → Entry) (y : System) (a : ℕ)
    → Reach (initial memory) y
    → (count a y.cleaned ≤ 1)
      × ((key : PoolKey)
          → lookup key y.pool.entries ≡ some a
          → (count a y.cleaning ≡ 0) × (count a y.cleaned ≡ 0))
cleaned-once memory y a h =
    let v = Reach-Holds h (initial-Holds memory) in
    (
      omega (arith, v.once a),
      λ key q.
          let found = lookup-count key a y.pool.entries q in
          (omega (arith, v.once a, found), omega (arith, v.once a, found)),
    )

-- In every reachable state in which the pool is closed it has no entries, and `Acquire` refuses
-- every session.
pub closed-refuses :
    (memory : ℕ → Entry) (y : System) (frontend : ℕ) (fingerprint component : Text)
    (on_close : Bool)
    → Reach (initial memory) y
    → y.pool.closed ≡ true
    → (y.pool.entries ≡ [])
      × (begin_acquire (some frontend) fingerprint component on_close y.pool
          ≡ (y.pool, pool_closed))
unfolding begin_acquire
closed-refuses memory y frontend fingerprint component on_close h c =
    ((Reach-Holds h (initial-Holds memory)).shut c, ground (arith, c))
