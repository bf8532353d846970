-- ===== src/Catalog/Registry/Closing.antt =====
-- `InvalidateComponent` and `Close` of catalog/registry.go keep the invariant, so that every
-- reachable state has it.
use mmmcp.Base.{
  ℕ, suc, ◌<◌, ◌≡◌, refl, sym, subst, inl, inr, Bool, true, false, ◌==◌, Bool-cases, Option-cases,
  Option, none, some, List, [], ◌∷◌, Text, text_eq_iff, text_keys, lookup, delete, lookup-delete,
  arith,
}
use mmmcp.Catalog.Registry.{close_channel, Entry, Registry, write}
use mmmcp.Catalog.Registry.Refresh.{
  invalidate_component, has_server, invalidate_round, close_loop, close_entry, invalidate_entry,
  invalidate_loop, close,
}
use mmmcp.Catalog.Registry.Sound.{close_entry-Sound, Sound}
use mmmcp.Catalog.Registry.System.{
  System, Step, Reach, initial, gets, stores, publishes, awaits, begins, ends_begun, ends_new,
  requests, fires, ends_run, invalidates, closes, here, next, runs,
}
use mmmcp.Catalog.Registry.Invariant.{Inv, change-Inv}
use mmmcp.Catalog.Registry.Begins.{
  Holds, begin_refresh-Holds, request_refresh-Keeps, run_refresh-Holds,
}
use mmmcp.Catalog.Registry.Steps.{
  Keeps, Keeps-if, entry_for_config-Keeps, store_compiled-Keeps, publish-Keeps, await_refresh-Keeps,
}
use mmmcp.Catalog.Registry.Ends.{end_begun-Keeps, end_refresh-Keeps, end_run-Keeps}

invalidated-Keeps :
    (searches : Text → Bool) (r : Registry) (entries : List (Text × ℕ)) (running : List (Text × ℕ))
    (d : Option ℕ)
    → Inv searches entries r.memory r.next_address r.closed running
    → Keeps searches (record (close_channel d r) { entries = entries }) running
unfolding close_channel
invalidated-Keeps searches r entries running none v = v
invalidated-Keeps searches r entries running (some c) v = v

-- The entry changes that is no longer installed.
invalidate_entry-Keeps :
    (searches : Text → Bool) (r : Registry) (running : List (Text × ℕ)) (f : Text) (a : ℕ)
    → lookup f r.entries ≡ some a
    → Keeps searches r running
    → Keeps searches (invalidate_entry f a r) running
unfolding invalidate_entry
invalidate_entry-Keeps searches r running f a q v =
    invalidated-Keeps searches _ (delete f r.entries) running (r.memory a).refresh_done (
      change-Inv searches (delete f r.entries) r.memory r.next_address r.closed running running f a
        (record (r.memory a) { refresh_done = none })
        (record {
          owner = v.owner;
          owned = λ g b l. v.owned g b (ground (arith, l, lookup-delete f g r.entries));
          run_owned = v.run_owned;
          sound = λ g b l. v.sound g b (ground (arith, l, lookup-delete f g r.entries));
        })
        (v.owned f a q).0 (λ g b w. refl) v.run_owned
        (λ l. absurd (ground (arith, l, lookup-delete f f r.entries, text_eq_iff f f))))

invalidate_loop-Keeps :
    (searches : Text → Bool) (running : List (Text × ℕ)) (name : Text) (es : List (Text × ℕ))
    (r : Registry)
    → Keeps searches r running
    → Keeps searches (invalidate_loop name es r) running
unfolding invalidate_loop invalidate_round
invalidate_loop-Keeps searches running name [] r v = v
invalidate_loop-Keeps searches running name ((f, a) ∷ es) r v =
    invalidate_loop-Keeps searches running name es _ (elim (Option-cases (lookup f r.entries)) [
      | inl q ↦ rw (q, invalidate_round) v
      | inr (b, q) ↦
          rw (q, invalidate_round)
            (Keeps-if searches (has_server name (r.memory b).config.servers) _ r running
              (λ w. invalidate_entry-Keeps searches r running f b q v) (λ w. v))
    ])

-- A registry that closes: the entries of the keys left are sound in an open registry or a closed
-- one, the others in a closed one.
record Mid (searches : Text → Bool) (running : List (Text × ℕ)) (left : List (Text × ℕ))
    (r : Registry) : Type 0 where
  owner : ℕ → Text
  owned : (f : Text) (a : ℕ) → lookup f r.entries ≡ some a → (owner a ≡ f) × (a < r.next_address)
  run_owned : (f : Text) (a n : ℕ) → runs f a running ≡ suc n → (owner a ≡ f) × (a < r.next_address)
  is_closed : r.closed ≡ true
  weak :
      (f : Text) (a : ℕ)
      → lookup f r.entries ≡ some a
      → (c : Bool) × Sound c (searches f) (runs f a running) (r.memory a)
  strong :
      (f : Text) (a : ℕ)
      → lookup f r.entries ≡ some a
      → lookup f left ≡ none
      → Sound true (searches f) (runs f a running) (r.memory a)

close_channel-Mid :
    (searches : Text → Bool) (running left : List (Text × ℕ)) (r : Registry) (d : Option ℕ)
    → Mid searches running left r
    → Mid searches running left (close_channel d r)
unfolding close_channel
close_channel-Mid searches running left r none v = v
close_channel-Mid searches running left r (some c) v = record {
  owner = v.owner;
  owned = v.owned;
  run_owned = v.run_owned;
  is_closed = v.is_closed;
  weak = v.weak;
  strong = v.strong;
}

-- The entry at the address that a key has, closed or as it was.
closed-Sound :
    (memory : ℕ → Entry) (closed search : Bool) (n a b : ℕ)
    → (a == b) ≡ true
    → Sound closed search n (memory b)
    → Sound true search n
        (write a (record (memory a) { refresh_done = none; timer = false }) memory b)
unfolding write
closed-Sound memory closed search n a b w s = rw (w) (
    close_entry-Sound closed search n (memory a)
      (subst (λ c. Sound closed search n (memory c)) (sym (ground (arith, w))) s))

close_entry-Mid :
    (searches : Text → Bool) (running left : List (Text × ℕ)) (r : Registry) (f : Text) (a b : ℕ)
    → lookup f r.entries ≡ some b
    → Mid searches running ((f, a) ∷ left) r
    → Mid searches running left (close_entry b r)
unfolding close_entry lookup write
close_entry-Mid searches running left r f a b q v =
    close_channel-Mid searches running left _ (r.memory b).refresh_done (record {
      owner = v.owner;
      owned = v.owned;
      run_owned = v.run_owned;
      is_closed = v.is_closed;
      weak = λ g c l. elim (Bool-cases (b == c)) [
        | inl w ↦ (true, closed-Sound r.memory _ (searches g) _ b c w (v.weak g c l).1)
        | inr w ↦ ((v.weak g c l).0, rw (w) (v.weak g c l).1)
      ];
      strong = λ g c l m. elim (Bool-cases (b == c)) [
        | inl w ↦ closed-Sound r.memory _ (searches g) _ b c w (v.weak g c l).1
        | inr w ↦ rw (w) (v.strong g c l (ground (arith, text_eq_iff f g)))
      ];
    })

missing-Mid :
    (searches : Text → Bool) (running left : List (Text × ℕ)) (r : Registry) (f : Text) (a : ℕ)
    → lookup f r.entries ≡ none
    → Mid searches running ((f, a) ∷ left) r
    → Mid searches running left r
unfolding lookup
missing-Mid searches running left r f a q v = record {
  owner = v.owner;
  owned = v.owned;
  run_owned = v.run_owned;
  is_closed = v.is_closed;
  weak = v.weak;
  strong = λ g c l m. v.strong g c l (ground (arith, text_eq_iff f g));
}

close_loop-Mid :
    (searches : Text → Bool) (running left : List (Text × ℕ)) (r : Registry)
    → Mid searches running left r
    → Mid searches running [] (close_loop left r)
unfolding close_loop
close_loop-Mid searches running [] r v = v
close_loop-Mid searches running ((f, a) ∷ es) r v =
    close_loop-Mid searches running es _ (elim (Option-cases (lookup f r.entries)) [
      | inl q ↦ rw (q) (missing-Mid searches running es r f a q v)
      | inr (b, q) ↦ rw (q) (close_entry-Mid searches running es r f a b q v)
    ])

pub close-Keeps :
    (searches : Text → Bool) (r : Registry) (running : List (Text × ℕ))
    → Keeps searches r running
    → Keeps searches (close r) running × ((close r).closed ≡ true)
unfolding close lookup
close-Keeps searches r running v =
    let done =
      close_loop-Mid searches running r.entries (record r { closed = true })
        (record {
          owner = v.owner;
          owned = v.owned;
          run_owned = v.run_owned;
          is_closed = refl;
          weak = λ f a q. (r.closed, v.sound f a q);
          strong = λ f a q m. absurd (ground (arith, q, m));
        }) in
    (
      record {
        owner = done.owner;
        owned = done.owned;
        run_owned = done.run_owned;
        sound = λ f a q.
            subst (λ c. Sound c (searches f) (runs f a running) ((close r).memory a))
              (sym done.is_closed) (done.strong f a q refl);
      },
      done.is_closed,
    )

module _ (searches : Text → Bool) where
  pub Step-Holds : {y z : System} → Step searches y z → Holds searches y → Holds searches z
  unfolding invalidate_component
  Step-Holds (gets y f cfg h) v = entry_for_config-Keeps searches y.registry y.running f cfg h v
  Step-Holds (stores y f a compiled) v =
      store_compiled-Keeps searches y.registry y.running f a compiled v
  Step-Holds (publishes y f cfg compiled h) v =
      publish-Keeps searches y.registry y.running f cfg compiled h v
  Step-Holds (awaits y a) v = await_refresh-Keeps searches y.registry y.running a v
  Step-Holds (begins y f) v = begin_refresh-Holds searches y.registry y.running f v
  Step-Holds (ends_begun y f a n cfg compiled t s h) v =
      end_begun-Keeps searches y.registry y.running f a n cfg compiled t h v
  Step-Holds (ends_new y f cfg compiled h) v =
      end_refresh-Keeps searches y.registry y.running f cfg compiled h v
  Step-Holds (requests y f callback) v =
      request_refresh-Keeps searches y.registry y.running f callback v
  Step-Holds (fires y f) v = run_refresh-Holds searches y.registry y.running f v
  Step-Holds (ends_run y f a n compiled h) v =
      end_run-Keeps searches y.registry y.running f a n compiled h v
  Step-Holds (invalidates y name) v =
      invalidate_loop-Keeps searches y.running name y.registry.entries y.registry v
  Step-Holds (closes y) v = (close-Keeps searches y.registry y.running v).0

  pub Reach-Holds : {y z : System} → Reach searches y z → Holds searches y → Holds searches z
  Reach-Holds here v = v
  Reach-Holds (next r s) v = Step-Holds s (Reach-Holds r v)

  pub initial-Holds : (memory : ℕ → Entry) → Holds searches (initial memory)
  unfolding lookup runs
  initial-Holds memory = record {
    owner = λ a. [];
    owned = λ f a q. absurd (ground (arith, q));
    run_owned = λ f a n q. absurd (ground (arith, q));
    sound = λ f a q. absurd (ground (arith, q));
  }
