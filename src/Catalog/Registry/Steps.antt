-- ===== src/Catalog/Registry/Steps.antt =====
-- Every section of catalog/registry.go keeps the invariant of the registry.
use mmmcp.Base.{
  ℕ, ◌+◌, ◌<◌, ◌≡◌, refl, sym, ap, ◌∙◌, subst, inl, inr, Bool, true, false, not, ◌&&◌, ◌||◌,
  if◌then◌else◌, Bool-cases, Option-cases, Option, none, some, List, ◌∷◌, Text, text_keys, lookup,
  arith,
}
use mmmcp.Catalog.{Catalog}
use mmmcp.Catalog.Compiler
use mmmcp.Catalog.Registry.{
  returns, canceled, or_channel, waits, publish_open, await_open, Await, Compiled, Entry, Registry,
  write, is_none, is_entry, is_pending, is_uncached, catalog_of, failure_of, new_entry, install,
  entry_for_config, store_compiled, publish, await_refresh,
}
use mmmcp.Catalog.Registry.Refresh.{begin_entry}
use mmmcp.Catalog.Registry.Sound.{Sound, new_entry-Sound, await_entry-Sound, refresh_entry-Sound}
use mmmcp.Catalog.Registry.System.{runs}
use mmmcp.Catalog.Registry.Invariant.{
  runs-same, runs-added, runs-other, Inv, change-Inv, install-Inv, delete-Inv,
}
use mmmcp.Config.{Config}

module _ (searches : Text → Bool) where
  abbrev pub Keeps : Registry → List (Text × ℕ) → Type 0
  Keeps r running = Inv searches r.entries r.memory r.next_address r.closed running

  pub fresh-Sound :
      (closed ready : Bool) (catalog : Option Catalog) (cfg : Config) (f : Text)
      → cfg.tool_search ≡ searches f
      → Sound closed (searches f) 0 (new_entry ready catalog cfg)
  fresh-Sound closed ready catalog cfg f h =
      subst (λ s. Sound closed s 0 (new_entry ready catalog cfg)) h
        (new_entry-Sound closed ready catalog cfg)

  -- An entry changes and the refreshes that run stay.
  pub touch :
      (r : Registry) (running : List (Text × ℕ)) (a : ℕ) (e : Entry)
      → (v : Keeps r running)
      → (lookup (v.owner a) r.entries ≡ some a
          → Sound r.closed (searches (v.owner a)) (runs (v.owner a) a running) e)
      → Inv searches r.entries (write a e r.memory) r.next_address r.closed running
  touch r running a e v s =
      change-Inv searches r.entries r.memory r.next_address r.closed running running (v.owner a) a e
        v refl (λ g b q. refl) v.run_owned s

  pub entry_for_config-Keeps :
      (r : Registry) (running : List (Text × ℕ)) (f : Text) (cfg : Config)
      → cfg.tool_search ≡ searches f
      → Keeps r running
      → Keeps (entry_for_config f cfg r).0 running
  unfolding entry_for_config install
  entry_for_config-Keeps r running f cfg h v = elim (Option-cases (lookup f r.entries)) [
    | inr (a, q) ↦ rw (q, entry_for_config) v
    | inl q ↦
        rw (q, entry_for_config)
          (install-Inv searches r.entries r.memory r.next_address r.closed running f _ v
            (fresh-Sound r.closed false none cfg f h))
  ]

  stored-Sound :
      (closed search ready : Bool) (n : ℕ) (catalog : Option Catalog)
      (failure : Option Compiler.Error) (e : Entry)
      → Sound closed search n e
      → Sound closed search n (record e { ready = ready; catalog = catalog; failure = failure })
  stored-Sound closed search ready n catalog failure e v = ground arith

  pub store_compiled-Keeps :
      (r : Registry) (running : List (Text × ℕ)) (f : Text) (a : ℕ) (compiled : Compiled)
      → Keeps r running
      → Keeps (store_compiled f a compiled r) running
  unfolding store_compiled
  store_compiled-Keeps r running f a compiled v =
      let stored =
        touch r running a
          (record (r.memory a) {
            ready = true;
            catalog = catalog_of compiled;
            failure = failure_of compiled;
          })
          v (λ q. stored-Sound r.closed _ true _ _ _ _ (v.sound (v.owner a) a q)) in
      elim (Bool-cases (is_entry a (lookup f r.entries) && is_uncached compiled)) [
        | inl q ↦
            rw (q, store_compiled)
              (delete-Inv searches r.entries _ r.next_address r.closed running f stored)
        | inr q ↦ rw (q, store_compiled) stored
      ]

  pub Keeps-if :
      (b : Bool) (s t : Registry) (running : List (Text × ℕ))
      → (b ≡ true → Keeps s running)
      → (b ≡ false → Keeps t running)
      → Keeps (if b then s else t) running
  Keeps-if true s t running h k = h refl
  Keeps-if false s t running h k = k refl

  pub Either :
      {A : Type 0} (b : Bool) (s t : Registry × A) (running : List (Text × ℕ))
      → (b ≡ true → Keeps s.0 running)
      → (b ≡ false → Keeps t.0 running)
      → Keeps (if b then s else t).0 running
  Either true s t running h k = h refl
  Either false s t running h k = k refl

  -- An entry changes and one more refresh runs for it.
  pub grow :
      (r : Registry) (running : List (Text × ℕ)) (f : Text) (a : ℕ) (e : Entry)
      → (v : Keeps r running) → lookup f r.entries ≡ some a
      → Sound r.closed (searches f) (runs f a running + 1) e
      → Inv searches r.entries (write a e r.memory) r.next_address r.closed ((f, a) ∷ running)
  grow r running f a e v l s =
      change-Inv searches r.entries r.memory r.next_address r.closed running ((f, a) ∷ running) f a
        e v (v.owned f a l).0 (λ g b q. runs-other f g a b running q)
        (λ g b n q. elim (runs-added f g a b n running q) [
          | inl (p, w) ↦ (
            (ap v.owner (sym w) ∙ (v.owned f a l).0 ∙ p),
            subst (λ c. c < r.next_address) w (v.owned f a l).1,
          )
          | inr (k, w) ↦ v.run_owned g b k w
        ])
        (λ _. subst (λ n. Sound r.closed (searches f) n e) (sym (runs-same f a running)) s)

  publish_open-Keeps :
      (r : Registry) (running : List (Text × ℕ)) (f : Text) (cfg : Config) (compiled : Catalog)
      → cfg.tool_search ≡ searches f
      → Keeps r running
      → Keeps (publish_open f cfg compiled r) running
  unfolding publish_open install
  publish_open-Keeps r running f cfg compiled h v = elim (Option-cases (lookup f r.entries)) [
    | inr (a, q) ↦ rw (q, publish_open) v
    | inl q ↦ elim (Bool-cases (is_pending compiled)) [
      | inl p ↦ rw (q, publish_open, p) v
      | inr p ↦
          rw (q, publish_open, p)
            (install-Inv searches r.entries r.memory r.next_address r.closed running f _ v
              (fresh-Sound r.closed true (some compiled) cfg f h))
    ]
  ]

  pub publish-Keeps :
      (r : Registry) (running : List (Text × ℕ)) (f : Text) (cfg : Config) (compiled : Catalog)
      → cfg.tool_search ≡ searches f
      → Keeps r running
      → Keeps (publish f cfg compiled r) running
  unfolding publish
  publish-Keeps r running f cfg compiled h v =
      Keeps-if r.closed r (publish_open f cfg compiled r) running (λ c. v)
        (λ c. publish_open-Keeps r running f cfg compiled h v)

  await_open-Keeps :
      (r : Registry) (running : List (Text × ℕ)) (a : ℕ)
      → r.closed ≡ false
      → (r.memory a).stale ≡ true
      → (r.memory a).config.tool_search ≡ true
      → Keeps r running
      → Keeps (await_open a r) running
  unfolding await_open
  await_open-Keeps r running a c s t v = touch r running a _ v (λ q.
      await_entry-Sound r.closed _ _ r.next_channel (r.memory a) c s t (v.sound (v.owner a) a q))

  pub await_refresh-Keeps :
      (r : Registry) (running : List (Text × ℕ)) (a : ℕ)
      → Keeps r running
      → Keeps (await_refresh a (r.memory a).config.tool_search r).0 running
  unfolding await_refresh
  await_refresh-Keeps r running a v =
      let e = r.memory a in
      let waiting : Registry × Await =
        (await_open a r, waits (or_channel e.refresh_done r.next_channel)) in
      let open_or_closed : Registry × Await = if r.closed then (r, canceled) else waiting in
      Either (not (is_none e.failure) || not e.stale || not e.config.tool_search)
        (r, returns e.catalog e.failure) open_or_closed running (λ _. v)
        (λ q.
          Either r.closed (r, canceled) waiting running (λ _. v)
            (λ c. await_open-Keeps r running a c (ground arith) (ground arith) v))

  pub begin_entry-Keeps :
      (r : Registry) (running : List (Text × ℕ)) (f : Text) (a : ℕ)
      → r.closed ≡ false
      → searches f ≡ true
      → lookup f r.entries ≡ some a
      → Keeps r running
      → Keeps (begin_entry a r) ((f, a) ∷ running)
  unfolding begin_entry
  begin_entry-Keeps r running f a c t l v = grow r running f a _ v l (
      refresh_entry-Sound r.closed (searches f) (runs f a running) r.next_channel (r.memory a) c t
        (v.sound f a l))
