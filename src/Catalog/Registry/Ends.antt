-- ===== src/Catalog/Registry/Ends.antt =====
-- The sections of catalog/registry.go that end refreshes and entries keep the invariant.
use mmmcp.Base.{
  ℕ, suc, ◌+◌, ◌≡◌, refl, sym, ap, ◌∙◌, subst, inl, inr, Bool, true, not, ◌&&◌, Bool-cases,
  Option-cases, Option, none, some, List, Text, text_eq_iff, text_keys, lookup, insert, delete,
  lookup-insert, lookup-delete, ok, err, arith,
}
use mmmcp.Catalog.{Catalog}
use mmmcp.Catalog.Registry.{close_channel, Compiled, Entry, Registry, write, is_entry, install}
use mmmcp.Catalog.Registry.Refresh.{
  finish_entry, finish_refresh, end_new, end_refresh, mark_stale, replace_entry, end_run,
}
use mmmcp.Catalog.Registry.Sound.{stale_entry-Sound, Sound, finish_entry-Sound}
use mmmcp.Catalog.Registry.System.{same_run, runs, ended}
use mmmcp.Catalog.Registry.Invariant.{Inv, runs-ended, runs-ended_other, change-Inv, install-Inv}
use mmmcp.Catalog.Registry.Steps.{Keeps, touch, fresh-Sound, Keeps-if, Either}
use mmmcp.Config.{Config}

-- The entries count by what is found in them.
same-Inv :
    (searches : Text → Bool) (entries others : List (Text × ℕ)) (memory : ℕ → Entry) (next : ℕ)
    (closed : Bool) (running : List (Text × ℕ))
    → ((f : Text) → lookup f others ≡ lookup f entries)
    → Inv searches entries memory next closed running
    → Inv searches others memory next closed running
same-Inv searches entries others memory next closed running same v = record {
  owner = v.owner;
  owned = λ f a q. v.owned f a (sym (same f) ∙ q);
  run_owned = v.run_owned;
  sound = λ f a q. v.sound f a (sym (same f) ∙ q);
}

closed-Sound :
    (search : Bool) (n m : ℕ) (closed : Bool) (e : Entry)
    → closed ≡ true
    → Sound closed search n e
    → Sound closed search m e
closed-Sound search n m closed e c v = ground arith

-- A refresh ends whose entry is not installed, or in a closed registry.
shrink-Inv :
    (searches : Text → Bool) (entries : List (Text × ℕ)) (memory : ℕ → Entry) (next : ℕ)
    (closed : Bool) (running : List (Text × ℕ)) (f : Text) (a n : ℕ)
    → runs f a running ≡ suc n
    → (lookup f entries ≡ some a → closed ≡ true)
    → Inv searches entries memory next closed running
    → Inv searches entries memory next closed (ended f a running)
shrink-Inv searches entries memory next closed running f a n h c v = record {
  owner = v.owner;
  owned = v.owned;
  run_owned = λ g b m q.
      let left = runs-ended_other f g a b n m running h q in v.run_owned g b left.0 left.1;
  sound = λ g b q. elim (Bool-cases (same_run f a (g, b))) [
    | inl w ↦
        closed-Sound (searches g) _ _ closed (memory b) (c (ground (arith, text_eq_iff g f)))
          (v.sound g b q)
    | inr w ↦
        subst (λ m. Sound closed (searches g) m (memory b))
          (sym (runs-ended f g a b n running h ∙ rw w refl)) (v.sound g b q)
  ];
}

module _ (searches : Text → Bool) where
  close_channel-Keeps :
      (r : Registry) (running : List (Text × ℕ)) (d : Option ℕ)
      → Keeps searches r running
      → Keeps searches (close_channel d r) running
  unfolding close_channel
  close_channel-Keeps r running none v = v
  close_channel-Keeps r running (some c) v = v

  finish_refresh-Keeps :
      (r : Registry) (running : List (Text × ℕ)) (f : Text) (a n : ℕ) (compiled : Compiled)
      → runs f a running ≡ suc n
      → Keeps searches r running
      → Keeps searches (finish_refresh a compiled r) (ended f a running)
  unfolding finish_refresh
  finish_refresh-Keeps r running f a n compiled h v =
      let e' : Entry = finish_entry r.closed compiled (r.memory a) in
      let finished =
        change-Inv searches r.entries r.memory r.next_address r.closed running (ended f a running) f
          a e' v (v.run_owned f a n h).0 (λ g b q. ground (arith, runs-ended f g a b n running h))
          (λ g b m q.
            let left = runs-ended_other f g a b n m running h q in v.run_owned g b left.0 left.1)
          (λ l.
            finish_entry-Sound r.closed (searches f) (runs f a running)
              (runs f a (ended f a running)) compiled (r.memory a)
              (h ∙ ap suc (sym (ground (arith, runs-ended f f a a n running h, text_eq_iff f f))))
              (v.sound f a l)) in
      Keeps-if searches ((r.memory a).config.tool_search && not (r.memory a).pending) _ _
        (ended f a running)
        (λ q. close_channel-Keeps _ (ended f a running) (r.memory a).refresh_done finished)
        (λ q. finished)

  pub end_run-Keeps :
      (r : Registry) (running : List (Text × ℕ)) (f : Text) (a n : ℕ) (compiled : Compiled)
      → runs f a running ≡ suc n
      → Keeps searches r running
      → Keeps searches (end_run f a compiled r) (ended f a running)
  unfolding end_run
  end_run-Keeps r running f a n compiled h v =
      Keeps-if searches (is_entry a (lookup f r.entries)) _ _ (ended f a running)
        (λ q. finish_refresh-Keeps r running f a n compiled h v)
        (λ q.
          shrink-Inv searches r.entries r.memory r.next_address r.closed running f a n h
            (λ l. ground (arith, l, q)) v)

  mark_stale-Keeps :
      (r : Registry) (running : List (Text × ℕ)) (f : Text)
      → Keeps searches r running
      → Keeps searches (mark_stale f r) running
  unfolding mark_stale
  mark_stale-Keeps r running f v = elim (Option-cases (lookup f r.entries)) [
    | inl q ↦ rw (q, mark_stale) v
    | inr (a, q) ↦
        rw (q, mark_stale)
          (touch searches r running a _ v
            (λ l. stale_entry-Sound r.closed _ _ (r.memory a) (v.sound (v.owner a) a l)))
  ]

  -- The new entry takes the place of the one at `a`, which changes.
  replaced-Inv :
      (r : Registry) (running : List (Text × ℕ)) (f : Text) (a : ℕ) (e e' : Entry)
      → lookup f r.entries ≡ some a
      → Sound r.closed (searches f) 0 e'
      → Keeps searches r running
      → Inv searches
          (insert f r.next_address r.entries)
          (write r.next_address e' (write a e r.memory))
          (r.next_address + 1)
          r.closed
          running
  replaced-Inv r running f a e e' q s v =
      let deleted : Inv searches (delete f r.entries) r.memory r.next_address r.closed running =
        record {
          owner = v.owner;
          owned = λ g b l. v.owned g b (ground (arith, l, lookup-delete f g r.entries));
          run_owned = v.run_owned;
          sound = λ g b l. v.sound g b (ground (arith, l, lookup-delete f g r.entries));
        } in
      let changed =
        change-Inv searches (delete f r.entries) r.memory r.next_address r.closed running running f
          a e deleted (v.owned f a q).0 (λ g b w. refl) v.run_owned
          (λ l. absurd (ground (arith, l, lookup-delete f f r.entries, text_eq_iff f f))) in
      same-Inv searches (insert f r.next_address (delete f r.entries)) _ _ _ _ _
        (λ g. ground (
          arith,
          lookup-insert f g r.next_address r.entries,
          lookup-insert f g r.next_address (delete f r.entries),
          lookup-delete f g r.entries,
        ))
        (install-Inv searches (delete f r.entries) (write a e r.memory) r.next_address r.closed
          running f e' changed s)

  replace_entry-Keeps :
      (r : Registry) (running : List (Text × ℕ)) (f : Text) (cfg : Config) (c : Catalog)
      → cfg.tool_search ≡ searches f
      → Keeps searches r running
      → Keeps searches (replace_entry f cfg c r) running
  unfolding replace_entry install
  replace_entry-Keeps r running f cfg c h v = elim (Option-cases (lookup f r.entries)) [
    | inl q ↦
        rw (q, replace_entry)
          (install-Inv searches r.entries r.memory r.next_address r.closed running f _ v
            (fresh-Sound searches r.closed true (some c) cfg f h))
    | inr (a, q) ↦
        rw (q, replace_entry)
          (close_channel-Keeps _ running (r.memory a).refresh_done (
            replaced-Inv r running f a _ _ q (fresh-Sound searches r.closed true (some c) cfg f h)
              v))
  ]

  pub end_new-Keeps :
      (r : Registry) (running : List (Text × ℕ)) (f : Text) (cfg : Config) (compiled : Compiled)
      → cfg.tool_search ≡ searches f
      → Keeps searches r running
      → Keeps searches (end_new f cfg compiled r) running
  unfolding end_new
  end_new-Keeps r running f cfg (ok c) h v = replace_entry-Keeps r running f cfg c h v
  end_new-Keeps r running f cfg (err x) h v =
      Keeps-if searches cfg.tool_search _ _ running (λ q. mark_stale-Keeps r running f v) (λ q. v)

  pub end_refresh-Keeps :
      (r : Registry) (running : List (Text × ℕ)) (f : Text) (cfg : Config) (compiled : Compiled)
      → cfg.tool_search ≡ searches f
      → Keeps searches r running
      → Keeps searches (end_refresh f cfg none compiled r).0 running
  unfolding end_refresh
  end_refresh-Keeps r running f cfg compiled h v = end_new-Keeps r running f cfg compiled h v

  pub end_begun-Keeps :
      (r : Registry) (running : List (Text × ℕ)) (f : Text) (a n : ℕ) (cfg : Config)
      (compiled : Compiled)
      → cfg.tool_search ≡ true
      → runs f a running ≡ suc n
      → Keeps searches r running
      → Keeps searches (end_refresh f cfg (some a) compiled r).0 (ended f a running)
  unfolding end_refresh
  end_begun-Keeps r running f a n cfg compiled t h v =
      Either searches (not cfg.tool_search) _ _ (ended f a running)
        (λ q. absurd (ground (arith, q, t)))
        (λ q.
          Either searches r.closed _ _ (ended f a running)
            (λ c.
              shrink-Inv searches r.entries r.memory r.next_address r.closed running f a n h
                (λ l. c) v)
            (λ c. finish_refresh-Keeps r running f a n compiled h v))
