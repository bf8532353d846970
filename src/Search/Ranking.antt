-- ===== src/Search/Ranking.antt =====
-- What the sort of toolsearch/search.go makes of ranked hits: the hits of the searched name first,
-- the others in their order.
use mmmcp.Base.{
  ◌≡◌, refl, ap, ◌∙◌, inl, inr, Bool, true, false, not, if◌then◌else◌, Bool-cases, List, [], ◌∷◌,
  ◌++◌, Text, text_eq, text_lt, All, All-append, arith,
}
use mmmcp.Search.{Match, Scores, precedes, insert_match, sort_matches}

module _ (scores : Scores) where
  -- The order of the index, without the searched name.
  abbrev pub ranks : Match scores.Score → Match scores.Score → Bool
  ranks a b =
      if not (scores.same_score a.score b.score)
      then scores.greater a.score b.score
      else text_lt a.id b.id

  -- Every hit ranks before those that follow it, which are other documents.
  abbrev pub Ranked : List (Match scores.Score) → Type 0
  Ranked [] = Unit
  Ranked (m ∷ ms) = All (λ n. (ranks m n ≡ true) × (text_eq m.id n.id ≡ false)) ms × Ranked ms

  -- Hits that rank so but for those of the name.
  abbrev pub Sorted : Text → List (Match scores.Score) → Type 0
  Sorted text [] = Unit
  Sorted text (m ∷ ms) =
      All (λ n. text_eq m.id text ≡ false → text_eq n.id text ≡ false → ranks m n ≡ true) ms
      × Sorted text ms

  unfoldable pub exacts : Text → List (Match scores.Score) → List (Match scores.Score)
  exacts text [] = []
  exacts text (m ∷ ms) = let rest = exacts text ms in if text_eq m.id text then m ∷ rest else rest

  unfoldable pub others : Text → List (Match scores.Score) → List (Match scores.Score)
  others text [] = []
  others text (m ∷ ms) = let rest = others text ms in if text_eq m.id text then rest else m ∷ rest

  insert_match-exact :
      (text : Text) (m : Match scores.Score) (ms : List (Match scores.Score))
      → text_eq m.id text ≡ true
      → insert_match scores text m ms ≡ m ∷ ms
  unfolding insert_match precedes
  insert_match-exact text m [] q = refl
  insert_match-exact text m (n ∷ ns) q = ground arith

  insert_match-before :
      (text : Text) (m n : Match scores.Score) (ns : List (Match scores.Score))
      → precedes scores text m n ≡ true
      → insert_match scores text m (n ∷ ns) ≡ m ∷ n ∷ ns
  unfolding insert_match
  insert_match-before text m n ns q = ground arith

  precedes-ranks :
      (text : Text) (m n : Match scores.Score)
      → text_eq m.id text ≡ false
      → text_eq n.id text ≡ false
      → precedes scores text m n ≡ ranks m n
  unfolding precedes
  precedes-ranks text m n q w = rw (q, w) refl

  insert_match-others :
      (text : Text) (m : Match scores.Score) (ms : List (Match scores.Score))
      → text_eq m.id text ≡ false
      → All (λ n. text_eq m.id text ≡ false → text_eq n.id text ≡ false → ranks m n ≡ true) ms
      → insert_match scores text m (others text ms) ≡ m ∷ others text ms
  unfolding insert_match others
  insert_match-others text m [] q h = refl
  insert_match-others text m (o ∷ ms) q h = elim (Bool-cases (text_eq o.id text)) [
    | inl w ↦ rw (w) (insert_match-others text m ms q h.1)
    | inr w ↦
        rw (w)
          (insert_match-before text m o (others text ms) (precedes-ranks text m o q w ∙ h.0 q w))
  ]

  insert_match-skips :
      (text : Text) (m : Match scores.Score) (es ns : List (Match scores.Score))
      → text_eq m.id text ≡ false
      → All (λ e. text_eq e.id text ≡ true) es
      → insert_match scores text m ns ≡ m ∷ ns
      → insert_match scores text m (es ++ ns) ≡ es ++ m ∷ ns
  unfolding insert_match precedes
  insert_match-skips text m [] ns q e h = h
  insert_match-skips text m (o ∷ es) ns q e h =
      rw (q, e.0) (ap (λ l. o ∷ l) (insert_match-skips text m es ns q e.1 h))

  pub exacts-All :
      (text : Text) (ms : List (Match scores.Score))
      → All (λ e. text_eq e.id text ≡ true) (exacts text ms)
  unfolding exacts
  exacts-All text [] = tt
  exacts-All text (m ∷ ms) = elim (Bool-cases (text_eq m.id text)) [
    | inl w ↦ rw (w) (w, exacts-All text ms)
    | inr w ↦ rw (w) (exacts-All text ms)
  ]

  pub sort_matches-exacts :
      (text : Text) (ms : List (Match scores.Score))
      → Sorted text ms
      → sort_matches scores text ms ≡ exacts text ms ++ others text ms
  unfolding sort_matches exacts others
  sort_matches-exacts text [] h = refl
  sort_matches-exacts text (m ∷ ms) h = elim (Bool-cases (text_eq m.id text)) [
    | inl w ↦ rw (w) (
        insert_match-exact text m (sort_matches scores text ms) w
        ∙ ap (λ l. m ∷ l) (sort_matches-exacts text ms h.1))
    | inr w ↦ rw (w) (
        ap (λ l. insert_match scores text m l) (sort_matches-exacts text ms h.1)
        ∙ insert_match-skips text m (exacts text ms) (others text ms) w (exacts-All text ms)
            (insert_match-others text m ms w h.0))
  ]

  All-map :
      {P Q : Match scores.Score → Type 0} (ms : List (Match scores.Score))
      → ((m : Match scores.Score) → P m → Q m)
      → All P ms
      → All Q ms
  All-map [] f h = tt
  All-map (m ∷ ms) f h = (f m h.0, All-map ms f h.1)

  -- One more hit of the name may follow ranked hits.
  pub Ranked-Sorted : (text : Text) (ms : List (Match scores.Score)) → Ranked ms → Sorted text ms
  Ranked-Sorted text [] h = tt
  Ranked-Sorted text (m ∷ ms) h = (All-map ms (λ n p q w. p.0) h.0, Ranked-Sorted text ms h.1)

  pub Sorted-append :
      (text : Text) (ms : List (Match scores.Score)) (e : Match scores.Score)
      → text_eq e.id text ≡ true
      → Sorted text ms
      → Sorted text (ms ++ e ∷ [])
  Sorted-append text [] e q h = (tt, tt)
  Sorted-append text (m ∷ ms) e q h = (
    All-append _ ms (e ∷ []) h.0 ((λ w x. absurd (ground (arith, q, x))), tt),
    Sorted-append text ms e q h.1,
  )
