-- ===== src/Search/Names.antt =====
-- The names of the hits that the sort of toolsearch/search.go leaves, and the pages of them.
use mmmcp.Base.{
  ◌≤◌, ◌≡◌, refl, ap, ◌∙◌, inl, inr, true, false, Bool-cases, List, [], ◌∷◌, ◌++◌, map, Text,
  text_eq, text_eq_iff, text_keys, All, arith,
}
use mmmcp.Catalog.{Document}
use mmmcp.Search.{Match, Scores, sort_matches, has_match, with_exact, is_document}
use mmmcp.Search.Ranking.{
  ranks, Ranked, Sorted, exacts, others, sort_matches-exacts, Ranked-Sorted, Sorted-append,
}
use mmmcp.Search.Pages.{without, promoted, occurrences, without-absent}

module _ (scores : Scores) where
  abbrev pub ids : List (Match scores.Score) → List Text
  ids = map (λ m. m.id)

  pub has_match-occurrences :
      (text : Text) (ms : List (Match scores.Score))
      → has_match scores text ms ≡ false
      → occurrences text (ids ms) ≡ 0
  unfolding has_match
  has_match-occurrences text [] h = refl
  has_match-occurrences text (m ∷ ms) h = ground (arith, has_match-occurrences text ms)

  pub others-without :
      (text : Text) (ms : List (Match scores.Score))
      → ids (others scores text ms) ≡ without text (ids ms)
  unfolding others
  others-without text [] = refl
  others-without text (m ∷ ms) = elim (Bool-cases (text_eq m.id text)) [
    | inl w ↦ rw (w) (others-without text ms)
    | inr w ↦ rw (w) (ap (λ l. m.id ∷ l) (others-without text ms))
  ]

  -- The other documents do not have the name of the first.
  absent :
      (text : Text) (m : Match scores.Score) (ms : List (Match scores.Score))
      → text_eq m.id text ≡ true
      → All (λ n. (ranks scores m n ≡ true) × (text_eq m.id n.id ≡ false)) ms
      → has_match scores text ms ≡ false
  unfolding has_match
  absent text m [] q h = refl
  absent text m (n ∷ ms) q h = ground (
    arith,
    absent text m ms q h.1,
    h.0,
    text_eq_iff m.id text,
    text_eq_iff n.id text,
    text_eq_iff m.id n.id,
  )

  pub Ranked-occurrences :
      (text : Text) (ms : List (Match scores.Score))
      → Ranked scores ms
      → occurrences text (ids ms) ≤ 1
  Ranked-occurrences text [] h = omega arith
  Ranked-occurrences text (m ∷ ms) h = elim (Bool-cases (text_eq m.id text)) [
    | inl w ↦ ground (arith, w, has_match-occurrences text ms (absent text m ms w h.0))
    | inr w ↦ ground (arith, w, Ranked-occurrences text ms h.1)
  ]

  pub exacts-absent :
      (text : Text) (ms : List (Match scores.Score))
      → has_match scores text ms ≡ false
      → exacts scores text ms ≡ []
  unfolding exacts has_match
  exacts-absent text [] h = refl
  exacts-absent text (m ∷ ms) h = ground (arith, exacts-absent text ms)

  pub exacts-once :
      (text : Text) (ms : List (Match scores.Score))
      → Ranked scores ms
      → has_match scores text ms ≡ true
      → ids (exacts scores text ms) ≡ text ∷ []
  unfolding exacts has_match
  exacts-once text [] h q = absurd (ground (arith, q))
  exacts-once text (m ∷ ms) h q = elim (Bool-cases (text_eq m.id text)) [
    | inl w ↦ rw (w) (
        ap (λ l. m.id ∷ ids l) (exacts-absent text ms (absent text m ms w h.0))
        ∙ ap (λ t. t ∷ []) ((text_eq_iff m.id text).0 w))
    | inr w ↦ rw (w) (exacts-once text ms h.1 (ground (arith, q, w)))
  ]

  exacts-append :
      (text : Text) (ms : List (Match scores.Score)) (e : Match scores.Score)
      → text_eq e.id text ≡ true
      → exacts scores text (ms ++ e ∷ []) ≡ exacts scores text ms ++ e ∷ []
  unfolding exacts
  exacts-append text [] e q = rw (q) refl
  exacts-append text (m ∷ ms) e q = elim (Bool-cases (text_eq m.id text)) [
    | inl w ↦ rw (w) (ap (λ l. m ∷ l) (exacts-append text ms e q))
    | inr w ↦ rw (w) (exacts-append text ms e q)
  ]

  others-append :
      (text : Text) (ms : List (Match scores.Score)) (e : Match scores.Score)
      → text_eq e.id text ≡ true
      → others scores text (ms ++ e ∷ []) ≡ others scores text ms
  unfolding others
  others-append text [] e q = rw (q) refl
  others-append text (m ∷ ms) e q = elim (Bool-cases (text_eq m.id text)) [
    | inl w ↦ rw (w) (others-append text ms e q)
    | inr w ↦ rw (w) (ap (λ l. m ∷ l) (others-append text ms e q))
  ]

  ids-append : (ms ns : List (Match scores.Score)) → ids (ms ++ ns) ≡ ids ms ++ ids ns
  ids-append [] ns = refl
  ids-append (m ∷ ms) ns = ap (λ l. m.id ∷ l) (ids-append ms ns)

  -- The names of sorted hits, from the names of those of the searched name.
  sorted :
      (text : Text) (ms : List (Match scores.Score)) (front : List Text)
      → Sorted scores text ms
      → ids (exacts scores text ms) ≡ front
      → ids (sort_matches scores text ms) ≡ front ++ without text (ids ms)
  sorted text ms front h q =
      ap ids (sort_matches-exacts scores text ms h)
      ∙ ids-append (exacts scores text ms) (others scores text ms)
      ∙ ap (λ l. l ++ ids (others scores text ms)) q
      ∙ ap (λ l. front ++ l) (others-without text ms)

  abbrev exact_match : Text → Match scores.Score
  exact_match text = record { id = text; score = scores.zero_score }

  sorted-exact :
      (text : Text) (ms : List (Match scores.Score))
      → Ranked scores ms
      → has_match scores text ms ≡ false
      → ids (sort_matches scores text (ms ++ exact_match text ∷ [])) ≡ text ∷ without text (ids ms)
  sorted-exact text ms h q =
      let same : text_eq text text ≡ true = (text_eq_iff text text).1 refl in
      let ranked =
        Sorted-append scores text ms (exact_match text) same (Ranked-Sorted scores text ms h) in
      ap ids (sort_matches-exacts scores text (ms ++ exact_match text ∷ []) ranked)
      ∙ ap (λ l. ids (l ++ others scores text (ms ++ exact_match text ∷ [])))
          (exacts-append text ms (exact_match text) same
            ∙ ap (λ l. l ++ exact_match text ∷ []) (exacts-absent text ms q))
      ∙ ap (λ l. text ∷ ids l) (others-append text ms (exact_match text) same)
      ∙ ap (λ l. text ∷ l) (others-without text ms)

  pub sort_matches-promoted :
      (text : Text) (documents : List (Text × Document)) (ms : List (Match scores.Score))
      → Ranked scores ms
      → (is_document scores text documents ≡ false → has_match scores text ms ≡ false)
      → ids (sort_matches scores text (with_exact scores text documents ms))
        ≡ promoted text (is_document scores text documents) (ids ms)
  unfolding with_exact
  sort_matches-promoted text documents ms h u =
      elim (Bool-cases (is_document scores text documents)) [
        | inr w ↦ rw (w) (
            sorted text ms [] (Ranked-Sorted scores text ms h)
              (ap ids (exacts-absent text ms (u w)))
            ∙ without-absent text (ids ms) (has_match-occurrences text ms (u w)))
        | inl w ↦ elim (Bool-cases (has_match scores text ms)) [
          | inl q ↦
              rw (w, q)
                (sorted text ms (text ∷ []) (Ranked-Sorted scores text ms h)
                  (exacts-once text ms h q))
          | inr q ↦ rw (w, q) (sorted-exact text ms h q)
        ]
      ]
