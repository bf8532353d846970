-- ===== src/Search/Paging.antt =====
-- Every page of a search in toolsearch/search.go is cut from one ranking.
use mmmcp.Base.{
  ℕ, zero, suc, ◌+◌, ◌-◌, ◌≤◌, ◌<◌, min, ◌≡◌, refl, sym, ap, ◌∙◌, inl, inr, Bool, false,
  if◌then◌else◌, ltb, leb, Bool-cases, Option, List, [], ◌∷◌, map, length, take, drop, length-take,
  Text, text_keys, Result, ok, All, arith,
}
use mmmcp.Catalog.{Document}
use mmmcp.Search.{
  Hit, Match, Scores, Results, sort_matches, has_match, with_exact, is_document, page_end,
  fetch_size, hit_of, page_of, search_ready,
}
use mmmcp.Search.Ranking.{Ranked}
use mmmcp.Search.Pages.{
  promoted, take-long, map-take, map-drop, length-map, map-map, slice, take-promoted,
}
use mmmcp.Search.Names.{ids, Ranked-occurrences, sort_matches-promoted}

module _ (scores : Scores) where
  -- An index that ranks some of the documents, each once, and returns as many of them as it is
  -- asked for, from the first.
  pub record Finds (documents : List (Text × Document))
      (find : ℕ → Result ℕ (List (Match scores.Score))) (ms : List (Match scores.Score))
      : Type 0 where
    pub ranked : Ranked scores ms
    pub known :
        (text : Text) → is_document scores text documents ≡ false → has_match scores text ms ≡ false
    pub fits : length ms ≤ length documents
    pub finds : (n : ℕ) → find n ≡ ok (take n ms)

  All-take :
      (P : Match scores.Score → Type 0) (n : ℕ) (ms : List (Match scores.Score))
      → All P ms
      → All P (take n ms)
  All-take P zero ms h = tt
  All-take P (suc n) [] h = tt
  All-take P (suc n) (m ∷ ms) h = (h.0, All-take P n ms h.1)

  Ranked-take :
      (n : ℕ) (ms : List (Match scores.Score)) → Ranked scores ms → Ranked scores (take n ms)
  Ranked-take zero ms h = tt
  Ranked-take (suc n) [] h = tt
  Ranked-take (suc n) (m ∷ ms) h = (All-take _ n ms h.0, Ranked-take n ms h.1)

  has_match-take :
      (text : Text) (n : ℕ) (ms : List (Match scores.Score))
      → has_match scores text ms ≡ false
      → has_match scores text (take n ms) ≡ false
  unfolding has_match
  has_match-take text zero ms h = refl
  has_match-take text (suc n) [] h = refl
  has_match-take text (suc n) (m ∷ ms) h = ground (arith, has_match-take text n ms)

  -- The page is cut from the ranking that is fetched as it is from the whole one.
  module _ (text : Text) (known : Bool) (ms : List (Match scores.Score)) (end n : ℕ) where
    abbrev fetched : ℕ
    fetched = if ltb end n then end + 1 else end

    abbrev whole : List Text
    whole = promoted text known (ids scores ms)

    abbrev cut : List Text
    cut = promoted text known (ids scores (take fetched ms))

    cut-take : (e : ℕ) → e ≤ fetched → Ranked scores ms → take e cut ≡ take e whole
    cut-take e h r =
        ap (λ l. take e (promoted text known l)) (map-take (λ m. m.id) fetched ms)
        ∙ take-promoted text known e fetched (ids scores ms) h (Ranked-occurrences scores text ms r)

    has_more-cut :
        length ms ≤ n → end ≤ n → Ranked scores ms → ltb end (length cut) ≡ ltb end (length whole)
    has_more-cut h k r = elim (Bool-cases (ltb end n)) [
      | inr w ↦
          ap (λ l. ltb end (length (promoted text known (ids scores l))))
            (take-long fetched ms (ground (arith, w, h, k)))
      | inl w ↦
          let same : length (take (end + 1) cut) ≡ length (take (end + 1) whole) =
            ap length (cut-take (end + 1) (ground (arith, w)) r) in
          ground (arith, same, length-take (end + 1) cut, length-take (end + 1) whole)
    ]

  same-Results :
      {a b : List (Option Hit)} {c d : Bool}
      → a ≡ b
      → c ≡ d
      → ◌≡◌ {A = Results} (record { tools = a; has_more = c }) (record { tools = b; has_more = d })
  same-Results p q i = record { tools = p i; has_more = q i }

  -- A page of sorted hits is the part of their names.
  page_of-names :
      (documents : List (Text × Document)) (offset end : ℕ) (sorted : List (Match scores.Score))
      (names : List Text)
      → ids scores sorted ≡ names
      → offset ≤ end
      → page_of scores documents offset end sorted ≡ record {
        tools = map (hit_of scores documents) (drop offset (take end names));
        has_more = ltb end (length names);
      }
  unfolding page_of
  page_of-names documents offset end sorted names q h =
      let size : length sorted ≡ length names = sym (length-map (λ m. m.id) sorted) ∙ ap length q in
      let b = min offset (length sorted) in
      let k = min end (length sorted) - b in
      same-Results
        (map-map (λ m. m.id) (hit_of scores documents) (take k (drop b sorted))
          ∙ ap (map (hit_of scores documents)) (
              map-take (λ m. m.id) k (drop b sorted)
              ∙ ap (take k) (map-drop (λ m. m.id) b sorted ∙ ap (drop b) q)
              ∙ slice k b offset end names (ap (min offset) size) (ap (λ l. min end l - b) size) h))
        (ap (ltb end) size)

  -- For an index that finds a ranking, a search that starts before the end of the documents
  -- returns the part of one list from its offset to the end of its page, whatever the page: the
  -- ranking, with the tool that has the searched name first if there is one, even where the index
  -- does not find it. More tools follow if that list is longer.
  pub search_ready-promoted :
      (documents : List (Text × Document)) (find : ℕ → Result ℕ (List (Match scores.Score)))
      (ms : List (Match scores.Score)) (text : Text) (limit offset : ℕ)
      → Finds documents find ms
      → offset < length documents
      → let found = promoted text (is_document scores text documents) (ids scores ms) in
        let end = page_end scores limit offset (length documents) in
        search_ready scores documents find text limit offset
        ≡ ok (record {
          tools = map (hit_of scores documents) (drop offset (take end found));
          has_more = ltb end (length found);
        })
  unfolding search_ready page_of
  search_ready-promoted documents find ms text limit offset v h =
      let known = is_document scores text documents in
      let n = length documents in
      let end = page_end scores limit offset n in
      let hits = take (fetch_size scores limit offset n) ms in
      let sorted = sort_matches scores text (with_exact scores text documents hits) in
      let within : end ≤ n = omega (arith, h) in
      let names : ids scores sorted ≡ cut text known ms end n =
        sort_matches-promoted scores text documents hits (Ranked-take _ ms v.ranked)
          (λ w. has_match-take text _ ms (v.known text w)) in
      let page = page_of-names documents offset end sorted _ names (omega arith) in
      let starts : leb n offset ≡ false = ground (arith, h) in
      rw (search_ready, starts, v.finds (fetch_size scores limit offset n))
        (ap ok (
          page
          ∙ same-Results
              (ap (λ l. map (hit_of scores documents) (drop offset l))
                (cut-take text known ms end n end (ground arith) v.ranked))
              (has_more-cut text known ms end n v.fits within v.ranked)))
