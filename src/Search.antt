-- ===== src/Search.antt =====
-- toolsearch/search.go: the search for tools and its arguments. The full-text index, JSON and
-- times are outside; a search gets the hits of the index as an argument.
pub mod Ranking
pub mod Pages
pub mod Names
pub mod Paging
pub mod Schema
pub mod Terms
pub mod Builder
use mmmcp.Base.{
  ℕ, zero, suc, ◌+◌, ◌-◌, min, Bool, true, false, not, ◌&&◌, ◌||◌, if◌then◌else◌, ◌==◌, ltb, leb,
  Option, none, some, List, [], ◌∷◌, ◌++◌, map, length, take, drop, Text, codes, text_eq, text_lt,
  text_keys, is_empty, lookup, insert, Result, ok, err, ◌>>=◌, ℤ, pos, negsuc,
}
use mmmcp.Catalog.{Tool, Document}
use mmmcp.Config.Load.{trim_space}

-- `Hit`
pub record Hit : Type 0 where
  pub reference : Text
  pub revision : Text
  pub component : Text
  pub tool : Tool

-- `Results`. A hit whose document is missing has empty fields: it is `none`.
pub record Results : Type 0 where
  pub tools : List (Option Hit)
  pub has_more : Bool

pub data Error : Type 0 where
  invalid_arguments : Error
  not_ready : Error
  canceled : Error
  index_failed : ℕ → Error

-- `New`: the documents by their names, the last one of a name.
unfoldable pub new_documents : List (Text × Document) → List Document → List (Text × Document)
new_documents by_name [] = by_name
new_documents by_name (d ∷ ds) = new_documents (insert d.exposed_name d by_name) ds

-- `Index.Revision`
unfoldable pub revision : Option (List (Text × Document)) → Text → Option Text
revision none reference = none
revision (some documents) reference = elim (lookup reference documents) [
  | none ↦ none
  | some d ↦ if text_eq d.reference reference then some d.revision else none
]

-- A hit of the index: its document and its score, for scores that are compared.
pub record Match (Score : Type 0) : Type 0 where
  pub id : Text
  pub score : Score

pub record Scores : Type 1 where
  pub Score : Type 0
  pub zero_score : Score
  pub same_score : Score → Score → Bool
  pub greater : Score → Score → Bool

-- `strings.TrimSpace(text) == "" || limit < 1 || offset < 0`
abbrev pub is_invalid : Text → ℤ → ℤ → Bool
is_invalid text (pos limit) (pos offset) = is_empty (trim_space text) || ltb limit 1
is_invalid text (negsuc limit) offset = true
is_invalid text (pos limit) (negsuc offset) = true

module _ (scores : Scores) where
  -- Whether the comparison of `Search` puts the first hit before the second.
  unfoldable pub precedes : Text → Match scores.Score → Match scores.Score → Bool
  precedes text a b =
      if text_eq a.id text
      then true
      else if text_eq b.id text
      then false
      else if not (scores.same_score a.score b.score)
      then scores.greater a.score b.score
      else text_lt a.id b.id

  -- `slices.SortStableFunc`, by insertion from the back.
  unfoldable pub insert_match :
      Text → Match scores.Score → List (Match scores.Score) → List (Match scores.Score)
  unfolding precedes
  insert_match text m [] = m ∷ []
  insert_match text m (n ∷ ns) =
      let rest = insert_match text m ns in
      if precedes text n m && not (precedes text m n) then n ∷ rest else m ∷ n ∷ ns

  unfoldable pub sort_matches : Text → List (Match scores.Score) → List (Match scores.Score)
  unfolding insert_match
  sort_matches text [] = []
  sort_matches text (m ∷ ms) = insert_match text m (sort_matches text ms)

  unfoldable pub has_match : Text → List (Match scores.Score) → Bool
  has_match text [] = false
  has_match text (m ∷ ms) = let rest = has_match text ms in text_eq m.id text || rest

  abbrev pub is_document : Text → List (Text × Document) → Bool
  is_document text documents = elim (lookup text documents) [ none ↦ false | some d ↦ true ]

  -- The hits with the document that has the text as its name.
  unfoldable pub with_exact :
      Text → List (Text × Document) → List (Match scores.Score) → List (Match scores.Score)
  unfolding has_match
  with_exact text documents ms =
      if is_document text documents && not (has_match text ms)
      then ms ++ record { id = text; score = scores.zero_score } ∷ []
      else ms

  abbrev pub page_end : ℕ → ℕ → ℕ → ℕ
  page_end limit offset n = offset + min limit (n - offset)

  -- How many hits the index is asked for.
  abbrev pub fetch_size : ℕ → ℕ → ℕ → ℕ
  fetch_size limit offset n =
      let end = page_end limit offset n in if ltb end n then end + 1 else end

  abbrev pub hit_of : List (Text × Document) → Text → Option Hit
  hit_of documents id = elim (lookup id documents) [
    | none ↦ none
    | some d ↦ some (record {
      reference = d.reference;
      revision = d.revision;
      component = d.component;
      tool = d.tool;
    })
  ]

  -- What `Search` makes of the hits of the index, sorted: the page and whether more follow.
  unfoldable pub page_of : List (Text × Document) → ℕ → ℕ → List (Match scores.Score) → Results
  page_of documents offset end sorted = record {
    tools =
        map (λ m. hit_of documents m.id)
          (take (min end (length sorted) - min offset (length sorted))
            (drop (min offset (length sorted)) sorted));
    has_more = ltb end (length sorted);
  }

  -- `Search` with valid arguments on an index that is ready: `find` runs the query of the text for
  -- so many hits.
  unfoldable pub search_ready :
      List (Text × Document)
      → (ℕ → Result ℕ (List (Match scores.Score)))
      → Text
      → ℕ
      → ℕ
      → Result Error (Results)
  unfolding page_of sort_matches with_exact
  search_ready documents find text limit offset =
      let n = length documents in
      if leb n offset
      then ok (record { tools = []; has_more = false })
      else elim (find (fetch_size limit offset n)) [
        | err e ↦ err (index_failed e)
        | ok hits ↦ ok (
            page_of documents offset (page_end limit offset n)
              (sort_matches text (with_exact text documents hits)))
      ]

  abbrev pub to_nat : ℤ → ℕ
  to_nat (pos n) = n
  to_nat (negsuc n) = 0

  -- `Search`, where `awaited` is what `await` returned.
  unfoldable pub search :
      Option Error
      → List (Text × Document)
      → (ℕ → Result ℕ (List (Match scores.Score)))
      → Text
      → ℤ
      → ℤ
      → Result Error (Results)
  unfolding search_ready
  search awaited documents find text limit offset =
      if is_invalid text limit offset then err invalid_arguments else elim awaited [
        | some e ↦ err e
        | none ↦ search_ready documents find text (to_nat limit) (to_nat offset)
      ]
