-- ===== src/Tests/Searches.antt =====
-- A search of the model of toolsearch/search.go.
use mmmcp.Base.{
  text_eq_iff, ℕ, zero, suc, ◌+◌, ◌*◌, ◌≤◌, ◌<◌, ◌≡◌, refl, false, ◌==◌, ltb, some, List, [], ◌∷◌,
  map, length, take, drop, Text, codes, text_eq, text_keys, lookup, Result, ok, err, arith,
}
use mmmcp.Catalog.{Document}
use mmmcp.Search.{Match, Scores, search_ready, is_document, page_end, hit_of, has_match}
use mmmcp.Search.Pages.{promoted}
use mmmcp.Search.Names.{ids}
use mmmcp.Search.Paging.{Finds, search_ready-promoted}
use mmmcp.Search.Schema.{Json, object, field, no_field, schema_terms, max_parts}
use mmmcp.Search.Terms.{schema_terms-bounded}
use mmmcp.Search.Builder.{World, Recovers, Publishes, run, second, run-Publishes}

abbrev scores : Scores
scores = record { Score = ℕ; zero_score = 0; same_score = λ a b. a == b; greater = λ a b. ltb b a }

abbrev document : Text → Document
document name = record {
  exposed_name = name;
  component = codes "git";
  reference = name;
  revision = codes "r";
  tool = record { name = name; description = []; details = 0 };
}

-- The index finds two of three documents; the searched name is the third.
abbrev documents : List (Text × Document)
documents =
    (codes "log", document (codes "log"))
    ∷ (codes "diff", document (codes "diff"))
    ∷ (codes "show", document (codes "show"))
    ∷ []

abbrev ranking : List (Match ℕ)
ranking = record { id = codes "log"; score = 3 } ∷ record { id = codes "diff"; score = 2 } ∷ []

abbrev find : ℕ → Result ℕ (List (Match ℕ))
find n = ok (take n ranking)

known :
    (text : Text)
    → is_document scores text documents ≡ false
    → has_match scores text ranking ≡ false
unfolding has_match lookup
known text h = ground (arith, h, text_eq_iff (codes "log") text, text_eq_iff (codes "diff") text)

abbrev finds : Finds scores documents find ranking
unfolding text_eq
finds = record {
  ranked = (((refl, refl), tt), (tt, tt));
  known = known;
  fits = omega arith;
  finds = λ n. refl;
}

search_ready-promoted_example :
    let found =
      promoted (codes "show") (is_document scores (codes "show") documents) (ids scores ranking) in
    let end = page_end scores 1 1 3 in
    search_ready scores documents find (codes "show") 1 1
    ≡ ok (record {
      tools = map (hit_of scores documents) (drop 1 (take end found));
      has_more = ltb end (length found);
    })
search_ready-promoted_example =
    search_ready-promoted scores documents find ranking (codes "show") 1 1 finds (omega arith)

abbrev schema : Json
schema =
    object (
      field (codes "properties") (object (field (codes "path") (object no_field) no_field))
        no_field)

schema_terms-bounded_example : length (schema_terms (λ t. t) (some schema)) ≤ max_parts
schema_terms-bounded_example = schema_terms-bounded (λ t. t) (some schema)

-- The second attempt succeeds.
abbrev build : ℕ → Result ℕ ℕ
build zero = err 1
build (suc n) = ok 7

abbrev world : World
world = record {
  build = build;
  ended_before = λ n. false;
  ended_after = λ n. false;
  ended_waiting = λ n. false;
}

fails : (n : ℕ) → 0 ≤ n → n < 0 + 1 → (e : ℕ) × (build n ≡ err e)
fails zero l h = (1, refl)
fails (suc n) l h = absurd (omega (arith, h))

abbrev recovers : Recovers world 1 0 7
recovers = record { fails = fails; succeeds = refl; lives = λ n l h. (refl, refl, refl) }

run-Publishes_example : Publishes 7 (1 * (30 * second)) (run world 2 0 second 0)
run-Publishes_example = run-Publishes world 1 7 recovers
