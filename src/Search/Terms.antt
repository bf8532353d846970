-- ===== src/Search/Terms.antt =====
-- How many words toolsearch/search.go takes from a schema.
use mmmcp.Base.{
  ℕ, zero, suc, ◌≤◌, ◌<◌, ◌≡◌, refl, inl, inr, Bool, true, false, if◌then◌else◌, leb, Bool-cases,
  Option, none, some, List, [], ◌∷◌, ◌++◌, length, length-append, Text, ap, ◌∙◌, sym, arith,
}
use mathlib.Core.List.{append_assoc, append-nil}
use mmmcp.Search.Schema.{
  Json, Items, object, array, string, scalar, no_item, item, max_parts, depths, field_list, by_name,
  declares, describes, nests, walk_declared, walk_key, walk_keys, walk_items, walk, schema_terms,
}

module _ (search_text : Text → Text) where
  -- At most `max_parts` parts, the given ones first.
  pub record Collects (parts after : List Text) : Type 0 where
    pub bounded : length after ≤ max_parts
    pub added : List Text
    pub extends : after ≡ parts ++ added

  abbrev pub CollectsAlways : (Json → List Text → List Text) → Type 0
  CollectsAlways visit =
      (value : Json) (parts : List Text)
      → length parts ≤ max_parts
      → Collects parts (visit value parts)

  keeps : (parts : List Text) → length parts ≤ max_parts → Collects parts parts
  keeps parts h = record { bounded = h; added = []; extends = sym (append-nil parts) }

  adds :
      (parts : List Text) (part : Text)
      → length parts < max_parts
      → Collects parts (parts ++ part ∷ [])
  adds parts part h = record {
    bounded = omega (arith, h, length-append parts (part ∷ []));
    added = part ∷ [];
    extends = refl;
  }

  Collects-trans : {a b c : List Text} → Collects a b → Collects b c → Collects a c
  Collects-trans {a} v w = record {
    bounded = w.bounded;
    added = v.added ++ w.added;
    extends = w.extends ∙ ap (λ l. l ++ w.added) v.extends ∙ append_assoc a v.added w.added;
  }

  -- A part is visited only while there is room.
  roomy :
      (parts visited : List Text)
      → length parts ≤ max_parts
      → (length parts < max_parts → Collects parts visited)
      → Collects parts (if leb max_parts (length parts) then parts else visited)
  roomy parts visited h f = elim (Bool-cases (leb max_parts (length parts))) [
    | inl w ↦ rw (w) (keeps parts h)
    | inr w ↦ rw (w) (f (ground (arith, w)))
  ]

  walk_declared-Collects :
      (visit : Json → List Text → List Text)
      → CollectsAlways visit
      → (fields : List (Text × Json)) (parts : List Text) → length parts ≤ max_parts
      → Collects parts (walk_declared search_text visit fields parts)
  unfolding walk_declared
  walk_declared-Collects visit v [] parts h = keeps parts h
  walk_declared-Collects visit v ((name, value) ∷ fields) parts h =
      let first = roomy parts (visit value (parts ++ search_text name ∷ [])) h (λ room.
        let one = adds parts (search_text name) room in
        Collects-trans one (v value _ one.bounded)) in
      Collects-trans first (walk_declared-Collects visit v fields _ first.bounded)

  chosen :
      {parts : List Text} (b : Bool) (x y : List Text)
      → Collects parts x
      → Collects parts y
      → Collects parts (if b then x else y)
  chosen true x y v w = v
  chosen false x y v w = w

  walk_key-Collects :
      (visit : Json → List Text → List Text)
      → CollectsAlways visit
      → (key : Text) (child : Json) (parts : List Text) → length parts < max_parts
      → Collects parts (walk_key search_text visit key child parts)
  unfolding walk_key
  walk_key-Collects visit v key (object fields) parts h =
      let full : length parts ≤ max_parts = omega (arith, h) in
      let same = keeps parts full in
      chosen (declares key) _ _
        (walk_declared-Collects visit v (by_name (field_list fields)) parts full)
        (chosen (describes key) _ _ same
          (chosen (nests key) _ _ (v (object fields) parts full) same))
  walk_key-Collects visit v key (array items) parts h =
      let full : length parts ≤ max_parts = omega (arith, h) in
      let same = keeps parts full in
      chosen (declares key) _ _ same
        (chosen (describes key) _ _ same (chosen (nests key) _ _ (v (array items) parts full) same))
  walk_key-Collects visit v key (string text) parts h =
      let full : length parts ≤ max_parts = omega (arith, h) in
      let same = keeps parts full in
      chosen (declares key) _ _ same (
        chosen (describes key) _ _ (adds parts text h)
          (chosen (nests key) _ _ (v (string text) parts full) same))
  walk_key-Collects visit v key scalar parts h =
      let full : length parts ≤ max_parts = omega (arith, h) in
      let same = keeps parts full in
      chosen (declares key) _ _ same
        (chosen (describes key) _ _ same (chosen (nests key) _ _ (v scalar parts full) same))

  walk_keys-Collects :
      (visit : Json → List Text → List Text)
      → CollectsAlways visit
      → (keys : List (Text × Json)) (parts : List Text) → length parts ≤ max_parts
      → Collects parts (walk_keys search_text visit keys parts)
  unfolding walk_keys
  walk_keys-Collects visit v [] parts h = keeps parts h
  walk_keys-Collects visit v ((key, child) ∷ keys) parts h =
      let first =
        roomy parts (walk_key search_text visit key child parts) h
          (walk_key-Collects visit v key child parts) in
      Collects-trans first (walk_keys-Collects visit v keys _ first.bounded)

  walk_items-Collects :
      (visit : Json → List Text → List Text)
      → CollectsAlways visit
      → (items : Items) (parts : List Text) → length parts ≤ max_parts
      → Collects parts (walk_items search_text visit items parts)
  unfolding walk_items
  walk_items-Collects visit v no_item parts h = keeps parts h
  walk_items-Collects visit v (item value items) parts h =
      let first = roomy parts (visit value parts) h (λ room. v value parts h) in
      Collects-trans first (walk_items-Collects visit v items _ first.bounded)

  walk-Collects : (left : ℕ) → CollectsAlways (walk search_text left)
  unfolding walk
  walk-Collects zero value parts h = keeps parts h
  walk-Collects (suc left) (object fields) parts h = roomy parts _ h (λ room.
      walk_keys-Collects (walk search_text left) (walk-Collects left) (by_name (field_list fields))
        parts h)
  walk-Collects (suc left) (array items) parts h =
      roomy parts _ h
        (λ room. walk_items-Collects (walk search_text left) (walk-Collects left) items parts h)
  walk-Collects (suc left) (string text) parts h = roomy parts _ h (λ room. keeps parts h)
  walk-Collects (suc left) scalar parts h = roomy parts _ h (λ room. keeps parts h)

  -- The words of a schema are at most 256 parts, however deep and wide the schema is.
  pub schema_terms-bounded :
      (schema : Option Json) → length (schema_terms search_text schema) ≤ max_parts
  unfolding schema_terms
  schema_terms-bounded none = omega arith
  schema_terms-bounded (some schema) = (walk-Collects depths schema [] (omega arith)).bounded
