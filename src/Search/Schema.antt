-- ===== src/Search/Schema.antt =====
-- `schemaTerms` of toolsearch/search.go: the words of an input schema, decoded from JSON.
use mmmcp.Base.{
  ℕ, zero, suc, Bool, if◌then◌else◌, leb, Option, none, some, List, [], ◌∷◌, ◌++◌, map, length,
  String, Text, codes, contains_text,
}
use mmmcp.Catalog.{sort_by}

-- A decoded value; `scalar` is a number, a Boolean or null.
mutual
  pub data Json : Type 0 where
    object : Fields → Json
    array : Items → Json
    string : Text → Json
    scalar : Json

  pub data Fields : Type 0 where
    no_field : Fields
    field : Text → Json → Fields → Fields

  pub data Items : Type 0 where
    no_item : Items
    item : Json → Items → Items

abbrev pub max_parts : ℕ
max_parts = 256

-- The greatest depth that is visited is 12, from 0.
abbrev pub depths : ℕ
depths = 13

abbrev pub field_list : Fields → List (Text × Json)
field_list no_field = []
field_list (field name value fields) = (name, value) ∷ field_list fields

-- `slices.Sort` of the keys, which are distinct.
abbrev pub by_name : List (Text × Json) → List (Text × Json)
by_name = sort_by (λ p. p.0)

abbrev pub is_key : List String → Text → Bool
is_key names name = contains_text name (map codes names)

abbrev pub declares : Text → Bool
declares = is_key ("properties" ∷ "$defs" ∷ "definitions" ∷ [])

abbrev pub describes : Text → Bool
describes = is_key ("title" ∷ "description" ∷ [])

abbrev pub nests : Text → Bool
nests = is_key ("items" ∷ "anyOf" ∷ "oneOf" ∷ "allOf" ∷ [])

-- The parts collected so far come in and go out. A loop that is left early because there are
-- enough of them does nothing in its other rounds either.
module _ (search_text : Text → Text) where
  -- One field that a schema declares, where `walk` visits its schema.
  unfoldable pub walk_declared :
      (Json → List Text → List Text) → List (Text × Json) → List Text → List Text
  walk_declared walk [] parts = parts
  walk_declared walk ((name, value) ∷ fields) parts =
      let visited = walk value (parts ++ search_text name ∷ []) in
      walk_declared walk fields (if leb max_parts (length parts) then parts else visited)

  -- The value of a key of a schema.
  unfoldable pub walk_key : (Json → List Text → List Text) → Text → Json → List Text → List Text
  unfolding walk_declared
  walk_key walk key child parts =
      let declared : List Text = elim child as (λ c. List Text) [
        | object fields ↦ walk_declared walk (by_name (field_list fields)) parts
        | array items ↦ parts
        | string text ↦ parts
        | scalar ↦ parts
      ] in
      let described : List Text = elim child as (λ c. List Text) [
        | object fields ↦ parts
        | array items ↦ parts
        | string text ↦ parts ++ text ∷ []
        | scalar ↦ parts
      ] in
      if declares key
      then declared
      else if describes key
      then described
      else if nests key
      then walk child parts
      else parts

  unfoldable pub walk_keys :
      (Json → List Text → List Text) → List (Text × Json) → List Text → List Text
  unfolding walk_key
  walk_keys walk [] parts = parts
  walk_keys walk ((key, child) ∷ keys) parts =
      let visited = walk_key walk key child parts in
      walk_keys walk keys (if leb max_parts (length parts) then parts else visited)

  unfoldable pub walk_items : (Json → List Text → List Text) → Items → List Text → List Text
  walk_items walk no_item parts = parts
  walk_items walk (item value items) parts =
      let visited = walk value parts in
      walk_items walk items (if leb max_parts (length parts) then parts else visited)

  -- `walk`, with the depths that are left.
  unfoldable pub walk : ℕ → Json → List Text → List Text
  unfolding walk_keys walk_items
  walk zero value parts = parts
  walk (suc left) value parts =
      let visited : List Text = elim value as (λ v. List Text) [
        | object fields ↦ walk_keys (walk left) (by_name (field_list fields)) parts
        | array items ↦ walk_items (walk left) items parts
        | string text ↦ parts
        | scalar ↦ parts
      ] in
      if leb max_parts (length parts) then parts else visited

  -- `schemaTerms` until it joins the parts by spaces; a schema that is no JSON has none.
  unfoldable pub schema_terms : Option Json → List Text
  unfolding walk
  schema_terms none = []
  schema_terms (some schema) = walk depths schema []
