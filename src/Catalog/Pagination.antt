-- ===== src/Catalog/Pagination.antt =====
-- catalog/pagination.go: pages of the features of a catalog, by opaque cursors. The encoding of
-- cursors (JSON in base64) is a parameter.
pub mod Positions
pub mod Walk
use mmmcp.Base.{
  ℕ, zero, suc, ◌+◌, ◌-◌, min, ℤ, is_nonpositive, clamp, Bool, true, false, not, ◌||◌,
  if◌then◌else◌, ltb, is_empty, Option, none, some, List, [], ◌∷◌, length, get_elem?, take, drop,
  map, Text, text_eq, text_lt, Result, ok, err, ◌>>=◌,
}
use mmmcp.Catalog.{
  Tool, Prompt, Resource, ResourceTemplate, Catalog, tool_names, prompt_names, resource_uris,
  template_uris,
}

pub data Family : Type 0 where
  tools prompts resources resource_templates : Family

unfoldable pub same_family : Family → Family → Bool
same_family tools tools = true
same_family prompts prompts = true
same_family resources resources = true
same_family resource_templates resource_templates = true
same_family f g = false

-- `cursor`
pub record Cursor : Type 0 where
  pub catalog : Text
  pub family : Family
  pub after : Text

-- `index_out_of_range` is the panic of `identities[end-1]`.
pub data Error : Type 0 where
  invalid_cursor index_out_of_range : Error

-- `sort.SearchStrings` on ascending identities: the first one that is not below.
unfoldable pub search_strings : Text → List Text → ℕ
search_strings k [] = 0
search_strings k (t ∷ ts) = let rest = search_strings k ts in if text_lt t k then suc rest else 0

module _ (encode : Cursor → Text) (decode : Text → Option Cursor) where
  -- The position after the identity, if it is one of them.
  unfoldable pub position_after : List Text → Text → Result Error ℕ
  unfolding search_strings
  position_after identities after =
      let start = search_strings after identities in
      elim (get_elem? identities start) [
        | none ↦ err invalid_cursor
        | some found ↦ if text_eq found after then ok (start + 1) else err invalid_cursor
      ]

  -- Where the page that is asked for starts.
  unfoldable pub page_start : Text → Family → List Text → Text → Result Error ℕ
  unfolding position_after same_family
  page_start id family identities requested =
      let decoded : Result Error ℕ = elim (decode requested) [
        | none ↦ err invalid_cursor
        | some c ↦
            if not (text_eq c.catalog id) || not (same_family c.family family) || is_empty c.after
            then err invalid_cursor
            else position_after identities c.after
      ] in
      if is_empty requested then ok 0 else decoded

  -- The cursor after the page that ends before a position.
  unfoldable pub next_cursor : Text → Family → List Text → ℕ → Result Error Text
  next_cursor id family identities end =
      let encoded : Result Error Text = elim (get_elem? identities (end - 1)) [
        | none ↦ err index_out_of_range
        | some last ↦ ok (encode (record { catalog = id; family = family; after = last }))
      ] in
      if ltb end (length identities) then encoded else ok []

  unfoldable pub page_end : List Text → ℕ → ℤ → ℕ
  page_end identities start page_size =
      let size = if is_nonpositive page_size then length identities else clamp page_size in
      min (start + size) (length identities)

  -- `page`
  unfoldable pub page : Text → Family → List Text → Text → ℤ → Result Error (ℕ × ℕ × Text)
  unfolding page_start page_end next_cursor
  page id family identities requested page_size = do
    start ← page_start id family identities requested
    next ← next_cursor id family identities (page_end identities start page_size)
    ok (start, page_end identities start page_size, next)

  -- A page of features with their identities.
  unfoldable pub page_of :
      {A : Type 0} → (A → Text) → Text → Family → List A → Text → ℤ → Result Error (List A × Text)
  unfolding page
  page_of identity id family features requested page_size =
      page id family (map identity features) requested page_size >>= λ p.
      ok (take (p.1 - p.0) (drop p.0 features), p.2)

  -- `PageTools`, `PagePrompts`, `PageResources` and `PageResourceTemplates`
  unfoldable pub page_tools : Catalog → Text → ℤ → Result Error (List Tool × Text)
  unfolding page_of
  page_tools c = page_of (λ t. t.name) c.id tools c.visible_tools

  unfoldable pub page_prompts : Catalog → Text → ℤ → Result Error (List Prompt × Text)
  unfolding page_of
  page_prompts c = page_of (λ p. p.name) c.id prompts c.prompts

  unfoldable pub page_resources : Catalog → Text → ℤ → Result Error (List Resource × Text)
  unfolding page_of
  page_resources c = page_of (λ r. r.uri) c.id resources c.resources

  unfoldable pub page_resource_templates :
      Catalog → Text → ℤ → Result Error (List ResourceTemplate × Text)
  unfolding page_of
  page_resource_templates c =
      page_of (λ t. t.uri_template) c.id resource_templates c.resource_templates
