-- ===== src/Catalog/Rewriting.antt =====
-- catalog/rewrite.go: resource identities in the results of components.
use mmmcp.Base.{
  ℕ, ◌&&◌, if◌then◌else◌, Option, none, some, List, [], ◌∷◌, ◌++◌, map, Text, codes, is_empty,
  text_eq, text_keys,
}
use mmmcp.Catalog.{Catalog, ResourceRoute, ResourceTemplateRoute}

-- Contents of results: those that hold resource identities, and the others by a number. The number in
-- the others is for the fields that are copied; a missing link, resource or result is a nil pointer.
-- `nil_contents` is a nil slice.
mutual
  pub data Content : Type 0 where
    link : Option (Text × ℕ) → Content
    embedded : Option (Option (Text × ℕ) × ℕ) → Content
    nil_tool_result : Content
    tool_result : Contents → ℕ → Content
    unchanged : ℕ → Content

  pub data Contents : Type 0 where
    nil_contents : Contents
    no_contents : Contents
    content : Content → Contents → Contents

-- A template's `Match` and then another's `Expand`.
module _ (transfer : Text → Text → Text → Option Text) where
  -- `toComposite` and `toOriginal` of a route
  abbrev pub to_composite : ResourceTemplateRoute → Text → Option Text
  to_composite route = transfer route.original_template route.composite_template

  abbrev pub to_original : ResourceTemplateRoute → Text → Option Text
  to_original route = transfer route.composite_template route.original_template

  -- The first route of the component for the URI, in the order of the list.
  unfoldable pub find_composite : Text → Text → List (Text × ResourceRoute) → Option Text
  find_composite prefix original [] = none
  find_composite prefix original ((composite, route) ∷ routes) =
      let rest = find_composite prefix original routes in
      if text_eq route.prefix prefix && text_eq route.original_uri original
      then some composite
      else rest

  unfoldable pub find_template : Text → Text → List ResourceTemplateRoute → Option Text
  find_template prefix original [] = none
  find_template prefix original (route ∷ routes) =
      let rest = find_template prefix original routes in
      if text_eq route.prefix prefix
      then elim (to_composite route original) [ none ↦ rest | some composite ↦ some composite ]
      else rest

  -- `toCompositeURI`
  unfoldable pub to_composite_uri : Catalog → Text → Text → Text
  unfolding find_composite find_template
  to_composite_uri c prefix original = elim (find_composite prefix original c.resource_routes) [
    | some composite ↦ composite
    | none ↦ elim (find_template prefix original c.template_routes) [
      | some composite ↦ composite
      | none ↦
          if is_empty prefix then original else codes "mmmcp+" ++ prefix ++ codes ":" ++ original
    ]
  ]

  -- `rewriteOneContent` and `rewriteContent`
  unfoldable mutual
    unfolding to_composite_uri

    pub rewrite_one_content : Catalog → Text → Content → Content
    rewrite_one_content c prefix (link none) = link none
    rewrite_one_content c prefix (link (some (uri, details))) =
        link (some (to_composite_uri c prefix uri, details))
    rewrite_one_content c prefix (embedded none) = embedded none
    rewrite_one_content c prefix (embedded (some (none, details))) = embedded (some (none, details))
    rewrite_one_content c prefix (embedded (some (some (uri, more), details))) =
        embedded (some (some (to_composite_uri c prefix uri, more), details))
    rewrite_one_content c prefix nil_tool_result = nil_tool_result
    rewrite_one_content c prefix (tool_result values details) =
        tool_result (rewrite_content c prefix values) details
    rewrite_one_content c prefix (unchanged n) = unchanged n

    pub rewrite_content : Catalog → Text → Contents → Contents
    rewrite_content c prefix nil_contents = nil_contents
    rewrite_content c prefix no_contents = no_contents
    rewrite_content c prefix (content value values) =
        content (rewrite_one_content c prefix value) (rewrite_content c prefix values)

  -- `RewriteCallToolResult`, for a result with its other fields.
  unfoldable pub rewrite_call_tool_result :
      Catalog → Text → Option (Contents × ℕ) → Option (Contents × ℕ)
  unfolding rewrite_content
  rewrite_call_tool_result c prefix none = none
  rewrite_call_tool_result c prefix (some (values, details)) =
      some (rewrite_content c prefix values, details)

  abbrev pub rewrite_message : Catalog → Text → Option (Content × ℕ) → Option (Content × ℕ)
  rewrite_message c prefix none = none
  rewrite_message c prefix (some (value, details)) =
      some (rewrite_one_content c prefix value, details)

  -- `RewriteGetPromptResult`
  unfoldable pub rewrite_get_prompt_result :
      Catalog
      → Text
      → Option (List (Option (Content × ℕ)) × ℕ)
      → Option (List (Option (Content × ℕ)) × ℕ)
  unfolding rewrite_one_content
  rewrite_get_prompt_result c prefix none = none
  rewrite_get_prompt_result c prefix (some (messages, details)) =
      some (map (rewrite_message c prefix) messages, details)

  abbrev pub rewrite_resource : Catalog → Text → Option (Text × ℕ) → Option (Text × ℕ)
  rewrite_resource c prefix none = none
  rewrite_resource c prefix (some (uri, details)) = some (to_composite_uri c prefix uri, details)

  -- `RewriteReadResourceResult`
  unfoldable pub rewrite_read_resource_result :
      Catalog → Text → Option (List (Option (Text × ℕ)) × ℕ) → Option (List (Option (Text × ℕ)) × ℕ)
  unfolding to_composite_uri
  rewrite_read_resource_result c prefix none = none
  rewrite_read_resource_result c prefix (some (contents, details)) =
      some (map (rewrite_resource c prefix) contents, details)
