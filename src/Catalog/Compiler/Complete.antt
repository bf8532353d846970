-- ===== src/Catalog/Compiler/Complete.antt =====
-- What `compile` (catalog/compiler.go) promises of the catalogs that it returns.
use mmmcp.Base.{
  ◌≡◌, refl, ◌∙◌, ap, subst, inl, inr, Bool, true, false, Option, none, some, Option-cases,
  Bool-cases, List, [], ◌∷◌, Text, text_keys, text_eq_iff, contains_text, lookup, map, arith,
  Result, ok, err, ◌>>=◌, IfOk, leb, length,
}
use mmmcp.Catalog.{Tool, ToolRoute, Document, Implementation, Catalog, tool_names}
use mmmcp.Catalog.Compiler.{Error, Owned, is_nil}
use mmmcp.Catalog.Compiler.Components.{
  Component, Outcome, compile_components, finish_compile, new_catalog, compile, search_documents,
  document, index_catalog, new_compile_catalog, pending_catalog, pending_names, takes_reserved,
  compile_prefixes, discover_components, single_server_info, sorted,
}
use mmmcp.Catalog.Compiler.Invariant.{IsRouted, IsOwned, IfOk-bind}
use mmmcp.Catalog.Compiler.Keys.{is_some}
use mmmcp.Catalog.Compiler.Routes.{IsComplete, new_catalog-IsComplete, compile_components-IsOwned}
use mmmcp.Config.{Server, Config}

-- The search index, where there is one, has a document for each tool, in the order of the tools.
abbrev pub Indexes : Bool → Catalog → Type 0
Indexes false c = c.search_index ≡ none
Indexes true c =
    (documents : List Document) × (c.search_index ≡ some documents)
    × (map (λ d. d.exposed_name) documents ≡ tool_names c.tools)

-- What `compile` promises unless components wait for authorization.
abbrev pub Ready : Bool → Catalog → Type 0
Ready searches c = c.pending_authorization ≡ [] → IsComplete c × Indexes searches c

IfOk-weaken :
    {A : Type 0} {P Q : A → Type 0} (m : Result Error A)
    → ((a : A) → P a → Q a)
    → IfOk P m
    → IfOk Q m
IfOk-weaken (ok a) f h = f a h
IfOk-weaken (err e) f h = tt

module _ (snapshot_id : Catalog → Option Text) (revision : Text → Text → Text → Tool → Text) where
  -- The documents of the tools.
  abbrev Covered : List (Text × ToolRoute) → List Tool → Type 0
  Covered routes tools =
      (documents : List Document) × (search_documents snapshot_id revision routes tools
        ≡ ok documents)
      × (map (λ d. d.exposed_name) documents ≡ tool_names tools)

  search_documents-cons :
      (routes : List (Text × ToolRoute)) (t : Tool) (ts : List Tool) (r : ToolRoute)
      → lookup t.name routes ≡ some r
      → Covered routes ts
      → Covered routes (t ∷ ts)
  unfolding search_documents
  search_documents-cons routes t ts r q (documents, e, names) = (
    document snapshot_id revision t r ∷ documents,
    rw (q, e, search_documents) refl,
    ap (λ rest. t.name ∷ rest) names,
  )

  search_documents-covers :
      (routes : List (Text × ToolRoute)) (tools : List Tool)
      → ((name : Text)
          → contains_text name (tool_names tools) ≡ true
          → is_some (lookup name routes) ≡ true)
      → Covered routes tools
  unfolding search_documents contains_text
  search_documents-covers routes [] h = ([], refl, refl)
  search_documents-covers routes (t ∷ ts) h = elim (Option-cases (lookup t.name routes)) [
    | inl q ↦ absurd (ground (arith, h t.name, text_eq_iff t.name t.name))
    | inr (r, q) ↦
        search_documents-cons routes t ts r q
          (search_documents-covers routes ts (λ name m. ground (arith, h name)))
  ]

  IsComplete-indexed :
      (c : Catalog) (index : Option (List Document))
      → IsComplete c
      → IsComplete (record c { search_index = index })
  IsComplete-indexed c index v = record {
    tools_listed = v.tools_listed;
    tools_ascend = v.tools_ascend;
    tools_named = v.tools_named;
    visible = v.visible;
    prompts_listed = v.prompts_listed;
    prompts_ascend = v.prompts_ascend;
    prompts_named = v.prompts_named;
    resources_listed = v.resources_listed;
    resources_ascend = v.resources_ascend;
    templates_ascend = v.templates_ascend;
  }

  index_catalog-Covered :
      (c : Catalog)
      → IsComplete c
      → Covered c.tool_routes c.tools
      → IfOk (λ d. IsComplete d × Indexes true d) (index_catalog snapshot_id revision true c)
  unfolding index_catalog
  index_catalog-Covered c v (documents, e, names) =
      rw (e, index_catalog) (IsComplete-indexed c (some documents) v, (documents, refl, names))

  index_catalog-Indexes :
      (searches : Bool) (c : Catalog)
      → IsComplete c
      → c.search_index ≡ none
      → IfOk
          (λ d. IsComplete d × Indexes searches d)
          (index_catalog snapshot_id revision searches c)
  unfolding index_catalog
  index_catalog-Indexes false c v n = (v, n)
  index_catalog-Indexes true c v n = index_catalog-Covered c v (
      search_documents-covers c.tool_routes c.tools (λ name h. ground (arith, v.tools_listed name)))

  new_catalog-keeps :
      (c : Catalog)
      → IfOk
          (λ d.
            (d.search_index ≡ c.search_index) × (d.pending_authorization ≡ c.pending_authorization))
          (new_catalog snapshot_id revision c)
  unfolding new_catalog sorted
  new_catalog-keeps c = elim (Option-cases (snapshot_id (sorted snapshot_id revision c))) [
    | inl q ↦ rw (q, new_catalog) tt
    | inr (id, q) ↦ rw (q, new_catalog) (refl, refl)
  ]

  complete-Ready :
      (searches : Bool) (owners : List (Text × Text)) (c : Catalog)
      → IsRouted owners c
      → IfOk
          (Ready searches)
          (new_catalog snapshot_id revision c >>= index_catalog snapshot_id revision searches)
  complete-Ready searches owners c v =
      IfOk-bind (Ready searches) (new_catalog snapshot_id revision c)
        (index_catalog snapshot_id revision searches)
        (λ d e.
          let whole =
            subst (IfOk IsComplete) e (new_catalog-IsComplete snapshot_id revision owners c v) in
          let kept = subst (IfOk _) e (new_catalog-keeps c) in
          IfOk-weaken (index_catalog snapshot_id revision searches d) (λ x h p. h)
            (index_catalog-Indexes searches d whole (kept.0 ∙ v.unindexed)))

  pending-Ready :
      (searches : Bool) (pending : List Text) (c : Catalog)
      → is_nil pending ≡ false
      → IfOk
          (Ready searches)
          (new_catalog snapshot_id revision (pending_catalog snapshot_id revision pending c))
  unfolding pending_catalog
  pending-Ready searches pending c h =
      IfOk-weaken
        (new_catalog snapshot_id revision (pending_catalog snapshot_id revision pending c))
        (λ d k p. absurd (ground arith))
        (new_catalog-keeps (pending_catalog snapshot_id revision pending c))

  pub finish_compile-Ready :
      (cfg : Config) (components : List Component) (owners : List (Text × Text)) (c : Catalog)
      → IsRouted owners c
      → IfOk (Ready cfg.tool_search) (finish_compile snapshot_id revision cfg components c)
  unfolding finish_compile
  finish_compile-Ready cfg components owners c v =
      let pending = pending_names components in
      elim (Bool-cases (takes_reserved snapshot_id revision cfg c)) [
        | inl t ↦ rw (t, finish_compile) tt
        | inr t ↦ elim (Bool-cases (is_nil pending)) [
          | inl q ↦ rw (t, q, finish_compile) (complete-Ready cfg.tool_search owners c v)
          | inr q ↦ rw (t, q, finish_compile) (pending-Ready cfg.tool_search pending c q)
        ]
      ]

module _ (url_scheme : Text → Option Text) (template_parses : Text → Bool)
    (snapshot_id : Catalog → Option Text) (revision : Text → Text → Text → Tool → Text)
    (discover : Server → Outcome) where
  start-IsOwned :
      (searches : Bool) (info : Option Implementation)
      → IsOwned (record (new_compile_catalog searches) { server_info = info }, [])
  unfolding new_compile_catalog
  start-IsOwned searches info = record {
    tools = (refl, tt);
    tools_named = tt;
    visible = λ h. ground arith;
    prompts = (refl, tt);
    prompts_named = tt;
    resources = (refl, tt);
    templates = (refl, tt);
    unindexed = refl;
  }

  -- A catalog that `compile` returns with no component waiting for authorization lists tools,
  -- prompts and resources in ascending order and without repetition, exactly those that are routed;
  -- each tool and prompt has a name that its route's prefix gives to a local name; without tool
  -- search every tool is visible, and with it the index has a document for each tool, in order.
  pub compile-Ready :
      (defer : Bool) (cfg : Config)
      → IfOk
          (Ready cfg.tool_search)
          (compile snapshot_id revision url_scheme template_parses discover defer cfg)
  unfolding compile
  compile-Ready defer cfg =
      IfOk-bind _ (compile_prefixes (leb (length cfg.servers) 1) cfg.servers) _ (λ prefixed h₁.
        IfOk-bind _ (discover_components url_scheme template_parses discover defer prefixed) _
          (λ components h₂.
            let start : Owned = (
              record (new_compile_catalog cfg.tool_search) {
                server_info = single_server_info components;
              },
              [],
            ) in
            IfOk-bind _ (compile_components url_scheme template_parses components start) _
              (λ compiled h₃.
                finish_compile-Ready snapshot_id revision cfg components compiled.1 compiled.0 (
                  subst (IfOk IsOwned) h₃ (
                    compile_components-IsOwned url_scheme template_parses components start
                      (start-IsOwned cfg.tool_search (single_server_info components)))))))
