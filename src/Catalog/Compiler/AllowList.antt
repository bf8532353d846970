-- ===== src/Catalog/Compiler/AllowList.antt =====
-- The allow-list of tools of `compileTools` and `keyedOverrides` (catalog/compiler.go).
use mmmcp.Base.{
  ◌≡◌, refl, sym, subst, ◌⊎◌, inl, inr, true, false, Option, some, Option-cases, Bool-cases, List,
  [], ◌∷◌, Text, text_keys, text_eq_iff, lookup, insert, lookup-insert, arith, In, All, Result, ok,
  ◌>>=◌, IfOk, All-append, none, Bool, ◌++◌, if◌then◌else◌,
}
use mmmcp.Catalog.{Tool, ToolRoute, Catalog}
use mmmcp.Catalog.Compiler.{
  Kind, tool, Error, keyed_overrides, is_nil, listed, overridden, exposed_name, compile_loop,
  put_tool, add_tool, compile_tools,
}
use mmmcp.Catalog.Compiler.Invariant.{compile_loop-keeps, IfOk-bind, IfOk-if, All-insert}
use mmmcp.Catalog.Compiler.Loops.{IfOk-added}
use mmmcp.Config.{ToolOverride, Server}
use mmmcp.Namespace

keyed_overrides-lookup :
    {T : Type 0} (component : Text) (kind : Kind) (key : T → Text) (result m : List (Text × T))
    (values : List T) (k : Text) (o : T)
    → keyed_overrides component kind key result values ≡ ok m
    → lookup k m ≡ some o
    → (In o values × (key o ≡ k)) ⊎ (lookup k result ≡ some o)
unfolding keyed_overrides
keyed_overrides-lookup component kind key result m [] k o h e = inr (ground arith)
keyed_overrides-lookup component kind key result m (v ∷ values) k o h e =
    elim (Option-cases (lookup (key v) result)) [
      | inr (x, q) ↦ absurd (ground arith)
      | inl q ↦
          elim (keyed_overrides-lookup component kind key (insert (key v) v result) m values k o
            (ground arith) e) [
              | inl (i, n) ↦ inl (inr i, n)
              | inr w ↦ ground (arith, lookup-insert (key v) k v result, text_eq_iff (key v) k)
            ]
    ]

insert-nonempty :
    {T : Type 0} (k : Text) (v : T) (m : List (Text × T)) → is_nil (insert k v m) ≡ false
unfolding insert
insert-nonempty k v [] = refl
insert-nonempty k v ((j, w) ∷ m) = ground arith

keyed_overrides-nonempty :
    {T : Type 0} (component : Text) (kind : Kind) (key : T → Text) (result m : List (Text × T))
    (values : List T)
    → keyed_overrides component kind key result values ≡ ok m
    → (is_nil result ≡ false) ⊎ (is_nil values ≡ false)
    → is_nil m ≡ false
unfolding keyed_overrides
keyed_overrides-nonempty component kind key result m [] h n = ground arith
keyed_overrides-nonempty component kind key result m (v ∷ values) h n =
    elim (Option-cases (lookup (key v) result)) [
      | inr (x, q) ↦ absurd (ground arith)
      | inl q ↦
          keyed_overrides-nonempty component kind key (insert (key v) v result) m values
            (ground arith) (inl (insert-nonempty (key v) v result))
    ]

-- An override of the tool's own name enables it.
abbrev pub IsEnabled : List ToolOverride → Text × ToolRoute → Type 0
IsEnabled overrides e =
    (o : ToolOverride) × In o overrides × (o.name ≡ e.1.tool.name) × (o.enabled ≡ true)

-- A listed tool whose name has a route.
abbrev pub IsNamed : List (Text × ToolRoute) → Tool → Type 0
IsNamed routes t = (route : ToolRoute) × (lookup t.name routes ≡ some route)

-- A catalog whose routed tools are all enabled and that lists only routed tools.
abbrev pub OnlyEnabled : List ToolOverride → Catalog → Type 0
OnlyEnabled overrides c =
    All (IsEnabled overrides) c.tool_routes
    × All (IsNamed c.tool_routes) c.tools
    × All (IsNamed c.tool_routes) c.visible_tools

-- Tools stay routed when a name is added.
IsNamed-insert :
    (routes : List (Text × ToolRoute)) (name : Text) (route : ToolRoute) (tools : List Tool)
    → lookup name routes ≡ none
    → All (IsNamed routes) tools
    → All (IsNamed (insert name route routes)) tools
IsNamed-insert routes name route [] q h = tt
IsNamed-insert routes name route (t ∷ tools) q ((r, e), rest) = (
  (r, ground (arith, lookup-insert name t.name route routes, text_eq_iff name t.name)),
  IsNamed-insert routes name route tools q rest,
)

-- The added tool is routed too.
IsNamed-added :
    (routes : List (Text × ToolRoute)) (t : Tool) (route : ToolRoute) (tools : List Tool)
    → lookup t.name routes ≡ none
    → All (IsNamed routes) tools
    → All (IsNamed (insert t.name route routes)) (tools ++ t ∷ [])
IsNamed-added routes t route tools q h =
    All-append (IsNamed (insert t.name route routes)) tools (t ∷ [])
      (IsNamed-insert routes t.name route tools q h)
      (
        (
          route,
          ground (arith, lookup-insert t.name t.name route routes, text_eq_iff t.name t.name),
        ),
        tt,
      )

All-if :
    (P : Tool → Type 0) (b : Bool) (xs ys : List Tool)
    → All P xs
    → All P ys
    → All P (if b then xs else ys)
All-if P true xs ys h k = h
All-if P false xs ys h k = k

put_tool-OnlyEnabled :
    (server : Server) (prefix protocol name description : Text) (t : Tool) (c : Catalog)
    (o : ToolOverride)
    → In o server.tools
    → o.name ≡ t.name
    → o.enabled ≡ true
    → OnlyEnabled server.tools c
    → IfOk (OnlyEnabled server.tools) (put_tool server prefix protocol name description t c)
unfolding put_tool
put_tool-OnlyEnabled server prefix protocol name description t c o i n e (v, named, shown) =
    elim (Option-cases (lookup name c.tool_routes)) [
      | inr (r, q) ↦ rw (q, put_tool) tt
      | inl q ↦
          let clone : Tool = record t { name = name; description = description } in
          let visible = IsNamed-insert c.tool_routes name _ c.visible_tools q shown in
          rw (q, put_tool)
            (
              All-insert (IsEnabled server.tools) name _ c.tool_routes q (o, i, n, e) v,
              IsNamed-added c.tool_routes clone _ c.tools q named,
              All-if _ c.tool_search c.visible_tools _ visible
                  (IsNamed-added c.tool_routes clone _ c.visible_tools q shown),
            )
    ]

override-In :
    (server : Server) (overrides : List (Text × ToolOverride)) (k : Text) (o : ToolOverride)
    → keyed_overrides server.name tool (λ (p : ToolOverride). p.name) [] server.tools ≡ ok overrides
    → lookup k overrides ≡ some o
    → In o server.tools × (o.name ≡ k)
unfolding lookup
override-In server overrides k o h q =
    elim (keyed_overrides-lookup server.name tool (λ (p : ToolOverride). p.name) [] overrides
      server.tools k o h q) [ inl w ↦ w | inr w ↦ cc ]

add_tool-OnlyEnabled :
    (server : Server) (prefix protocol : Text) (overrides : List (Text × ToolOverride)) (t : Tool)
    (c : Catalog)
    → keyed_overrides server.name tool (λ (o : ToolOverride). o.name) [] server.tools ≡ ok overrides
    → is_nil overrides ≡ false
    → OnlyEnabled server.tools c
    → IfOk (OnlyEnabled server.tools) (add_tool server prefix protocol overrides t c)
unfolding add_tool
add_tool-OnlyEnabled server prefix protocol overrides t c h ne v =
    elim (Option-cases (lookup t.name overrides)) [
      | inl q ↦ rw (q, add_tool, ne) v
      | inr (o, q) ↦ elim (Bool-cases o.enabled) [
        | inr w ↦ rw (q, add_tool, ne, w) v
        | inl w ↦
            let (i, n) = override-In server overrides t.name o h q in
            let found = lookup t.name overrides in
            let local = overridden found (λ p. p.override_name) t.name in
            let description = overridden found (λ p. p.override_description) t.description in
            IfOk-added (OnlyEnabled server.tools) (listed overrides found)
              (exposed_name server prefix Namespace.tool local)
              (λ name. put_tool server prefix protocol name description t c) c v
              (λ name e. put_tool-OnlyEnabled server prefix protocol name description t c o i n w v)
      ]
    ]

-- With at least one tool override, the tools of a component are an allow-list: whatever the
-- component reports, into a catalog without tools `compileTools` adds only tools that an enabled
-- override names, and lists no tool, in its tools or its visible tools, whose name has no route.
pub compile_tools-OnlyEnabled :
    (server : Server) (prefix protocol : Text) (features : List (Option Tool)) (c : Catalog)
    → is_nil server.tools ≡ false
    → c.tool_routes ≡ []
    → c.tools ≡ []
    → c.visible_tools ≡ []
    → IfOk (OnlyEnabled server.tools) (compile_tools server prefix features protocol c)
unfolding compile_tools
compile_tools-OnlyEnabled server prefix protocol features c ne empty unlisted hidden =
    let v : OnlyEnabled server.tools c = (
      subst (All (IsEnabled server.tools)) (sym empty) tt,
      subst (All (IsNamed c.tool_routes)) (sym unlisted) tt,
      subst (All (IsNamed c.tool_routes)) (sym hidden) tt,
    ) in
    let overrides_of =
      keyed_overrides server.name tool (λ (o : ToolOverride). o.name) [] server.tools in
    let loop : List (Text × ToolOverride) → Result Error Catalog = λ overrides.
      compile_loop server.name tool (λ (t : Tool). t.name)
        (add_tool server prefix protocol overrides) [] features c in
    IfOk-if (OnlyEnabled server.tools) server.disable_tools (ok c) (overrides_of >>= loop) v (
      IfOk-bind (OnlyEnabled server.tools) overrides_of loop (λ overrides h.
        compile_loop-keeps (OnlyEnabled server.tools) server.name tool _ _
          (λ t d.
            add_tool-OnlyEnabled server prefix protocol overrides t d h
              (keyed_overrides-nonempty server.name tool _ [] overrides server.tools h (inr ne)))
          [] features c v))
