-- ===== src/Catalog/Dispatch.antt =====
-- Which tools the calls of catalog/tool_calls.go reach.
use mmmcp.Base.{
  ◌≡◌, ◌⊎◌, inl, inr, true, false, Bool-cases, Option-cases, some, List, [], ◌∷◌, Text, text_eq_iff,
  text_keys, lookup, arith,
}
use mmmcp.Catalog.{Tool, ToolRoute, Catalog, route_tool}
use mmmcp.Catalog.Calls.{
  routed, call_tool_name, direct_reference, route_reference, resolve_reference, resolve_tool_call,
}
use mmmcp.Search.Builder.{CallArguments, Decoder, CallResult, parse_call_arguments}

direct_reference-route :
    (digest : Text → ToolRoute → Tool → Text) (routes : List (Text × ToolRoute)) (name : Text)
    (ts : List Tool) (route : ToolRoute) (r : Text)
    → direct_reference digest routes name ts ≡ some (route, r)
    → lookup name routes ≡ some route
unfolding direct_reference
direct_reference-route digest routes name [] route r h = absurd (ground (arith, h))
direct_reference-route digest routes name (t ∷ ts) route r h =
    ground (arith, h, direct_reference-route digest routes name ts route r, text_eq_iff t.name name)

route_reference-route :
    (digest : Text → ToolRoute → Tool → Text) (name : Text) (c : Catalog) (route : ToolRoute)
    (r : Text)
    → route_reference digest name c ≡ some (route, r)
    → lookup name c.tool_routes ≡ some route
unfolding route_reference
route_reference-route digest name c route r h =
    ground (arith, h, direct_reference-route digest c.tool_routes name c.tools route r)

module _ (d : Decoder) (encode : d.Raw → Text) (digest : Text → ToolRoute → Tool → Text)
    (search : Text → CallResult) where
  resolve_reference-routed :
      (args : CallArguments d.Raw) (c : Catalog) (route : ToolRoute) (raw : d.Raw)
      → resolve_reference d encode digest search args c ≡ routed route raw
      → (route_reference digest args.name c ≡ some (route, args.revision)) × (raw ≡ args.arguments)
  unfolding resolve_reference
  resolve_reference-routed args c route raw h =
      elim (Option-cases (route_reference digest args.name c)) [
        | inl q ↦ absurd (ground (arith, h, q))
        | inr (found, q) ↦ ground (arith, h, q, text_eq_iff found.1 args.revision)
      ]

  -- Where a call reaches a component, it goes by the catalog's own route. Without tool search it is
  -- the route of the called name, with the arguments as they are. With tool search the called name
  -- is `call_tool`, and the route is that of the tool that the arguments name, whose revision is the
  -- one that they give.
  pub resolve_tool_call-routed :
      (name : Text) (arguments : d.Raw) (c : Catalog) (route : ToolRoute) (raw : d.Raw)
      → resolve_tool_call d encode digest search name arguments c ≡ some (routed route raw)
      → ((c.tool_search ≡ false) × (lookup name c.tool_routes ≡ some route) × (raw ≡ arguments))
        ⊎ ((c.tool_search ≡ true)
            × (name ≡ call_tool_name)
            × ((args : CallArguments d.Raw) × (parse_call_arguments d (encode arguments)
                  ≡ some args)
                × (lookup args.name c.tool_routes ≡ some route)
                × (route_reference digest args.name c ≡ some (route, args.revision))
                × (raw ≡ args.arguments)))
  unfolding resolve_tool_call route_tool
  resolve_tool_call-routed name arguments c route raw h = elim (Bool-cases c.tool_search) [
    | inr t ↦ inl (t, ground (arith, h, t), ground (arith, h, t))
    | inl t ↦ elim (Option-cases (parse_call_arguments d (encode arguments))) [
      | inl q ↦ absurd (ground (arith, h, t, q))
      | inr (args, q) ↦
          let called : resolve_reference d encode digest search args c ≡ routed route raw =
            ground (arith, h, t, q) in
          let found = resolve_reference-routed args c route raw called in
          inr (
            t,
            ground (arith, h, t, text_eq_iff name call_tool_name),
            (
              args,
              q,
              route_reference-route digest args.name c route args.revision found.0,
              found.0,
              found.1,
            ),
          )
    ]
  ]
