-- ===== src/Catalog/Identities.antt =====
-- The identities that catalog/rewrite.go gives to resources lead back to them.
use mmmcp.Base.{
  ◌≡◌, refl, inl, inr, true, ◌&&◌, Bool-cases, Option, some, List, [], ◌∷◌, map, Text, text_eq,
  text_eq_iff, text_keys, contains_text, Distinct, lookup, arith,
}
use mmmcp.Catalog.{Catalog, ResourceRoute, route_resource}
use mmmcp.Catalog.Rewriting.{find_composite, to_composite_uri}

-- The keys of a map.
abbrev pub keys : List (Text × ResourceRoute) → List Text
keys = map (λ e. e.0)

lookup-contains :
    (k : Text) (m : List (Text × ResourceRoute)) (r : ResourceRoute)
    → lookup k m ≡ some r
    → contains_text k (keys m) ≡ true
unfolding lookup contains_text
lookup-contains k [] r h = absurd (ground (arith, h))
lookup-contains k ((i, s) ∷ m) r h = ground (arith, lookup-contains k m r)

module _ (transfer : Text → Text → Text → Option Text) where
  find_composite-route :
      (p o : Text) (m : List (Text × ResourceRoute)) (j : Text)
      → Distinct (keys m)
      → find_composite transfer p o m ≡ some j
      → (r : ResourceRoute) × (lookup j m ≡ some r) × (r.prefix ≡ p) × (r.original_uri ≡ o)
  unfolding find_composite lookup
  find_composite-route p o [] j d h = absurd (ground (arith, h))
  find_composite-route p o ((i, r) ∷ m) j d h =
      elim (Bool-cases (text_eq r.prefix p && text_eq r.original_uri o)) [
        | inl w ↦ (
          r,
          ground (arith, h, w, text_eq_iff i j),
          ground (arith, w, text_eq_iff r.prefix p),
          ground (arith, w, text_eq_iff r.original_uri o),
        )
        | inr w ↦
            let rest = find_composite-route p o m j d.1 (ground (arith, h, w)) in
            (
              rest.0,
              ground (arith, rest.1, d.0, lookup-contains j m rest.0 rest.1, text_eq_iff i j),
              rest.2,
              rest.3,
            )
      ]

  find_composite-finds :
      (k : Text) (m : List (Text × ResourceRoute)) (r : ResourceRoute)
      → lookup k m ≡ some r
      → (j : Text) × (find_composite transfer r.prefix r.original_uri m ≡ some j)
  unfolding find_composite lookup
  find_composite-finds k [] r h = absurd (ground (arith, h))
  find_composite-finds k ((i, s) ∷ m) r h =
      elim (Bool-cases (text_eq s.prefix r.prefix && text_eq s.original_uri r.original_uri)) [
        | inl w ↦ (i, rw (w) refl)
        | inr w ↦
            let rest = find_composite-finds k m r (
              ground (
                arith,
                h,
                w,
                text_eq_iff s.prefix r.prefix,
                text_eq_iff s.original_uri r.original_uri,
              )) in
            (rest.0, rw (w) rest.1)
      ]

  -- For a resource that the catalog exposes, the identity that results get for the component's own
  -- URI is one that the catalog routes, to the same URI under the same prefix.
  pub to_composite_uri-routes :
      (c : Catalog) (k : Text) (route : ResourceRoute)
      → Distinct (keys c.resource_routes)
      → lookup k c.resource_routes ≡ some route
      → (found : ResourceRoute) × (route_resource transfer c
            (to_composite_uri transfer c route.prefix route.original_uri)
          ≡ some found)
        × (found.prefix ≡ route.prefix)
        × (found.original_uri ≡ route.original_uri)
  unfolding route_resource to_composite_uri
  to_composite_uri-routes c k route d h =
      let composite = find_composite-finds k c.resource_routes route h in
      let found =
        find_composite-route route.prefix route.original_uri c.resource_routes composite.0 d
          composite.1 in
      (found.0, rw (to_composite_uri, composite.1, route_resource, found.1) refl, found.2, found.3)
