-- ===== src/Requests/Owners.antt =====
-- The servers that request_catalog.go keeps for a call of a tool.
use mmmcp.Base.{
  has_prefix, Option-cases, ◌≤◌, ◌≡◌, refl, sym, ap, ◌∙◌, inl, inr, true, Bool-cases, some, List,
  [], ◌∷◌, ◌++◌, length, length-append, In, Option, ltb, subst, ◌⊎◌, Text, codes, is_empty, ok,
  arith,
}
use mathlib.Core.List.{append-nil}
use mmmcp.Catalog.{ToolRoute}
use mmmcp.Config.{Config, Server}
use mmmcp.Namespace.{valid_rune, validate_runes, tool, prefix, named_feature, join, validate_part}
use mmmcp.Namespace.Names.{named_feature-join_iff}
use mmmcp.Requests.{trim_x, candidate, candidates, or_servers, select_owner}

trim_x-append : (a : Text) → trim_x (a ++ codes "x") ≡ a
unfolding trim_x
trim_x-append [] = refl
trim_x-append (r ∷ []) = refl
trim_x-append (r ∷ s ∷ rs) = ap (λ t. r ∷ t) (trim_x-append (s ∷ rs))

has_prefix-append : (a b : Text) → has_prefix (a ++ b) a ≡ true
unfolding has_prefix
has_prefix-append [] [] = refl
has_prefix-append [] (r ∷ b) = refl
has_prefix-append (r ∷ a) b = ground (arith, has_prefix-append a b)

join-append : (p l : Text) → join p l ≡ join p [] ++ l
unfolding join
join-append p l = elim (Bool-cases (is_empty p)) [
  | inl w ↦ rw (w) refl
  | inr w ↦ rw (w) (ap (λ t. t ++ l) (sym (append-nil _)))
]

validate_part-nonempty : (l : Text) → validate_part l ≡ ok tt → 1 ≤ length l
unfolding validate_part
validate_part-nonempty [] h = absurd (ground (arith, h))
validate_part-nonempty (r ∷ l) h = omega arith

-- The marker of a prefix that names a tool.
marker :
    (p l name : Text)
    → named_feature tool p l ≡ ok name
    → (named_feature tool p (codes "x") ≡ ok (join p (codes "x")))
      × (has_prefix name (trim_x (join p (codes "x"))) ≡ true)
unfolding validate_part validate_runes valid_rune
marker p l name h =
    let (usable, valid, e, bound) = (named_feature-join_iff tool p l name).0 h in
    let base = join p [] in
    let short : length (join p (codes "x")) ≤ 128 = omega (
      arith,
      ap length (join-append p (codes "x")),
      length-append base (codes "x"),
      ap length e,
      ap length (join-append p l),
      length-append base l,
      bound,
      validate_part-nonempty l valid,
    ) in
    let cut : trim_x (join p (codes "x")) ≡ base =
      ap trim_x (join-append p (codes "x")) ∙ trim_x-append base in
    (
      (named_feature-join_iff tool p (codes "x") (join p (codes "x"))).1
          (usable, refl, refl, short),
      ap (has_prefix name) cut
          ∙ ap (λ n. has_prefix n base) (e ∙ join-append p l)
          ∙ has_prefix-append base l,
    )

-- A server that has a prefix and a tool of the called name is kept, with that prefix, whatever
-- other servers there are.
pub candidate-owner :
    (s : Server) (p l name : Text)
    → prefix s.name s.prefix ≡ ok p
    → named_feature tool p l ≡ ok name
    → candidate true name s ≡ some (record s { prefix = p })
unfolding candidate
candidate-owner s p l name q h = let m = marker p l name h in rw (candidate, q, m.0, m.1) refl

-- Every server that has a prefix and a tool of the called name is among the candidates.
candidates-owner :
    (servers : List Server) (s : Server) (p l name : Text)
    → In s servers
    → prefix s.name s.prefix ≡ ok p
    → named_feature tool p l ≡ ok name
    → In (record s { prefix = p }) (candidates true name servers)
unfolding candidates
candidates-owner [] s p l name i q h = absurd i
candidates-owner (t ∷ servers) s p l name (inl e) q h =
    let kept : candidate true name t ≡ some (record s { prefix = p }) =
      ap (candidate true name) e ∙ candidate-owner s p l name q h in
    rw (candidates, kept) (inl refl)
candidates-owner (t ∷ servers) s p l name (inr i) q h =
    let rest = candidates-owner servers s p l name i q h in
    elim (Option-cases (candidate true name t)) [
      | inl w ↦ rw (candidates, w) rest
      | inr (c, w) ↦ rw (candidates, w) (inr rest)
    ]

In-or_servers :
    (x : Server) (servers chosen : List Server) → In x chosen → In x (or_servers servers chosen)
In-or_servers x servers [] i = absurd i
In-or_servers x servers (c ∷ chosen) i = i

-- Of a configuration with several servers, one that has a prefix and a tool of the called name is
-- discovered for the call, with that prefix; or a cached catalog routes the name, that of the whole
-- configuration or that of servers with this one among them, and then the one server of the route
-- is discovered, with the prefix of the route.
pub select_owner-owner :
    (owner : Config → Option ToolRoute) (clone : Config) (s : Server) (p l name : Text)
    → ltb 1 (length clone.servers) ≡ true
    → In s clone.servers
    → prefix s.name s.prefix ≡ ok p
    → named_feature tool p l ≡ ok name
    → In (record s { prefix = p }) (select_owner owner name clone).servers
      ⊎ ((cached : Config) × (route : ToolRoute) × (owner cached ≡ some route)
          × ((cached ≡ clone) ⊎ In (record s { prefix = p }) cached.servers)
          × ((select_owner owner name clone).servers
              ≡ record route.component { prefix = route.prefix } ∷ []))
unfolding select_owner
select_owner-owner owner clone s p l name several i q h =
    let selected : Config = record clone {
      servers =
          or_servers clone.servers (candidates (ltb 1 (length clone.servers)) name clone.servers);
    } in
    let stays : In (record s { prefix = p }) selected.servers =
      In-or_servers (record s { prefix = p }) clone.servers _
        (subst (λ b. In (record s { prefix = p }) (candidates b name clone.servers)) (sym several)
          (candidates-owner clone.servers s p l name i q h)) in
    elim (Option-cases (owner clone)) [
      | inr (route, w) ↦ inr (clone, route, w, inl refl, rw (w, select_owner) refl)
      | inl w ↦ elim (Option-cases (owner selected)) [
        | inr (route, x) ↦ inr (selected, route, x, inr stays, rw (w, x, select_owner) refl)
        | inl x ↦ inl (rw (w, x, select_owner) stays)
      ]
    ]
