-- ===== src/Tests/Pages.antt =====
-- Pages of the model of catalog/pagination.go.
use mmmcp.Base.{
  ℕ, zero, suc, ◌+◌, ◌<◌, ◌-◌, ◌≡◌, refl, ap, false, is_empty, Option, none, some, List, [], ◌∷◌,
  ◌++◌, length, take, drop, get_elem?, Text, codes, pos, ok, arith,
}
use mmmcp.Catalog.Pagination.{
  Family, tools, prompts, resources, resource_templates, Cursor, page_start,
}
use mmmcp.Catalog.Pagination.Positions.{page_start-eq-ok}
use mmmcp.Catalog.Pagination.Walk.{walk, walk_visits_every}

-- A stand-in for JSON in base64: the family, the length of the catalog's id, and the two texts.
abbrev number : Family → ℕ
number tools = 0
number prompts = 1
number resources = 2
number resource_templates = 3

abbrev family_of : ℕ → Family
family_of zero = tools
family_of (suc zero) = prompts
family_of (suc (suc zero)) = resources
family_of (suc (suc (suc n))) = resource_templates

abbrev encode : Cursor → Text
encode c = number c.family ∷ length c.catalog ∷ (c.catalog ++ c.after)

abbrev decode : Text → Option Cursor
decode [] = none
decode (f ∷ []) = none
decode (f ∷ n ∷ rest) =
    some (record { catalog = take n rest; family = family_of f; after = drop n rest })

take-length-append : (s t : Text) → take (length s) (s ++ t) ≡ s
take-length-append [] t = refl
take-length-append (x ∷ s) t = rw (take-length-append s t)

drop-length-append : (s t : Text) → drop (length s) (s ++ t) ≡ t
drop-length-append [] t = refl
drop-length-append (x ∷ s) t = drop-length-append s t

family_of-number : (f : Family) → family_of (number f) ≡ f
family_of-number tools = refl
family_of-number prompts = refl
family_of-number resources = refl
family_of-number resource_templates = refl

decode-encode : (c : Cursor) → decode (encode c) ≡ some c
decode-encode c = rw (
  take-length-append c.catalog c.after,
  drop-length-append c.catalog c.after,
  family_of-number c.family,
)

abbrev names : List Text
names = codes "a" ∷ codes "b" ∷ codes "c" ∷ []

walk_visits_every_example :
    walk encode decode decode-encode (λ c. refl) (λ t. t) (codes "id") tools names (pos 2) 4 []
    ≡ some names
unfolding mmmcp.Base.text_lt
walk_visits_every_example =
    walk_visits_every encode decode decode-encode (λ c. refl) (λ t. t) (codes "id") tools names
      (pos 2) (refl, (refl, tt)) ((λ h. cc), ((λ h. cc), ((λ h. cc), tt)))

second_page :
    page_start encode decode
      (codes "id")
      tools
      names
      (encode (record { catalog = codes "id"; family = tools; after = codes "b" }))
    ≡ ok 2
unfolding page_start mmmcp.Base.text_eq mmmcp.Base.text_lt
second_page = refl

page_start-eq-ok_example :
    (c : Cursor) × (decode
        (encode (record { catalog = codes "id"; family = tools; after = codes "b" }))
      ≡ some c)
    × (c.catalog ≡ codes "id")
    × (c.family ≡ tools)
    × (0 < 2)
    × (get_elem? names (2 - 1) ≡ some c.after)
page_start-eq-ok_example =
    page_start-eq-ok encode decode (codes "id") tools names
      (encode (record { catalog = codes "id"; family = tools; after = codes "b" })) 2 (λ h. cc)
      second_page
