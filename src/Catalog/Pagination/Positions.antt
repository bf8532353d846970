-- ===== src/Catalog/Pagination/Positions.antt =====
-- Positions in the lists that catalog/pagination.go pages through, and the cursors that it accepts.
use mmmcp.Base.{
  ℕ, zero, suc, ◌+◌, ◌-◌, ◌≤◌, ◌<◌, ◌≡◌, ◌≢◌, refl, sym, ap, ◌∙◌, inl, inr, Bool-cases,
  Option-cases, true, Option, some, List, [], ◌∷◌, length, get_elem?, take, drop, map, Text,
  text_eq, text_eq_iff, text_lt, text_lt_irrefl, text_lt_trans, ok, arith, All,
}
use mmmcp.Catalog.Pagination.{
  tools, prompts, resources, resource_templates, Family, Cursor, same_family, search_strings,
  position_after, page_start,
}
use mmmcp.Catalog.Sorting.{Ascending}

pub get_elem?-eq-some :
    {A : Type 0} (i : ℕ) (xs : List A) → i < length xs → (x : A) × (get_elem? xs i ≡ some x)
get_elem?-eq-some i [] h = absurd (omega arith)
get_elem?-eq-some zero (x ∷ xs) h = (x, refl)
get_elem?-eq-some (suc i) (x ∷ xs) h = get_elem?-eq-some i xs (omega arith)

pub All-get_elem? :
    (P : Text → Type 0) (i : ℕ) (ts : List Text) {t : Text}
    → All P ts
    → get_elem? ts i ≡ some t
    → P t
All-get_elem? P i [] h e = cc
All-get_elem? P zero (t ∷ ts) h e = ground arith
All-get_elem? P (suc i) (t ∷ ts) h e = All-get_elem? P i ts h.1 e

-- Every later identity is above the first.
Ascending-above :
    (i : ℕ) (t u : Text) (ts : List Text)
    → Ascending (t ∷ ts)
    → get_elem? ts i ≡ some u
    → text_lt t u ≡ true
Ascending-above i t u [] h e = cc
Ascending-above zero t u (v ∷ ts) h e = ground arith
Ascending-above (suc i) t u (v ∷ ts) h e = text_lt_trans t v u h.0 (Ascending-above i v u ts h.1 e)

Ascending-tail : (t : Text) (ts : List Text) → Ascending (t ∷ ts) → Ascending ts
Ascending-tail t [] h = tt
Ascending-tail t (u ∷ ts) h = h.1

-- In an ascending list the search finds each identity where it stands.
pub search_strings-get_elem? :
    (i : ℕ) (ts : List Text) (t : Text)
    → Ascending ts
    → get_elem? ts i ≡ some t
    → search_strings t ts ≡ i
unfolding search_strings
search_strings-get_elem? i [] t h e = cc
search_strings-get_elem? zero (x ∷ ts) t h e = ground (arith, text_lt_irrefl t)
search_strings-get_elem? (suc i) (x ∷ ts) t h e =
    ground
      (arith, search_strings-get_elem? i ts t (Ascending-tail x ts h), Ascending-above i x t ts h)

pub same_family_refl : (f : Family) → same_family f f ≡ true
unfolding same_family
same_family_refl tools = refl
same_family_refl prompts = refl
same_family_refl resources = refl
same_family_refl resource_templates = refl

pub take_all : {A : Type 0} (n : ℕ) (xs : List A) → length xs ≤ n → take n xs ≡ xs
take_all zero [] h = refl
take_all zero (x ∷ xs) h = absurd (omega arith)
take_all (suc n) [] h = refl
take_all (suc n) (x ∷ xs) h = rw (take_all n xs (omega arith))

pub drop_cong : {A : Type 0} (m n : ℕ) (xs : List A) → m ≡ n → drop m xs ≡ drop n xs
drop_cong m n xs h = ap (λ k. drop k xs) h

drop-nil : {A : Type 0} (n : ℕ) → ◌≡◌ {A = List A} (drop n []) []
drop-nil zero = refl
drop-nil (suc n) = refl

pub drop-drop : {A : Type 0} (m n : ℕ) (xs : List A) → drop m (drop n xs) ≡ drop (n + m) xs
drop-drop m zero xs = drop_cong m (0 + m) xs (omega arith)
drop-drop m (suc n) [] = drop-nil m ∙ sym (drop-nil (suc n + m))
drop-drop m (suc n) (x ∷ xs) =
    drop-drop m n xs ∙ drop_cong (suc (n + m)) (suc n + m) (x ∷ xs) (omega arith)

pub length-map : {A B : Type 0} (f : A → B) (xs : List A) → length (map f xs) ≡ length xs
length-map f [] = refl
length-map f (x ∷ xs) = omega (arith, length-map f xs)

same_family_sound : (f g : Family) → same_family f g ≡ true → f ≡ g
unfolding same_family
same_family_sound tools g h = ground arith
same_family_sound prompts g h = ground arith
same_family_sound resources g h = ground arith
same_family_sound resource_templates g h = ground arith

module _ (encode : Cursor → Text) (decode : Text → Option Cursor) where
  position_after-eq-ok :
      (ts : List Text) (after : Text) (start : ℕ)
      → position_after encode decode ts after ≡ ok start
      → (0 < start) × (get_elem? ts (start - 1) ≡ some after)
  unfolding position_after
  position_after-eq-ok ts after start h =
      elim (Option-cases (get_elem? ts (search_strings after ts))) [
        | inl q ↦ absurd (ground arith)
        | inr (t, q) ↦ elim (Bool-cases (text_eq t after)) [
          | inl w ↦
              let e : search_strings after ts + 1 ≡ start = ground arith in
              let back : start - 1 ≡ search_strings after ts = omega (arith, e) in
              (omega (arith, e), ap (get_elem? ts) back ∙ q ∙ ap some ((text_eq_iff t after).0 w))
          | inr w ↦ absurd (ground arith)
        ]
      ]

  -- A cursor is accepted only if it was made by this catalog and family, and the page starts
  -- right after the identity that it names.
  pub page_start-eq-ok :
      (id : Text) (family : Family) (ts : List Text) (requested : Text) (start : ℕ)
      → requested ≢ []
      → page_start encode decode id family ts requested ≡ ok start
      → (c : Cursor) × (decode requested ≡ some c)
        × (c.catalog ≡ id)
        × (c.family ≡ family)
        × (0 < start)
        × (get_elem? ts (start - 1) ≡ some c.after)
  unfolding page_start position_after
  page_start-eq-ok id family ts requested start ne h = elim (Option-cases (decode requested)) [
    | inl q ↦ absurd (ground arith)
    | inr (c, q) ↦
        let ids : text_eq c.catalog id ≡ true = ground arith in
        let families : same_family c.family family ≡ true = ground arith in
        let position : position_after encode decode ts c.after ≡ ok start = ground arith in
        (
          c,
          q,
          (text_eq_iff c.catalog id).0 ids,
          same_family_sound c.family family families,
          (position_after-eq-ok ts c.after start position).0,
          (position_after-eq-ok ts c.after start position).1,
        )
  ]
