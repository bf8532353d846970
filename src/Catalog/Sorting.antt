-- ===== src/Catalog/Sorting.antt =====
-- The sorting of catalog/catalog.go: what it keeps, and the order that it makes.
use mmmcp.Base.{
  ◌≡◌, refl, true, false, List, [], ◌∷◌, Text, text_eq_iff, text_lt, text_lt_total, contains_text,
  Distinct, map, arith,
}
use mmmcp.Catalog.{insert_sorted, sort_by}

-- Identities ascend in the order of the bytes, and no two are equal.
abbrev pub Ascending : List Text → Type 0
Ascending [] = Unit
Ascending (x ∷ []) = Unit
Ascending (x ∷ y ∷ ts) = (text_lt x y ≡ true) × Ascending (y ∷ ts)

module _ {A : Type 0} (identity : A → Text) where
  pub contains_text-insert_sorted :
      (k : Text) (a : A) (xs : List A)
      → contains_text k (map identity (insert_sorted identity a xs))
        ≡ contains_text k (identity a ∷ map identity xs)
  unfolding insert_sorted contains_text
  contains_text-insert_sorted k a [] = refl
  contains_text-insert_sorted k a (x ∷ xs) = ground (arith, contains_text-insert_sorted k a xs)

  pub contains_text-sort_by :
      (k : Text) (xs : List A)
      → contains_text k (map identity (sort_by identity xs)) ≡ contains_text k (map identity xs)
  unfolding sort_by contains_text
  contains_text-sort_by k [] = refl
  contains_text-sort_by k (x ∷ xs) =
      ground
        (arith, contains_text-sort_by k xs, contains_text-insert_sorted k x (sort_by identity xs))

  Ascending-insert_sorted :
      (a : A) (xs : List A)
      → contains_text (identity a) (map identity xs) ≡ false
      → Ascending (map identity xs)
      → Ascending (map identity (insert_sorted identity a xs))
  unfolding insert_sorted contains_text
  Ascending-insert_sorted a [] n h = tt
  Ascending-insert_sorted a (x ∷ []) n h =
      ground (arith, text_lt_total (identity x) (identity a), text_eq_iff (identity x) (identity a))
  Ascending-insert_sorted a (x ∷ y ∷ xs) n h = ground (
    arith,
    Ascending-insert_sorted a (y ∷ xs),
    text_lt_total (identity x) (identity a),
    text_eq_iff (identity x) (identity a),
  )

  pub Ascending-sort_by :
      (xs : List A) → Distinct (map identity xs) → Ascending (map identity (sort_by identity xs))
  unfolding sort_by
  Ascending-sort_by [] d = tt
  Ascending-sort_by (x ∷ xs) d = ground (
    arith,
    Ascending-sort_by xs d.1,
    contains_text-sort_by (identity x) xs,
    Ascending-insert_sorted x (sort_by identity xs),
  )
