-- ===== src/Search/Pages.antt =====
-- Every page of a search in toolsearch/search.go is a part of one ranking.
use mmmcp.Base.{
  ℕ, zero, suc, ◌+◌, ◌-◌, ◌≤◌, ◌<◌, min, ◌≡◌, refl, sym, ap, ◌∙◌, inl, inr, Bool, true, false,
  if◌then◌else◌, leb, Bool-cases, List, [], ◌∷◌, map, length, take, drop, Text, text_eq, text_keys,
  arith,
}

-- The names but for one.
abbrev pub without : Text → List Text → List Text
without text [] = []
without text (id ∷ ids) = let rest = without text ids in if text_eq id text then rest else id ∷ rest

-- The ranking that the pages show: the searched name first, if a tool has it.
abbrev pub promoted : Text → Bool → List Text → List Text
promoted text true ids = text ∷ without text ids
promoted text false ids = ids

abbrev pub occurrences : Text → List Text → ℕ
occurrences text [] = 0
occurrences text (id ∷ ids) =
    let rest = occurrences text ids in if text_eq id text then rest + 1 else rest

take-take : {A : Type 0} (j f : ℕ) (xs : List A) → j ≤ f → take j (take f xs) ≡ take j xs
take-take zero f xs h = refl
take-take (suc j) zero xs h = absurd (omega (arith, h))
take-take (suc j) (suc f) [] h = refl
take-take (suc j) (suc f) (x ∷ xs) h = ap (λ l. x ∷ l) (take-take j f xs (omega (arith, h)))

pub take-long : {A : Type 0} (f : ℕ) (xs : List A) → length xs ≤ f → take f xs ≡ xs
take-long zero [] h = refl
take-long zero (x ∷ xs) h = absurd (omega (arith, h))
take-long (suc f) [] h = refl
take-long (suc f) (x ∷ xs) h = ap (λ l. x ∷ l) (take-long f xs (omega (arith, h)))

pub map-take :
    {A B : Type 0} (f : A → B) (n : ℕ) (xs : List A) → map f (take n xs) ≡ take n (map f xs)
map-take f zero xs = refl
map-take f (suc n) [] = refl
map-take f (suc n) (x ∷ xs) = ap (λ l. f x ∷ l) (map-take f n xs)

pub map-drop :
    {A B : Type 0} (f : A → B) (n : ℕ) (xs : List A) → map f (drop n xs) ≡ drop n (map f xs)
map-drop f zero xs = refl
map-drop f (suc n) [] = refl
map-drop f (suc n) (x ∷ xs) = map-drop f n xs

pub length-map : {A B : Type 0} (f : A → B) (xs : List A) → length (map f xs) ≡ length xs
length-map f [] = refl
length-map f (x ∷ xs) = ap suc (length-map f xs)

pub map-map :
    {A B C : Type 0} (f : A → B) (g : B → C) (xs : List A)
    → map (λ x. g (f x)) xs ≡ map g (map f xs)
map-map f g [] = refl
map-map f g (x ∷ xs) = ap (λ l. g (f x) ∷ l) (map-map f g xs)

take-cut : {A : Type 0} (k e : ℕ) (xs : List A) → k ≡ min e (length xs) → take k xs ≡ take e xs
take-cut k e xs h = elim (Bool-cases (leb e (length xs))) [
  | inl w ↦ ap (λ n. take n xs) (ground (arith, w))
  | inr w ↦ take-long k xs (ground (arith, w)) ∙ sym (take-long e xs (ground (arith, w)))
]

take-nil : {A : Type 0} (n : ℕ) → ◌≡◌ {A = List A} (take n []) []
take-nil zero = refl
take-nil (suc n) = refl

drop-nil : {A : Type 0} (n : ℕ) → ◌≡◌ {A = List A} (drop n []) []
drop-nil zero = refl
drop-nil (suc n) = refl

-- The bounds of a slice, cut at its length.
pub slice :
    {A : Type 0} (k b o e : ℕ) (xs : List A)
    → b ≡ min o (length xs)
    → k ≡ min e (length xs) - b
    → o ≤ e
    → take k (drop b xs) ≡ drop o (take e xs)
slice k b o e [] p q h =
    ap (take k) (drop-nil b) ∙ take-nil k ∙ sym (ap (drop o) (take-nil e) ∙ drop-nil o)
slice k b zero e (x ∷ xs) p q h =
    let none_dropped : b ≡ 0 = omega (arith, p) in
    ap (λ n. take k (drop n (x ∷ xs))) none_dropped
    ∙ take-cut k e (x ∷ xs) (omega (arith, q, none_dropped))
slice k b (suc o) zero (x ∷ xs) p q h = absurd (omega (arith, h))
slice k zero (suc o) (suc e) (x ∷ xs) p q h = absurd (omega (arith, p))
slice k (suc b) (suc o) (suc e) (x ∷ xs) p q h =
    slice k b o e xs (omega (arith, p)) (omega (arith, q)) (omega (arith, h))

pub without-absent :
    (text : Text) (ids : List Text) → occurrences text ids ≡ 0 → without text ids ≡ ids
without-absent text [] h = refl
without-absent text (id ∷ ids) h = elim (Bool-cases (text_eq id text)) [
  | inl w ↦ absurd (ground (arith, w))
  | inr w ↦ rw (w) (ap (λ l. id ∷ l) (without-absent text ids (ground (arith, w))))
]

occurrences-take :
    (text : Text) (f : ℕ) (ids : List Text) → occurrences text (take f ids) ≤ occurrences text ids
occurrences-take text zero ids = omega arith
occurrences-take text (suc f) [] = omega arith
occurrences-take text (suc f) (id ∷ ids) = ground (arith, occurrences-take text f ids)

take-without :
    (text : Text) (j f : ℕ) (ids : List Text)
    → j < f
    → occurrences text ids ≤ 1
    → take j (without text (take f ids)) ≡ take j (without text ids)
take-without text zero f ids h o = refl
take-without text (suc j) zero ids h o = absurd (omega (arith, h))
take-without text (suc j) (suc f) [] h o = refl
take-without text (suc j) (suc f) (id ∷ ids) h o = elim (Bool-cases (text_eq id text)) [
  | inl w ↦
      let absent : occurrences text ids ≡ 0 = ground (arith, w, o) in
      rw (w) (
        ap (take (suc j))
          (without-absent text (take f ids) (omega (arith, absent, occurrences-take text f ids)))
        ∙ take-take (suc j) f ids (omega (arith, h))
        ∙ ap (take (suc j)) (sym (without-absent text ids absent)))
  | inr w ↦
      rw (w)
        (ap (λ l. id ∷ l) (take-without text j f ids (omega (arith, h)) (ground (arith, w, o))))
]

-- The first names are known from the first names of the ranking.
pub take-promoted :
    (text : Text) (known : Bool) (e f : ℕ) (ids : List Text)
    → e ≤ f
    → occurrences text ids ≤ 1
    → take e (promoted text known (take f ids)) ≡ take e (promoted text known ids)
take-promoted text false e f ids h o = take-take e f ids h
take-promoted text true zero f ids h o = refl
take-promoted text true (suc e) f ids h o =
    ap (λ l. text ∷ l) (take-without text e f ids (omega (arith, h)) o)
