-- ===== src/Namespace/Names.antt =====
-- Proofs about `Tool` and `Prompt` (`namedFeature` of namespace/namespace.go).
use mathlib.Core.List.{append_assoc, append_cancel_left}
use mmmcp.Base.{
  ℕ, ◌≤◌, ◌≡◌, refl, ◌∙◌, sym, ◌≢◌, ◌↔◌, ◌⊎◌, inl, inr, Text, Bool-cases, ◌==◌, ap, subst, is_empty,
  if◌then◌else◌, codes, [], ◌∷◌, ◌++◌, false, arith, All, All-append, All-left, All-right, length,
  ok,
}
use mmmcp.Namespace.{
  Family, validate_part, check_prefix, ends_with_underscore, join, named_feature, valid_rune,
}
use mmmcp.Namespace.Prefixes.{IsValidRune, validate_part_iff}

-- A prefix that `namedFeature` accepts.
abbrev pub IsUsable : Text → Type 0
IsUsable p = (p ≡ []) ⊎ (validate_part p ≡ ok tt)

-- `namedFeature` by the name that it joins.
pub named_feature-join_iff :
    (f : Family) (p l n : Text)
    → (named_feature f p l ≡ ok n)
      ↔ (IsUsable p × (validate_part l ≡ ok tt) × (n ≡ join p l) × (length n ≤ 128))
unfolding named_feature check_prefix
named_feature-join_iff f p l n = (λ h. ground arith, λ h. ground arith)

underscores : All IsValidRune (codes "__")
unfolding valid_rune
underscores = (refl, (refl, tt))

join-valid :
    (p l : Text)
    → IsUsable p
    → (l ≢ []) × All IsValidRune l
    → (join p l ≢ []) × All IsValidRune (join p l)
unfolding join
join-valid [] l u h = h
join-valid (r ∷ rs) l u h =
    let q = r ∷ rs in
    let valid : All IsValidRune q = ground (arith, validate_part_iff q) in
    ground (
      arith,
      valid,
      All-append IsValidRune q (codes "__") valid underscores,
      All-append IsValidRune q l valid h.1,
      All-append IsValidRune (q ++ codes "__") l,
    )

-- Every exposed name is itself a valid part, so it can be used as a local name again.
pub validate_part-named_feature :
    (f : Family) (p l n : Text) → named_feature f p l ≡ ok n → validate_part n ≡ ok tt
validate_part-named_feature f p l n h =
    let (usable, local_ok, e, bound) = (named_feature-join_iff f p l n).0 h in
    rw e
      ((validate_part_iff (join p l)).1 (join-valid p l usable ((validate_part_iff l).0 local_ok)))

join-injective : (p l k : Text) → join p l ≡ join p k → l ≡ k
unfolding join
join-injective p l k h =
    ground (arith, append_cancel_left p l k, append_cancel_left (p ++ codes "__") l k)

-- Under one prefix, two local names never share an exposed name.
pub named_feature-injective :
    (f g : Family) (p l k n : Text)
    → named_feature f p l ≡ ok n
    → named_feature g p k ≡ ok n
    → l ≡ k
named_feature-injective f g p l k n h i =
    ground
      (arith, named_feature-join_iff f p l n, named_feature-join_iff g p k n, join-injective p l k)

ends_with_underscore-append :
    (p : Text) (r : ℕ) (s : Text) → ends_with_underscore (p ++ r ∷ s) ≡ ends_with_underscore (r ∷ s)
unfolding ends_with_underscore
ends_with_underscore-append [] r s = refl
ends_with_underscore-append (x ∷ []) r s = refl
ends_with_underscore-append (x ∷ y ∷ p) r s = ends_with_underscore-append (y ∷ p) r s

is_empty-last : (q : Text) (r : ℕ) → is_empty (q ++ r ∷ []) ≡ false
is_empty-last [] r = refl
is_empty-last (x ∷ q) r = refl

-- Nothing, or a last rune.
last_rune : (p : Text) → (p ≡ []) ⊎ ((q : Text) × (r : ℕ) × (p ≡ q ++ r ∷ []))
last_rune [] = inl refl
last_rune (x ∷ p) = elim (last_rune p) [
  | inl e ↦ inr ([], x, ap (λ t. x ∷ t) e)
  | inr (q, r, e) ↦ inr (x ∷ q, r, ap (λ t. x ∷ t) e)
]

-- How a prefix and a local name make a name: "__" separates them unless the prefix is empty or ends
-- in "_".
abbrev pub Joins : Text → Text → Text → Type 0
Joins p l n =
    ((p ≡ []) × (n ≡ l))
    ⊎ ((q : Text) × (p ≡ q ++ codes "_") × (n ≡ p ++ l))
    ⊎ ((q : Text) × (r : ℕ) × (p ≡ q ++ r ∷ [])
        × ((r == 95) ≡ false)
        × (n ≡ p ++ (codes "__" ++ l)))

join-empty : (p l : Text) → p ≡ [] → join p l ≡ l
unfolding join
join-empty p l e = rw e refl

join-last :
    (p l q : Text) (r : ℕ)
    → p ≡ q ++ r ∷ []
    → join p l ≡ (if r == 95 then p ++ l else p ++ (codes "__" ++ l))
unfolding join ends_with_underscore
join-last p l q r e = ground (
  arith,
  ap is_empty e,
  is_empty-last q r,
  ap ends_with_underscore e,
  ends_with_underscore-append q r [],
  append_assoc p (codes "__") l,
)

Joins-eq : (p l n : Text) → Joins p l n → n ≡ join p l
Joins-eq p l n (inl (e, h)) = h ∙ sym (join-empty p l e)
Joins-eq p l n (inr (inl (q, e, h))) = h ∙ sym (join-last p l q 95 e)
Joins-eq p l n (inr (inr (q, r, e, d, h))) = h ∙ sym (join-last p l q r e ∙ rw d refl)

join-Joins : (p l : Text) → Joins p l (join p l)
join-Joins p l = elim (last_rune p) [
  | inl e ↦ inl (e, join-empty p l e)
  | inr (q, r, e) ↦ elim (Bool-cases (r == 95)) [
    | inl w ↦
        inr
          (inl (q, e ∙ ap (λ x. q ++ x ∷ []) (ground (arith, w)), join-last p l q r e ∙ rw w refl))
    | inr w ↦ inr (inr (q, r, e, w, join-last p l q r e ∙ rw w refl))
  ]
]

-- `namedFeature` succeeds exactly on a usable prefix and a valid local name whose joined name has
-- at most 128 characters, and returns that name: the local name under an empty prefix, the prefix
-- and the local name if the prefix ends in "_", and else the two with "__" between them.
pub named_feature-eq-ok_iff :
    (f : Family) (p l n : Text)
    → (named_feature f p l ≡ ok n)
      ↔ (IsUsable p × (validate_part l ≡ ok tt) × Joins p l n × (length n ≤ 128))
named_feature-eq-ok_iff f p l n = (
  λ h.
      let (usable, valid, e, bound) = (named_feature-join_iff f p l n).0 h in
      (usable, valid, subst (Joins p l) (sym e) (join-Joins p l), bound),
  λ h.
      let (usable, valid, joins, bound) = h in
      (named_feature-join_iff f p l n).1 (usable, valid, Joins-eq p l n joins, bound),
)

join_separated :
    (p l : Text) → p ≢ [] → ends_with_underscore p ≡ false → join p l ≡ (p ++ codes "__") ++ l
unfolding join
join_separated p l h e = ground arith

join-join :
    (a b c : Text)
    → (((a ++ codes "__") ++ (b ++ (codes "__" ++ c)))
        ≡ ((a ++ (codes "__" ++ b)) ++ codes "__") ++ c)
join-join a b c = simp append_assoc

append-ne-nil : (a b : Text) → a ≢ [] → a ++ b ≢ []
append-ne-nil [] b h = absurd (h refl)
append-ne-nil (x ∷ a) b h = λ e. cc

ends_with_underscore-long :
    (a b : Text)
    → b ≢ []
    → ends_with_underscore b ≡ false
    → ends_with_underscore (a ++ (codes "__" ++ b)) ≡ false
unfolding ends_with_underscore
ends_with_underscore-long a [] nb h = absurd (nb refl)
ends_with_underscore-long a (r ∷ b) nb h = ends_with_underscore-append a b'_' (b'_' ∷ r ∷ b) ∙ h

-- Prefixes do not separate components: for non-empty a, b and c where neither a nor b ends in "_", if
-- the local name b__c has an exposed name under the prefix a, then the local name c has the same
-- exposed name under the prefix a__b.
pub named_feature_ambiguous :
    (f : Family) (a b c n : Text)
    → a ≢ []
    → b ≢ []
    → c ≢ []
    → ends_with_underscore a ≡ false
    → ends_with_underscore b ≡ false
    → named_feature f a (b ++ (codes "__" ++ c)) ≡ ok n
    → named_feature f (a ++ (codes "__" ++ b)) c ≡ ok n
named_feature_ambiguous f a b c n na nb nc ea eb h =
    let longer = a ++ (codes "__" ++ b) in
    let (usable, local_ok, e, bound) =
      (named_feature-join_iff f a (b ++ (codes "__" ++ c)) n).0 h in
    let (_, parts) = (validate_part_iff (b ++ (codes "__" ++ c))).0 local_ok in
    let b_valid = All-left IsValidRune b (codes "__" ++ c) parts in
    let c_valid = All-right IsValidRune b (codes "__" ++ c) parts in
    let a_valid : All IsValidRune a = ground (arith, validate_part_iff a) in
    let longer_valid =
      All-append IsValidRune a (codes "__" ++ b) a_valid
        (All-append IsValidRune (codes "__") b underscores b_valid) in
    let ends = ends_with_underscore-long a b nb eb in
    let longer_ne = append-ne-nil a (codes "__" ++ b) na in
    (named_feature-join_iff f longer c n).1 (
      inr ((validate_part_iff longer).1 (longer_ne, longer_valid)),
      (validate_part_iff c).1 (nc, All-right IsValidRune (codes "__") c c_valid),
      e
          ∙ join_separated a (b ++ (codes "__" ++ c)) na ea
          ∙ join-join a b c
          ∙ sym (join_separated longer c longer_ne ends),
      bound,
    )
