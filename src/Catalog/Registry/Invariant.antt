-- ===== src/Catalog/Registry/Invariant.antt =====
-- The invariant of catalog/registry.go: every installed entry is sound, and how changes of one
-- entry keep that.
use mmmcp.Base.{
  ℕ, zero, suc, ◌+◌, ◌≤◌, ◌<◌, ◌≡◌, refl, sym, ap, ◌∙◌, subst, ◌⊎◌, inl, inr, Bool, false,
  if◌then◌else◌, ◌==◌, Bool-cases, some, List, [], ◌∷◌, Text, text_eq, text_eq_iff, text_keys,
  lookup, insert, delete, lookup-insert, lookup-delete, arith,
}
use mmmcp.Catalog.Registry.{Entry, write}
use mmmcp.Catalog.Registry.Sound.{Sound}
use mmmcp.Catalog.Registry.System.{same_run, runs, ended}

-- Each entry is installed and refreshed under one fingerprint, its owner.
pub record Inv (searches : Text → Bool) (entries : List (Text × ℕ)) (memory : ℕ → Entry) (next : ℕ)
    (closed : Bool) (running : List (Text × ℕ)) : Type 0 where
  pub owner : ℕ → Text
  pub owned : (f : Text) (a : ℕ) → lookup f entries ≡ some a → (owner a ≡ f) × (a < next)
  pub run_owned : (f : Text) (a n : ℕ) → runs f a running ≡ suc n → (owner a ≡ f) × (a < next)
  pub sound :
      (f : Text) (a : ℕ)
      → lookup f entries ≡ some a
      → Sound closed (searches f) (runs f a running) (memory a)

ℕ-cases : (n : ℕ) → (n ≡ 0) ⊎ ((m : ℕ) × (n ≡ suc m))
ℕ-cases zero = inl refl
ℕ-cases (suc n) = inr (n, refl)

pub runs-ended :
    (f g : Text) (a b n : ℕ) (running : List (Text × ℕ))
    → runs f a running ≡ suc n
    → runs g b (ended f a running) ≡ (if same_run f a (g, b) then n else runs g b running)
unfolding runs ended
runs-ended f g a b n [] h = cc
runs-ended f g a b n ((j, c) ∷ ps) h = elim (Bool-cases (same_run f a (j, c))) [
  | inl q ↦ ground (arith, text_eq_iff j f, text_eq_iff g f, text_eq_iff j g)
  | inr q ↦
      ground (arith, runs-ended f g a b n ps, text_eq_iff j f, text_eq_iff g f, text_eq_iff j g)
]

pub runs-ended_other :
    (f g : Text) (a b n m : ℕ) (running : List (Text × ℕ))
    → runs f a running ≡ suc n
    → runs g b (ended f a running) ≡ suc m
    → (k : ℕ) × (runs g b running ≡ suc k)
runs-ended_other f g a b n m running h k = elim (Bool-cases (same_run f a (g, b))) [
  | inl q ↦ (n, ground (arith, text_eq_iff g f))
  | inr q ↦ (m, ground (arith, runs-ended f g a b n running h))
]

pub runs-same :
    (f : Text) (a : ℕ) (running : List (Text × ℕ))
    → runs f a ((f, a) ∷ running) ≡ runs f a running + 1
unfolding runs
runs-same f a running = ground (arith, text_eq_iff f f)

pub runs-other :
    (f g : Text) (a b : ℕ) (running : List (Text × ℕ))
    → (a == b) ≡ false
    → runs g b ((f, a) ∷ running) ≡ runs g b running
unfolding runs
runs-other f g a b running q = ground arith

pub runs-added :
    (f g : Text) (a b n : ℕ) (running : List (Text × ℕ))
    → runs g b ((f, a) ∷ running) ≡ suc n
    → ((f ≡ g) × (a ≡ b)) ⊎ ((k : ℕ) × (runs g b running ≡ suc k))
unfolding runs
runs-added f g a b n running q = elim (Bool-cases (same_run g b (f, a))) [
  | inl w ↦ inl (ground (arith, text_eq_iff f g), ground arith)
  | inr w ↦ inr (n, ground arith)
]

-- A sound entry at the names and the address that equations give it.
move-Sound :
    (searches : Text → Bool) (closed : Bool) (running : List (Text × ℕ)) (f g : Text) (a b n : ℕ)
    (e e' : Entry)
    → f ≡ g
    → n ≡ runs g b running
    → e ≡ e'
    → Sound closed (searches f) n e
    → Sound closed (searches g) (runs g b running) e'
move-Sound searches closed running f g a b n e e' p q r s =
    subst (λ x. Sound closed (searches g) (runs g b running) x) r
      (subst (λ k. Sound closed (searches g) k e) q
        (subst (λ h. Sound closed (searches h) n e) p s))

-- One entry changes, and with it the refreshes that run for it.
pub change-Inv :
    (searches : Text → Bool) (entries : List (Text × ℕ)) (memory : ℕ → Entry) (next : ℕ)
    (closed : Bool) (running after : List (Text × ℕ)) (f : Text) (a : ℕ) (e : Entry)
    (v : Inv searches entries memory next closed running)
    → v.owner a ≡ f
    → ((g : Text) (b : ℕ) → (a == b) ≡ false → runs g b after ≡ runs g b running)
    → ((g : Text) (b n : ℕ) → runs g b after ≡ suc n → (v.owner b ≡ g) × (b < next))
    → (lookup f entries ≡ some a → Sound closed (searches f) (runs f a after) e)
    → Inv searches entries (write a e memory) next closed after
unfolding write
change-Inv searches entries memory next closed running after f a e v o same owned s = record {
  owner = v.owner;
  owned = v.owned;
  run_owned = owned;
  sound = λ g b q. elim (Bool-cases (a == b)) [
    | inl w ↦
        let here : a ≡ b = ground (arith, w) in
        let name : f ≡ g = sym o ∙ ap v.owner here ∙ (v.owned g b q).0 in
        move-Sound searches closed after f g a b (runs f a after) e _ name
          (ap (λ h. runs h a after) name ∙ ap (λ c. runs g c after) here) (rw w refl)
          (s (ap (λ h. lookup h entries) name ∙ q ∙ ap some (sym here)))
    | inr w ↦
        move-Sound searches closed after g g b b (runs g b running) (memory b) _ refl
          (sym (same g b w)) (rw w refl) (v.sound g b q)
  ];
}

-- Nothing runs for an address that is still free.
idle :
    (searches : Text → Bool) (entries : List (Text × ℕ)) (memory : ℕ → Entry) (next : ℕ)
    (closed : Bool) (running : List (Text × ℕ)) (f : Text) (a : ℕ)
    → Inv searches entries memory next closed running
    → next ≤ a
    → 0 ≡ runs f a running
idle searches entries memory next closed running f a v h = elim (ℕ-cases (runs f a running)) [
  | inl q ↦ sym q
  | inr (n, q) ↦ absurd (omega (arith, (v.run_owned f a n q).1, h))
]

pub install-Inv :
    (searches : Text → Bool) (entries : List (Text × ℕ)) (memory : ℕ → Entry) (next : ℕ)
    (closed : Bool) (running : List (Text × ℕ)) (f : Text) (e : Entry)
    → Inv searches entries memory next closed running
    → Sound closed (searches f) 0 e
    → Inv searches (insert f next entries) (write next e memory) (next + 1) closed running
unfolding write
install-Inv searches entries memory next closed running f e v s = record {
  owner = λ b. if next == b then f else v.owner b;
  owned = λ g b q. ground (arith, v.owned g b, lookup-insert f g next entries, text_eq_iff f g);
  run_owned = λ g b n q. ground (arith, v.run_owned g b n q);
  sound = λ g b q. elim (Bool-cases (text_eq f g)) [
    | inl w ↦
        let name : f ≡ g = (text_eq_iff f g).0 w in
        let here : next ≡ b = ground (arith, lookup-insert f g next entries) in
        move-Sound searches closed running f g next b 0 e _ name
          (idle searches entries memory next closed running g b v (omega (arith, here)))
          (ground (arith, here)) s
    | inr w ↦
        let old : lookup g entries ≡ some b = ground (arith, lookup-insert f g next entries) in
        move-Sound searches closed running g g b b (runs g b running) (memory b) _ refl refl
          (ground (arith, v.owned g b old)) (v.sound g b old)
  ];
}

pub delete-Inv :
    (searches : Text → Bool) (entries : List (Text × ℕ)) (memory : ℕ → Entry) (next : ℕ)
    (closed : Bool) (running : List (Text × ℕ)) (f : Text)
    → Inv searches entries memory next closed running
    → Inv searches (delete f entries) memory next closed running
delete-Inv searches entries memory next closed running f v = record {
  owner = v.owner;
  owned = λ g b q. ground (arith, v.owned g b, lookup-delete f g entries);
  run_owned = v.run_owned;
  sound = λ g b q. v.sound g b (ground (arith, lookup-delete f g entries));
}
