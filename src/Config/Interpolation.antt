-- ===== src/Config/Interpolation.antt =====
-- `interpolate` (config/interpolate.go) against a grammar of references.
use mathlib.Core.List.{append-nil, append_assoc}
use mmmcp.Base.{
  ℕ, zero, suc, ◌≤◌, ◌≡◌, refl, sym, ap, ◌∙◌, ◌≢◌, ◌↔◌, inl, inr, if◌then◌else◌, ◌==◌, some, [],
  ◌∷◌, ◌++◌, length, length-append, Text, ok, All, arith, Bool-cases, Option-cases, subst,
}
use mmmcp.Config.Interpolate.{Environment, split_at_brace, interpolate_loop, interpolate}

-- What a value stands for: "$$" is a dollar, "${NAME}" the variable, and all else itself.
pub data Expands (lookup : Environment) : Text → Text → Type 0 where
  done : Expands lookup [] []
  plain :
      {rest out : Text} (c : ℕ)
      → c ≢ b'$'
      → Expands lookup rest out
      → Expands lookup (c ∷ rest) (c ∷ out)
  last_dollar : {value : Text} → value ≡ b'$' ∷ [] → Expands lookup value value
  lone_dollar :
      {rest out value result : Text} (d : ℕ)
      → d ≢ b'$'
      → d ≢ b'{'
      → Expands lookup (d ∷ rest) out
      → value ≡ b'$' ∷ d ∷ rest
      → result ≡ b'$' ∷ out
      → Expands lookup value result
  escaped :
      {rest out value result : Text}
      → Expands lookup rest out
      → value ≡ b'$' ∷ b'$' ∷ rest
      → result ≡ b'$' ∷ out
      → Expands lookup value result
  reference :
      {rest out value result : Text} (name : Text)
      → name ≢ []
      → All (λ c. c ≢ b'}') name
      → Expands lookup rest out
      → value ≡ b'$' ∷ b'{' ∷ (name ++ (b'}' ∷ rest))
      → result ≡ (lookup name).0 ++ out
      → Expands lookup value result

split_at_brace-eq-some :
    (s name rest : Text)
    → split_at_brace s ≡ some (name, rest)
    → All (λ c. c ≢ b'}') name × (s ≡ name ++ (b'}' ∷ rest))
unfolding split_at_brace
split_at_brace-eq-some [] name rest h = cc
split_at_brace-eq-some (c ∷ s) name rest h = elim (Bool-cases (c == b'}')) [
  | inl q ↦ ground arith
  | inr q ↦ elim (Option-cases (split_at_brace s)) [
    | inl w ↦ absurd (ground arith)
    | inr ((n, r), w) ↦ ground (arith, split_at_brace-eq-some s n r w)
  ]
]

split_at_brace-append :
    (name rest : Text)
    → All (λ c. c ≢ b'}') name
    → split_at_brace (name ++ (b'}' ∷ rest)) ≡ some (name, rest)
unfolding split_at_brace
split_at_brace-append [] rest h = refl
split_at_brace-append (c ∷ name) rest h = ground (arith, h.0, split_at_brace-append name rest h.1)

module _ (lookup : Environment) where
  loop_nil : (fuel : ℕ) (result : Text) → interpolate_loop lookup fuel result [] ≡ ok result
  unfolding interpolate_loop
  loop_nil zero result = refl
  loop_nil (suc fuel) result = refl

  step_plain :
      (fuel : ℕ) (result : Text) (c : ℕ) (rest : Text)
      → c ≢ b'$'
      → interpolate_loop lookup (suc fuel) result (c ∷ rest)
        ≡ interpolate_loop lookup fuel (result ++ c ∷ []) rest
  unfolding interpolate_loop
  step_plain fuel result c [] n = refl
  step_plain fuel result c (d ∷ rest) n = ground arith

  step_last :
      (fuel : ℕ) (result : Text) (c : ℕ)
      → interpolate_loop lookup (suc fuel) result (c ∷ [])
        ≡ interpolate_loop lookup fuel (result ++ c ∷ []) []
  unfolding interpolate_loop
  step_last fuel result c = refl

  step_lone :
      (fuel : ℕ) (result : Text) (d : ℕ) (rest : Text)
      → d ≢ b'$'
      → d ≢ b'{'
      → interpolate_loop lookup (suc fuel) result (b'$' ∷ d ∷ rest)
        ≡ interpolate_loop lookup fuel (result ++ b'$' ∷ []) (d ∷ rest)
  unfolding interpolate_loop
  step_lone fuel result d rest n m = ground arith

  step_escaped :
      (fuel : ℕ) (result rest : Text)
      → interpolate_loop lookup (suc fuel) result (b'$' ∷ b'$' ∷ rest)
        ≡ interpolate_loop lookup fuel (result ++ b'$' ∷ []) rest
  unfolding interpolate_loop
  step_escaped fuel result rest = refl

  step_reference :
      (fuel : ℕ) (result rest name tail : Text)
      → name ≢ []
      → split_at_brace rest ≡ some (name, tail)
      → interpolate_loop lookup (suc fuel) result (b'$' ∷ b'{' ∷ rest)
        ≡ interpolate_loop lookup fuel (result ++ (lookup name).0) tail
  unfolding interpolate_loop
  step_reference fuel result rest name tail n e = ground arith

  reference_inv :
      (fuel : ℕ) (result rest r : Text)
      → interpolate_loop lookup (suc fuel) result (b'$' ∷ b'{' ∷ rest) ≡ ok r
      → (name : Text) × (tail : Text) × (split_at_brace rest ≡ some (name, tail))
        × (name ≢ [])
        × (interpolate_loop lookup fuel (result ++ (lookup name).0) tail ≡ ok r)
  unfolding interpolate_loop
  reference_inv fuel result rest r h = elim (Option-cases (split_at_brace rest)) [
    | inl w ↦ absurd (ground arith)
    | inr ((name, tail), w) ↦ (name, tail, w, ground arith, ground arith)
  ]

  length_tail : (name rest : Text) → length rest ≤ length (name ++ (b'}' ∷ rest))
  length_tail name rest = omega (arith, length-append name (b'}' ∷ rest))

  -- Every expansion is what the loop computes, once the fuel covers the value.
  loop_of_Expands :
      {value out : Text} (fuel : ℕ) (result : Text)
      → Expands lookup value out
      → length value ≤ fuel
      → interpolate_loop lookup fuel result value ≡ ok (result ++ out)
  loop_of_Expands fuel result done h = ground (arith, loop_nil fuel result, append-nil result)
  loop_of_Expands zero result (plain c n x) h = absurd (omega arith)
  loop_of_Expands (suc fuel) result (plain {rest} {out} c n x) h = ground (
    arith,
    step_plain fuel result c rest n,
    loop_of_Expands fuel (result ++ c ∷ []) x,
    append_assoc result (c ∷ []) out,
  )
  loop_of_Expands zero result (last_dollar e) h = absurd (omega (arith, ap length e))
  loop_of_Expands (suc fuel) result (last_dollar e) h =
      rw e (step_last fuel result b'$' ∙ loop_nil fuel (result ++ b'$' ∷ []))
  loop_of_Expands zero result (lone_dollar d n m x e f) h = absurd (omega (arith, ap length e))
  loop_of_Expands (suc fuel) result (lone_dollar {rest} {out} d n m x e f) h = ground (
    arith,
    step_lone fuel result d rest n m,
    loop_of_Expands fuel (result ++ b'$' ∷ []) x,
    append_assoc result (b'$' ∷ []) out,
    ap length e,
  )
  loop_of_Expands zero result (escaped x e f) h = absurd (omega (arith, ap length e))
  loop_of_Expands (suc fuel) result (escaped {rest} {out} x e f) h = ground (
    arith,
    step_escaped fuel result rest,
    loop_of_Expands fuel (result ++ b'$' ∷ []) x,
    append_assoc result (b'$' ∷ []) out,
    ap length e,
  )
  loop_of_Expands zero result (reference name n a x e f) h = absurd (omega (arith, ap length e))
  loop_of_Expands (suc fuel) result (reference {rest} {out} name n a x e f) h = ground (
    arith,
    step_reference fuel result (name ++ (b'}' ∷ rest)) name rest n
        (split_at_brace-append name rest a),
    loop_of_Expands fuel (result ++ (lookup name).0) x,
    append_assoc result (lookup name).0 out,
    length_tail name rest,
    ap length e,
  )

  -- What the loop returns is an expansion of what it reads, behind what it was given.
  abbrev Outcome : Text → Text → Text → Type 0
  Outcome result value r = (out : Text) × (r ≡ result ++ out) × Expands lookup value out

  extend :
      (result piece value rest r : Text)
      → ((out : Text) → Expands lookup rest out → Expands lookup value (piece ++ out))
      → Outcome (result ++ piece) rest r
      → Outcome result value r
  extend result piece value rest r grow (out, e, x) =
      (piece ++ out, e ∙ append_assoc result piece out, grow out x)

  Expands_of_loop :
      (fuel : ℕ) (result value r : Text)
      → length value ≤ fuel
      → interpolate_loop lookup fuel result value ≡ ok r
      → Outcome result value r
  Expands_of_loop fuel result [] r b h =
      ([], ground (arith, loop_nil fuel result, append-nil result), done)
  Expands_of_loop zero result (c ∷ value) r b h = absurd (omega arith)
  Expands_of_loop (suc fuel) result (c ∷ []) r b h = elim (Bool-cases (c == b'$')) [
    | inl q ↦ (
      c ∷ [],
      ground (arith, step_last fuel result c, loop_nil fuel (result ++ c ∷ [])),
      last_dollar (ground arith),
    )
    | inr q ↦ (
      c ∷ [],
      ground (arith, step_last fuel result c, loop_nil fuel (result ++ c ∷ [])),
      plain c (ground arith) done,
    )
  ]
  Expands_of_loop (suc fuel) result (c ∷ d ∷ rest) r b h =
      let go_plain = λ (n : c ≢ b'$').
        extend result (c ∷ []) (c ∷ d ∷ rest) (d ∷ rest) r (λ out x. plain c n x)
          (Expands_of_loop fuel (result ++ c ∷ []) (d ∷ rest) r (omega arith)
            (ground (arith, step_plain fuel result c (d ∷ rest) n))) in
      elim (Bool-cases (c == b'$')) [
        | inr p ↦ go_plain (ground arith)
        | inl p ↦ elim (Bool-cases (d == b'$')) [
          | inl q ↦
              extend result (b'$' ∷ []) (c ∷ d ∷ rest) rest r
                (λ out x. escaped x (ground arith) refl)
                (Expands_of_loop fuel (result ++ b'$' ∷ []) rest r (omega arith)
                  (ground (arith, step_escaped fuel result rest)))
          | inr q ↦ elim (Bool-cases (d == b'{')) [
            | inr w ↦
                extend result (b'$' ∷ []) (c ∷ d ∷ rest) (d ∷ rest) r
                  (λ out x. lone_dollar d (ground arith) (ground arith) x (ground arith) refl)
                  (Expands_of_loop fuel (result ++ b'$' ∷ []) (d ∷ rest) r (omega arith)
                    (ground (arith, step_lone fuel result d rest)))
            | inl w ↦
                let (name, tail, e, n, t) =
                  reference_inv fuel result rest r (ground (arith, p, w)) in
                let (a, cut) = split_at_brace-eq-some rest name tail e in
                extend result (lookup name).0 (c ∷ d ∷ rest) tail r
                  (λ out x. reference name n a x (ground arith) refl)
                  (Expands_of_loop fuel (result ++ (lookup name).0) tail r
                    (ground (arith, ap length cut, length_tail name tail)) t)
          ]
        ]
      ]

-- `interpolate` computes exactly the expansions of the grammar: it returns a text when and only
-- when the value stands for it, so it fails when and only when the value stands for nothing.
pub interpolate-eq-ok_iff :
    (lookup : Environment) (value out : Text)
    → (interpolate lookup value ≡ ok out) ↔ Expands lookup value out
unfolding interpolate
interpolate-eq-ok_iff lookup value out = (
  λ h.
      let (o, e, x) = Expands_of_loop lookup (length value) [] value out (omega arith) h in
      subst (Expands lookup value) (sym e) x,
  λ x. loop_of_Expands lookup (length value) [] x (omega arith),
)

-- Every dollar doubled.
pub escape : Text → Text
escape [] = []
escape (c ∷ cs) = let rest = escape cs in if c == b'$' then b'$' ∷ b'$' ∷ rest else c ∷ rest

escape-Expands : (lookup : Environment) (s : Text) → Expands lookup (escape s) s
unfolding escape
escape-Expands lookup [] = done
escape-Expands lookup (c ∷ s) = elim (Bool-cases (c == b'$')) [
  | inl q ↦ rw q (escaped (escape-Expands lookup s) refl (ground arith))
  | inr q ↦ rw q (plain c (ground arith) (escape-Expands lookup s))
]

-- Every text can be written: with its dollars doubled it comes back, in every environment.
pub interpolate-escape : (lookup : Environment) (s : Text) → interpolate lookup (escape s) ≡ ok s
interpolate-escape lookup s =
    (interpolate-eq-ok_iff lookup (escape s) s).1 (escape-Expands lookup s)
