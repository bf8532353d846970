-- ===== src/Authorization/Challenges.antt =====
-- The challenges of responses in component/authorization.go are those that errors report.
use mmmcp.Base.{
  ℕ, ◌≡◌, ◌≢◌, refl, subst, ◌⊎◌, inl, inr, Bool, true, not, ◌&&◌, ◌||◌, ◌==◌, Bool-cases, Option,
  none, some, List, [], ◌∷◌, Text, codes, text_eq, text_keys, All, arith,
}
use mmmcp.Authorization.{
  AuthorizationError, Challenge, unauthorized, forbidden, insufficient_scope, param, is_challenge,
  authorization_error, bearer_errors, parsed_errors, or_plain, authorization_challenges,
}

module _ (is_bearer : Text → Bool) (fields : Text → List Text) where
  bearer_errors-All :
      (status : ℕ) (cs : List Challenge)
      → (status ≡ unauthorized) ⊎ (status ≡ forbidden)
      → All (λ e. is_challenge e ≡ true) (bearer_errors is_bearer fields status cs)
  unfolding bearer_errors is_challenge authorization_error
  bearer_errors-All status [] h = tt
  bearer_errors-All status (c ∷ cs) h =
      elim (Bool-cases (
        not (is_bearer c.scheme)
        || status == forbidden && not (text_eq (param (codes "error") c) insufficient_scope))) [
          | inl w ↦ rw (w) (bearer_errors-All status cs h)
          | inr w ↦ rw (w) (ground (arith, h, w), bearer_errors-All status cs h)
        ]

  parsed_errors-All :
      (status : ℕ) (parsed : Option (List Challenge))
      → (status ≡ unauthorized) ⊎ (status ≡ forbidden)
      → All (λ e. is_challenge e ≡ true) (parsed_errors is_bearer fields status parsed)
  parsed_errors-All status none h = tt
  parsed_errors-All status (some cs) h = bearer_errors-All status cs h

  or_plain-All :
      (status : ℕ) (es : List AuthorizationError)
      → All (λ e. is_challenge e ≡ true) es
      → All (λ e. is_challenge e ≡ true) (or_plain is_bearer fields status es)
  unfolding or_plain authorization_error is_challenge
  or_plain-All status [] h = elim (Bool-cases (status == unauthorized)) [
    | inl w ↦ rw (w) (rw (w) refl, tt)
    | inr w ↦ rw (w) tt
  ]
  or_plain-All status (e ∷ es) h = h

  or_plain-nonempty :
      (es : List AuthorizationError) → or_plain is_bearer fields unauthorized es ≢ []
  unfolding or_plain
  or_plain-nonempty [] h = absurd (ground (arith, h))
  or_plain-nonempty (e ∷ es) h = absurd (ground (arith, h))

  challenges-All :
      (status : ℕ) (parsed : Option (List Challenge))
      → All (λ e. is_challenge e ≡ true) (authorization_challenges is_bearer fields status parsed)
  unfolding authorization_challenges
  challenges-All status parsed =
      elim (Bool-cases (not (status == unauthorized) && not (status == forbidden))) [
        | inl w ↦ rw (w) tt
        | inr w ↦ rw (w) (
            or_plain-All status _ (
              parsed_errors-All status parsed (elim (Bool-cases (status == unauthorized)) [
                | inl u ↦ inl (ground (arith, u))
                | inr u ↦ inr (ground (arith, u, w))
              ])))
      ]

  -- Every challenge that a response gives is one that `AuthorizationErrors` counts in an error. A
  -- response with status 401 gives one, whatever its header, and one with another status than 401
  -- and 403 gives none.
  pub authorization_challenges-count :
      (status : ℕ) (parsed : Option (List Challenge))
      → All (λ e. is_challenge e ≡ true) (authorization_challenges is_bearer fields status parsed)
        × (status ≡ unauthorized → authorization_challenges is_bearer fields status parsed ≢ [])
        × (status ≢ unauthorized
            → status ≢ forbidden
            → authorization_challenges is_bearer fields status parsed ≡ [])
  unfolding authorization_challenges
  authorization_challenges-count status parsed = (
    challenges-All status parsed,
    λ u h.
        or_plain-nonempty (parsed_errors is_bearer fields unauthorized parsed)
          (subst (λ s. authorization_challenges is_bearer fields s parsed ≡ []) u h),
    λ u f. ground (arith, u, f),
  )
