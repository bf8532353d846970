-- ===== src/Tests/Challenges.antt =====
-- A response of the model of component/authorization.go.
use mmmcp.Base.{◌≡◌, ◌≢◌, Bool, true, some, List, [], ◌∷◌, Text, codes, All}
use mmmcp.Authorization.{Challenge, is_challenge, unauthorized, forbidden, authorization_challenges}
use mmmcp.Authorization.Challenges.{authorization_challenges-count}

abbrev is_bearer : Text → Bool
is_bearer scheme = true

abbrev fields : Text → List Text
fields scope = scope ∷ []

abbrev missing_scope : Challenge
missing_scope = record {
  scheme = codes "Bearer";
  params = (codes "error", codes "insufficient_scope") ∷ [];
}

authorization_challenges-count_example :
    All
      (λ e. is_challenge e ≡ true)
      (authorization_challenges is_bearer fields 403 (some (missing_scope ∷ [])))
    × (403 ≡ unauthorized
        → authorization_challenges is_bearer fields 403 (some (missing_scope ∷ [])) ≢ [])
    × (403 ≢ unauthorized
        → 403 ≢ forbidden
        → authorization_challenges is_bearer fields 403 (some (missing_scope ∷ [])) ≡ [])
authorization_challenges-count_example =
    authorization_challenges-count is_bearer fields 403 (some (missing_scope ∷ []))
