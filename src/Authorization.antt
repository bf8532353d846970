-- ===== src/Authorization.antt =====
-- component/authorization.go: the authorization challenges of components, in errors and in responses.
pub mod Challenges
use mmmcp.Base.{
  ℕ, Bool, true, false, not, ◌&&◌, ◌||◌, if◌then◌else◌, ◌==◌, Option, none, some, List, [], ◌∷◌,
  ◌++◌, Text, codes, text_eq, text_keys, lookup,
}

-- `AuthorizationError`
pub record AuthorizationError : Type 0 where
  pub component : Text
  pub url : Text
  pub status_code : ℕ
  pub realm : Text
  pub error_uri : Text
  pub resource_metadata : Text
  pub scope : Text
  pub scopes : List Text
  pub error_code : Text
  pub error_description : Text

abbrev pub unauthorized : ℕ
unauthorized = 401

abbrev pub forbidden : ℕ
forbidden = 403

abbrev pub insufficient_scope : Text
insufficient_scope = codes "insufficient_scope"

-- `Error`, where `status_text` is that of the status, with the code.
unfoldable pub error_text : (ℕ → Text) → AuthorizationError → Text
unfolding text_eq
error_text status_text e =
    let failed = codes "component authorization failed: " ++ status_text e.status_code in
    if not (text_eq e.error_code []) && not (text_eq e.error_description [])
    then failed ++ codes ": " ++ e.error_code ++ codes " (" ++ e.error_description ++ codes ")"
    else if not (text_eq e.error_code [])
    then failed ++ codes ": " ++ e.error_code
    else failed

-- An error as `AuthorizationErrors` sees it: a challenge or a nil pointer to one, an error that
-- joins several, one that wraps another, or neither. `no_error` is nil.
mutual
  pub data Error : Type 0 where
    no_error : Error
    challenge : Option AuthorizationError → Error
    joins : Errors → Error
    wraps : Error → Error
    plain : ℕ → Error

  pub data Errors : Type 0 where
    no_errors : Errors
    error : Error → Errors → Errors

-- Whether a challenge counts.
unfoldable pub is_challenge : AuthorizationError → Bool
unfolding text_eq
is_challenge e =
    e.status_code == unauthorized
    || e.status_code == forbidden && text_eq e.error_code insufficient_scope

-- `AuthorizationErrors`
unfoldable mutual
  unfolding is_challenge

  pub authorization_errors : Error → List AuthorizationError
  authorization_errors no_error = []
  authorization_errors (challenge none) = []
  authorization_errors (challenge (some e)) = if is_challenge e then e ∷ [] else []
  authorization_errors (joins errors) = errors_of errors
  authorization_errors (wraps inner) = authorization_errors inner
  authorization_errors (plain n) = []

  pub errors_of : Errors → List AuthorizationError
  errors_of no_errors = []
  errors_of (error first rest) = authorization_errors first ++ errors_of rest

-- A challenge of the header, parsed.
pub record Challenge : Type 0 where
  pub scheme : Text
  pub params : List (Text × Text)

-- `challenge.Params[name]`
abbrev pub param : Text → Challenge → Text
param name c = elim (lookup name c.params) [ none ↦ [] | some value ↦ value ]

module _ (is_bearer : Text → Bool) (fields : Text → List Text) where
  unfoldable pub authorization_error : ℕ → Challenge → AuthorizationError
  authorization_error status c = record {
    component = [];
    url = [];
    status_code = status;
    realm = param (codes "realm") c;
    error_uri = param (codes "error_uri") c;
    resource_metadata = param (codes "resource_metadata") c;
    scope = param (codes "scope") c;
    scopes = fields (param (codes "scope") c);
    error_code = param (codes "error") c;
    error_description = param (codes "error_description") c;
  }

  -- The loop over the challenges.
  unfoldable pub bearer_errors : ℕ → List Challenge → List AuthorizationError
  unfolding authorization_error text_eq
  bearer_errors status [] = []
  bearer_errors status (c ∷ cs) =
      let rest = bearer_errors status cs in
      if not (is_bearer c.scheme)
        || status == forbidden && not (text_eq (param (codes "error") c) insufficient_scope)
      then rest
      else authorization_error status c ∷ rest

  -- An error without parameters where a response with status 401 has no challenge.
  unfoldable pub or_plain : ℕ → List AuthorizationError → List AuthorizationError
  unfolding authorization_error
  or_plain status [] =
      if status == unauthorized
      then authorization_error status (record { scheme = []; params = [] }) ∷ []
      else []
  or_plain status (e ∷ es) = e ∷ es

  abbrev pub parsed_errors : ℕ → Option (List Challenge) → List AuthorizationError
  parsed_errors status none = []
  parsed_errors status (some cs) = bearer_errors status cs

  -- `AuthorizationChallenges`, for a status and the header, which is `none` where it does not parse.
  unfoldable pub authorization_challenges : ℕ → Option (List Challenge) → List AuthorizationError
  unfolding bearer_errors or_plain
  authorization_challenges status parsed =
      if not (status == unauthorized) && not (status == forbidden)
      then []
      else or_plain status (parsed_errors status parsed)
