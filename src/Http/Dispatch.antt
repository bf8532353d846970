-- ===== src/Http/Dispatch.antt =====
-- http_dispatch.go: which requests need no session.
use mmmcp.Base.{
  Bool, true, false, not, ◌||◌, if◌then◌else◌, Option, none, some, List, [], ◌∷◌, Text, codes,
  text_eq, text_lt, is_empty,
}

abbrev pub current_protocol_version : Text
current_protocol_version = codes "2026-07-28"

-- A decoded message: its method and the protocol version of its metadata, empty where that is no
-- text.
pub record Message : Type 0 where
  pub method : Text
  pub version : Text

-- The request; `body` is `none` where it cannot be read. The decoders of JSON are parameters of
-- the test.
pub record Request : Type 0 where
  pub method : Text
  pub protocol_version : Text
  pub session_id : Text
  pub body : Option Text

-- `version >= currentProtocolVersion`
abbrev pub is_current : Text → Bool
is_current version = not (text_lt version current_protocol_version)

unfoldable pub any_stateless : List Message → Bool
unfolding text_eq text_lt
any_stateless [] = false
any_stateless (m ∷ ms) =
    let rest = any_stateless ms in
    text_eq m.method (codes "server/discover") || is_current m.version || rest

-- The messages of a body: a list where it begins with a bracket, else one.
unfoldable pub messages_of :
    (Text → Option (List Message)) → (Text → Option Message) → Text → Option (List Message)
unfolding text_eq
messages_of decode_list decode_one [] = elim (decode_one []) [
  | none ↦ none
  | some m ↦ some (m ∷ [])
]
messages_of decode_list decode_one (b ∷ bs) =
    if text_eq (b ∷ []) (codes "[")
    then decode_list (b ∷ bs)
    else elim (decode_one (b ∷ bs)) as (λ m. Option (List Message)) [
      | none ↦ none
      | some m ↦ some (m ∷ [])
    ]

-- `requestIsStateless`
unfoldable pub request_is_stateless :
    (Text → Option (List Message)) → (Text → Option Message) → Request → Bool
unfolding messages_of any_stateless text_eq text_lt
request_is_stateless decode_list decode_one r =
    let by_body : Bool = elim r.body as (λ b. Bool) [
      | none ↦ false
      | some body ↦ elim (messages_of decode_list decode_one body) as (λ ms. Bool) [
        | none ↦ false
        | some ms ↦ any_stateless ms
      ]
    ] in
    if not (text_eq r.method (codes "POST"))
    then false
    else if is_current r.protocol_version
    then true
    else if not (is_empty r.session_id)
    then false
    else by_body
