-- ===== src/App/OauthState.antt =====
-- app/src/lib/connectors/oauthState.ts: the signed `state` of the OAuth round trip.
pub mod Signed
use Prim.Native.Char.{Char}
use Prim.Native.String
use dream_team.Prelude.{
  ℕ, String, Bool, ◌&&◌, ◌||◌, Option, none, some, List, [], ◌∷◌, concat, length, str_eq, ◌==◌,
  if◌then◌else◌,
}
use dream_team.Json.{Json, str, obj, field, end, get}
use dream_team.Effects.{Attempt, returns, throws, plain_error}

-- What is used of `node:crypto`, `Buffer` and `JSON`.
pub record Node : Type 0 where
  pub hmac_sha256 : (key text : List ℕ) → List ℕ
  pub timing_safe_equal : List ℕ → List ℕ → Bool
  pub from_hex : String → List ℕ
  pub to_utf8 : String → List ℕ
  pub from_utf8 : List ℕ → String
  pub to_base64url : List ℕ → String
  pub from_base64url : String → Attempt (List ℕ)
  pub stringify : Json → String
  pub parse : String → Attempt Json

abbrev pub state_key_label : String
state_key_label = "oauth-state-v1"

-- The slug, the workspace id, the provider and the nonce.
pub record StatePayload : Type 0 where
  pub s : String
  pub w : String
  pub p : String
  pub n : String

abbrev pub payload_json : StatePayload → Json
payload_json payload = obj (
    field "s" (str payload.s)
      (field "w" (str payload.w) (field "p" (str payload.p) (field "n" (str payload.n) end))))

-- `typeof v[key] === 'string'`
abbrev pub text_field : Json → String → Option String
text_field v key = elim (get v key) [ some (str text) ↦ some text | _ ↦ none ]

abbrev pub four_texts : (s w p n : Option String) → Option StatePayload
four_texts (some s) (some w) (some p) (some n) = some (record { s = s; w = w; p = p; n = n })
four_texts _ _ _ _ = none

-- The payload in a parsed body.
unfoldable pub payload_in : Json → Option StatePayload
payload_in v =
    four_texts (text_field v "s") (text_field v "w") (text_field v "p") (text_field v "n")

abbrev pub before_cut : Char → Option (String × String) → Option (String × String)
before_cut c none = none
before_cut c (some (body, sig)) = some (String.◌∷◌ c body, sig)

-- What stands before and after the first dot.
unfoldable pub cut : String → Option (String × String)
cut String.[] = none
cut (String.◌∷◌ c text) =
    let later = before_cut c (cut text) in
    if str_eq (String.◌∷◌ c "") "." then some ("", text) else later

-- The body and the signature, neither of them empty.
unfoldable pub parts : String → Option (String × String)
parts raw = elim (cut raw) [
  | none ↦ none
  | some (body, sig) ↦ if str_eq body "" || str_eq sig "" then none else some (body, sig)
]

module _ (node : Node) where
  -- The key, from the environment variable CONNECTOR_TOKEN_ENCRYPTION_KEY.
  unfoldable pub state_key : Option String → Attempt (List ℕ)
  state_key none =
      throws (plain_error "CONNECTOR_TOKEN_ENCRYPTION_KEY is required to sign OAuth state.")
  state_key (some hex) =
      if str_eq hex ""
      then throws (plain_error "CONNECTOR_TOKEN_ENCRYPTION_KEY is required to sign OAuth state.")
      else returns (node.hmac_sha256 (node.from_hex hex) (node.to_utf8 state_key_label))

  abbrev pub signature_of : List ℕ → String → List ℕ
  signature_of key body = node.hmac_sha256 key (node.to_utf8 body)

  abbrev pub body_of : StatePayload → String
  body_of payload = node.to_base64url (node.to_utf8 (node.stringify (payload_json payload)))

  unfoldable pub sign_state : Option String → StatePayload → Attempt String
  sign_state env payload = elim (state_key env) [
    | throws e ↦ throws e
    | returns key ↦ returns (
        concat
          (body_of payload ∷ "." ∷ node.to_base64url (signature_of key (body_of payload)) ∷ []))
  ]

  unfoldable pub payload_of : String → Option StatePayload
  payload_of body = elim (node.from_base64url body) [
    | throws e ↦ none
    | returns bytes ↦ elim (node.parse (node.from_utf8 bytes)) [
      | throws e ↦ none
      | returns v ↦ payload_in v
    ]
  ]

  -- The signature is checked before the body is parsed.
  unfoldable pub verify_parts : List ℕ → (body sig : String) → Option StatePayload
  verify_parts key body sig = elim (node.from_base64url sig) [
    | throws e ↦ none
    | returns actual ↦
        if length actual == length (signature_of key body)
          && node.timing_safe_equal actual (signature_of key body)
        then payload_of body
        else none
  ]

  unfoldable pub verify_state : Option String → String → Attempt (Option StatePayload)
  verify_state env raw = elim (parts raw) [
    | none ↦ returns none
    | some (body, sig) ↦ elim (state_key env) [
      | throws e ↦ throws e
      | returns key ↦ returns (verify_parts key body sig)
    ]
  ]
