-- ===== src/Connectors.antt =====
-- runtime/src/connectors/google.ts: a usable access token of a workspace's Google connector. The
-- cipher, the clock, the date parser and the request to Google are parameters.
pub mod Tokens
use text.Mathlib.Text.{starts_with}
use Prim.Native.String
use dream_team.Prelude.{
  ℕ, ◌+◌, String, Bool, true, false, not, ◌||◌, ◌&&◌, Option, none, some, List, [], ◌∷◌, concat,
  show, codes, all, split, leb, ltb, ◌==◌, str_eq, if◌then◌else◌,
}
use dream_team.Json.{Json, null, str, get, truthy, to_text, optional_text}
use dream_team.Effects.{JsError, type_error, Attempt, returns, throws, then_call}
use dream_team.Tools.Types.{
  GoogleProvider, google_calendar, gmail, google_drive, google_sheets, ConnectorAccess,
}
use dream_team.Tools.Google.{HttpResponse, is_ok, member}
use dream_team.Database.{SupabaseClient, get_connector_token_rpc}

abbrev pub refresh_leeway_ms : ℕ
refresh_leeway_ms = 60_000

pub record Vault (W : Type 0) : Type 0 where
  -- AES-256-GCM with the key in hex, the nonce, the tag and the ciphertext in base64; nothing where it
  -- throws
  pub decipher : (key iv tag text : String) → Option String
  -- `Date.parse`, in milliseconds; NaN is `none`
  pub parse_date : String → Option ℕ
  pub now : W → ℕ × W
  -- The POST to Google's token endpoint, and `res.json()` of its answer
  pub refresh : (client_id client_secret refresh_token : String) → W → Attempt HttpResponse × W
  pub json : W → Attempt Json × W

pub record ConnectorConfig : Type 0 where
  pub encryption_key_hex : String
  pub google_client_id : String
  pub google_client_secret : String

abbrev pub provider_name : GoogleProvider → String
provider_name google_calendar = "google_calendar"
provider_name gmail = "gmail"
provider_name google_drive = "google_drive"
provider_name google_sheets = "google_sheets"

abbrev pub connector_error : String → String → JsError
connector_error code message = record {
  name = "ConnectorError";
  code = some code;
  message = message;
}

abbrev pub is_hex : ℕ → Bool
is_hex c = (leb 48 c && leb c 57) || (leb 97 c && leb c 102) || (leb 65 c && leb c 70)

unfoldable pub load_key : String → Attempt String
load_key hex =
    if String.len hex == 64 && all is_hex (codes hex)
    then returns hex
    else throws (connector_error "decrypt_failed" "connector encryption key must be 64 hex chars.")

-- The three parts of a payload.
unfoldable pub decrypt_parts :
    {W : Type 0} → Vault W → List String → String → Attempt (Option String)
decrypt_parts vault (iv ∷ tag ∷ text ∷ []) key = elim (vault.decipher key iv tag text) [
  | some plain ↦ returns (some plain)
  | none ↦
      throws (connector_error "decrypt_failed" "connector token failed authentication/decryption.")
]
decrypt_parts vault _ key =
    throws (connector_error "decrypt_failed" "malformed connector ciphertext payload.")

unfoldable pub decrypt_text : {W : Type 0} → Vault W → String → String → Attempt (Option String)
decrypt_text vault packed key =
    if str_eq packed ""
    then returns none
    else if starts_with packed "v1:"
    then decrypt_parts vault (split 58 (String.slice packed 3 (String.len packed))) key
    else throws (connector_error "decrypt_failed" "unrecognized connector ciphertext format.")

unfoldable pub decrypt_token :
    {W : Type 0} → Vault W → Option Json → String → Attempt (Option String)
decrypt_token vault none key = returns none
decrypt_token vault (some null) key = returns none
decrypt_token vault (some (str packed)) key = decrypt_text vault packed key
decrypt_token vault (some _) key = throws (type_error "packed.startsWith is not a function")

-- A token that is there and not empty.
abbrev pub given_token : Option String → Option String
given_token none = none
given_token (some t) = if str_eq t "" then none else some t

abbrev pub truthy_text : Option Json → Bool
truthy_text none = false
truthy_text (some v) = truthy v

-- `row.expires_at ? Date.parse(row.expires_at) : 0`, where NaN is as good as 0
unfoldable pub expiry : {W : Type 0} → Vault W → Option Json → ℕ
expiry vault none = 0
expiry vault (some v) =
    if truthy v then elim (vault.parse_date (to_text v)) [ none ↦ 0 | some ms ↦ ms ] else 0

abbrev pub status_connected : Option Json → Bool
status_connected (some (str s)) = str_eq s "connected"
status_connected _ = false

module _ {W : Type 0} (vault : Vault W) (client : SupabaseClient W) (config : ConnectorConfig) where
  abbrev pub World : Type 0 → Type 0
  World A = W → Attempt A × W

  abbrev pub done_with : {A : Type 0} → Attempt A → World A
  done_with a w = (a, w)

  unfoldable pub refreshed : GoogleProvider → Json → Attempt String
  refreshed provider answer = elim (member answer "access_token") [
    | throws e ↦ throws e
    | returns none ↦ throws (
        connector_error "refresh_failed"
          (concat (provider_name provider ∷ " refresh returned no access_token." ∷ [])))
    | returns (some token) ↦
        if truthy token
        then returns (to_text token)
        else throws (
            connector_error "refresh_failed"
              (concat (provider_name provider ∷ " refresh returned no access_token." ∷ [])))
  ]

  unfoldable pub refresh_token_with : GoogleProvider → String → World String
  refresh_token_with provider token =
      if str_eq config.google_client_id "" || str_eq config.google_client_secret ""
      then done_with (
          throws (connector_error "oauth_not_configured" "Google client id/secret not configured."))
      else then_call (vault.refresh config.google_client_id config.google_client_secret token)
          (λ res.
            if is_ok res
            then then_call vault.json (λ answer. done_with (refreshed provider answer))
            else done_with (
                throws (
                  connector_error "refresh_failed" (
                    concat (
                      provider_name provider
                      ∷ " token refresh failed ("
                      ∷ show res.status
                      ∷ ")."
                      ∷ [])))))

  -- Without a refresh token the access token serves until it expires.
  unfoldable pub without_refresh : GoogleProvider → String → ℕ → World String
  without_refresh provider access expires w =
      let (now, w') = vault.now w in
      let gone = throws (
        connector_error "refresh_unavailable" (
          concat (
            provider_name provider
            ∷ " token expired and no refresh token is stored — reconnect it."
            ∷ []))) in
      if expires == 0
      then (gone, w)
      else if ltb now expires
      then (returns access, w')
      else (gone, w')

  unfoldable pub renew : GoogleProvider → Json → String → String → ℕ → World String
  renew provider row key access expires =
      elim (decrypt_token vault (get row "refresh_token_encrypted") key) [
        | throws e ↦ done_with (throws e)
        | returns stored ↦ elim (given_token stored) [
          | none ↦ without_refresh provider access expires
          | some token ↦ refresh_token_with provider token
        ]
      ]

  -- The clock is read only where there is an expiry to compare it with.
  unfoldable pub by_expiry : GoogleProvider → Json → String → String → ℕ → World String
  by_expiry provider row key access expires w =
      let (now, w') = vault.now w in
      if expires == 0
      then renew provider row key access expires w
      else if ltb expires (now + refresh_leeway_ms)
      then renew provider row key access expires w'
      else (returns access, w')

  unfoldable pub with_row : GoogleProvider → String → Json → World String
  with_row provider key row =
      if truthy row
      then (if status_connected (get row "status")
          then elim (decrypt_token vault (get row "access_token_encrypted") key) [
            | throws e ↦ done_with (throws e)
            | returns stored ↦ elim (given_token stored) [
              | none ↦ done_with (
                  throws (
                    connector_error "token_missing" (
                      concat (
                        "No stored "
                        ∷ provider_name provider
                        ∷ " access token — reconnect it."
                        ∷ []))))
              | some access ↦
                  by_expiry provider row key access (expiry vault (get row "expires_at"))
            ]
          ]
          else done_with (
              throws (
                connector_error "not_connected" (
                  concat (
                    provider_name provider
                    ∷ " connector status is \""
                    ∷ optional_text (get row "status")
                    ∷ "\"."
                    ∷ [])))))
      else done_with (
          throws (
            connector_error "not_connected"
              (concat (provider_name provider ∷ " is not connected for this workspace." ∷ []))))

  unfoldable pub resolve_google_token : String → GoogleProvider → World String
  resolve_google_token workspace provider = elim (load_key config.encryption_key_hex) [
    | throws e ↦ done_with (throws e)
    | returns key ↦
        then_call (get_connector_token_rpc client workspace (provider_name provider))
          (with_row provider key)
  ]

  unfoldable pub make_connector_access : String → ConnectorAccess W
  make_connector_access workspace = record { google_token = resolve_google_token workspace }
