-- ===== src/Connectors/Tokens.antt =====
-- What runtime/src/connectors/google.ts hands out as a usable token.
use dream_team.Prelude.{
  ◌<◌, String, ◌≡◌, refl, ap, ◌∙◌, subst, ◌⊎◌, inl, inr, true, ◌||◌, Option, some, ltb, ltb→lt, ◌+◌,
  ◌==◌, str_eq, arith, Bool-cases, Option-cases,
}
use dream_team.Json.{Json, get, truthy, to_text}
use dream_team.Effects.{Attempt, returns, throws, after_call}
use dream_team.Effects.Outcome.{attempt-cases}
use dream_team.Tools.Types.{GoogleProvider}
use dream_team.Tools.Google.{HttpResponse, is_ok, member}
use dream_team.Database.{SupabaseClient, get_connector_token_rpc}
use dream_team.Connectors.{
  Vault, ConnectorConfig, refresh_leeway_ms, provider_name, load_key, decrypt_token, given_token,
  expiry, status_connected, refreshed, refresh_token_with, without_refresh, renew, by_expiry,
  with_row, resolve_google_token,
}

module _ {W : Type 0} (vault : Vault W) (client : SupabaseClient W) (config : ConnectorConfig)
    (provider : GoogleProvider) where
  -- Google was asked with the stored refresh token and answered with a success, whose JSON holds the
  -- token under `access_token`.
  pub record IsRefreshed (row : Json) (key token : String) : Type 0 where
    pub stored : Option String
    pub decrypted : decrypt_token vault (get row "refresh_token_encrypted") key ≡ returns stored
    pub refresh_token : String
    pub present : given_token stored ≡ some refresh_token
    pub asked_in : W
    pub res : HttpResponse
    pub accepted :
        (vault.refresh config.google_client_id config.google_client_secret refresh_token asked_in).0
        ≡ returns res
    pub is_success : is_ok res ≡ true
    pub answer : Json
    pub answered_with :
        (vault.json
          (vault.refresh config.google_client_id config.google_client_secret refresh_token
            asked_in).1).0
        ≡ returns answer
    pub new_token : Json
    pub token_in : member answer "access_token" ≡ returns (some new_token)
    pub not_empty : truthy new_token ≡ true
    pub handed_out : token ≡ to_text new_token

  -- The token is the stored one, at a time before its expiry, or a refreshed one.
  abbrev pub IsFresh : Json → String → String → String → Type 0
  IsFresh row key access token =
      ((token ≡ access) × ((w : W) × ((vault.now w).0 < expiry vault (get row "expires_at"))))
      ⊎ IsRefreshed row key token

  -- The connector's row is there and connected, and its access token can be decrypted.
  pub record IsUsable (workspace : String) (w : W) (token : String) : Type 0 where
    pub key : String
    pub key_ok : load_key config.encryption_key_hex ≡ returns key
    pub row : Json
    pub answered :
        (get_connector_token_rpc client workspace (provider_name provider) w).0 ≡ returns row
    pub connected : status_connected (get row "status") ≡ true
    pub stored : Option String
    pub decrypted : decrypt_token vault (get row "access_token_encrypted") key ≡ returns stored
    pub access : String
    pub present : given_token stored ≡ some access
    pub fresh : IsFresh row key access token

  abbrev pub Yields : (String → Type 0) → Attempt String × W → Type 0
  Yields P (returns token, w) = P token
  Yields P (throws e, w) = Unit

  Yields-mono :
      (P Q : String → Type 0) (x : Attempt String × W)
      → Yields P x
      → ((t : String) → P t → Q t)
      → Yields Q x
  Yields-mono P Q (returns t, w) h k = k t h
  Yields-mono P Q (throws e, w) h k = tt

  refreshed-held :
      (answer : Json) (token : String)
      → refreshed vault client config provider answer ≡ returns token
      → (v : Json) × (member answer "access_token" ≡ returns (some v))
        × (truthy v ≡ true)
        × (token ≡ to_text v)
  unfolding refreshed
  refreshed-held answer token e = elim (attempt-cases (member answer "access_token")) [
    | inr (x, bad) ↦ cc (rw (bad, refreshed) at e)
    | inl (held, there) ↦ elim (Option-cases held) [
      | inl none' ↦ cc (rw none' at (rw (there, refreshed) at e))
      | inr (v, some') ↦ elim (Bool-cases (truthy v)) [
        | inr empty ↦ cc (rw empty at (rw some' at (rw (there, refreshed) at e)))
        | inl full ↦ (
          v,
          there ∙ ap returns some',
          full,
          cc (rw full at (rw some' at (rw (there, refreshed) at e))),
        )
      ]
    ]
  ]

  module _ (row : Json) (key : String) where
    read_answer :
        (stored : Option String) (token : String)
        → decrypt_token vault (get row "refresh_token_encrypted") key ≡ returns stored
        → given_token stored ≡ some token
        → (res : HttpResponse) (w w' : W)
        → (vault.refresh config.google_client_id config.google_client_secret token w).0
          ≡ returns res
        → is_ok res ≡ true
        → (a : Attempt Json)
        → (vault.json
            (vault.refresh config.google_client_id config.google_client_secret token w).1).0
          ≡ a
        → Yields
            (IsRefreshed row key)
            (after_call a (λ answer w''. (refreshed vault client config provider answer, w'')) w')
    read_answer stored token d p res w w' ok' good (throws e) same = tt
    read_answer stored token d p res w w' ok' good (returns answer) same =
        elim (attempt-cases (refreshed vault client config provider answer)) [
          | inr (x, e) ↦ rw e tt
          | inl (t, e) ↦
              let (v, there, full, text) = refreshed-held answer t e in
              rw e (record {
                stored = stored;
                decrypted = d;
                refresh_token = token;
                present = p;
                asked_in = w;
                res = res;
                accepted = ok';
                is_success = good;
                answer = answer;
                answered_with = same;
                new_token = v;
                token_in = there;
                not_empty = full;
                handed_out = text;
              })
        ]

    refresh_token_with-Yields :
        (stored : Option String) (token : String) (w : W)
        → decrypt_token vault (get row "refresh_token_encrypted") key ≡ returns stored
        → given_token stored ≡ some token
        → Yields (IsRefreshed row key) (refresh_token_with vault client config provider token w)
    unfolding refresh_token_with
    refresh_token_with-Yields stored token w d p =
        elim (Bool-cases
          (str_eq config.google_client_id "" || str_eq config.google_client_secret "")) [
            | inl missing ↦ rw (missing, refresh_token_with) tt
            | inr there ↦
                elim (attempt-cases
                  (vault.refresh config.google_client_id config.google_client_secret token w).0) [
                    | inr (x, e) ↦ rw (there, refresh_token_with) (rw (e, refresh_token_with) tt)
                    | inl (res, e) ↦ elim (Bool-cases (is_ok res)) [
                      | inr bad ↦
                          rw (there, refresh_token_with)
                            (rw (e, refresh_token_with) (rw (bad, refresh_token_with) tt))
                      | inl good ↦
                          rw (there, refresh_token_with)
                            (rw (e, refresh_token_with)
                              (rw (good, refresh_token_with)
                                (read_answer stored token d p res w _ e good _ refl)))
                    ]
                  ]
          ]

    without_refresh-Yields :
        (access : String) (w : W)
        → Yields (IsFresh row key access) (
            without_refresh vault client config provider access
              (expiry vault (get row "expires_at"))
              w)
    unfolding without_refresh
    without_refresh-Yields access w = elim (Bool-cases (expiry vault (get row "expires_at") == 0)) [
      | inl never ↦ rw (never, without_refresh) tt
      | inr some' ↦ elim (Bool-cases (ltb (vault.now w).0 (expiry vault (get row "expires_at")))) [
        | inl later ↦
            rw (some', without_refresh)
              (rw (later, without_refresh) (inl (refl, (w, ltb→lt _ _ later))))
        | inr gone ↦ rw (some', without_refresh) (rw (gone, without_refresh) tt)
      ]
    ]

    renew-Yields :
        (access : String) (w : W)
        → Yields (IsFresh row key access) (
            renew vault client config provider row key access
              (expiry vault (get row "expires_at"))
              w)
    unfolding renew
    renew-Yields access w =
        elim (attempt-cases (decrypt_token vault (get row "refresh_token_encrypted") key)) [
          | inr (x, e) ↦ rw (e, renew) tt
          | inl (stored, e) ↦ elim (Option-cases (given_token stored)) [
            | inl absent ↦ rw (e, renew) (rw (absent, renew) (without_refresh-Yields access w))
            | inr (token, p) ↦
                rw (e, renew)
                  (rw (p, renew)
                    (Yields-mono (IsRefreshed row key) (IsFresh row key access) _
                      (refresh_token_with-Yields stored token w e p) (λ t h. inr h)))
          ]
        ]

    by_expiry-Yields :
        (access : String) (w : W)
        → Yields (IsFresh row key access) (
            by_expiry vault client config provider row key access
              (expiry vault (get row "expires_at"))
              w)
    unfolding by_expiry
    by_expiry-Yields access w = elim (Bool-cases (expiry vault (get row "expires_at") == 0)) [
      | inl never ↦ rw (never, by_expiry) (renew-Yields access w)
      | inr some' ↦
          elim (Bool-cases
            (ltb (expiry vault (get row "expires_at")) ((vault.now w).0 + refresh_leeway_ms))) [
              | inl soon ↦ rw (some', by_expiry) (rw (soon, by_expiry) (renew-Yields access _))
              | inr later ↦
                  rw (some', by_expiry)
                    (rw (later, by_expiry) (inl (refl, (w, ground (arith, later)))))
            ]
    ]

  with_row-Yields :
      (workspace key : String) (row : Json) (w w' : W)
      → load_key config.encryption_key_hex ≡ returns key
      → (get_connector_token_rpc client workspace (provider_name provider) w).0 ≡ returns row
      → Yields (IsUsable workspace w) (with_row vault client config provider key row w')
  unfolding with_row
  with_row-Yields workspace key row w w' k a = elim (Bool-cases (truthy row)) [
    | inr absent ↦ rw (absent, with_row) tt
    | inl there ↦ elim (Bool-cases (status_connected (get row "status"))) [
      | inr off ↦ rw (there, with_row) (rw (off, with_row) tt)
      | inl on ↦ elim (attempt-cases (decrypt_token vault (get row "access_token_encrypted") key)) [
        | inr (x, e) ↦ rw (there, with_row) (rw (on, with_row) (rw (e, with_row) tt))
        | inl (stored, e) ↦ elim (Option-cases (given_token stored)) [
          | inl none' ↦
              rw (there, with_row) (rw (on, with_row) (rw (e, with_row) (rw (none', with_row) tt)))
          | inr (access, p) ↦
              rw (there, with_row)
                (rw (on, with_row)
                  (rw (e, with_row)
                    (rw (p, with_row)
                      (Yields-mono (IsFresh row key access) (IsUsable workspace w) _
                        (by_expiry-Yields row key access w')
                        (λ t fresh. record {
                          key = key;
                          key_ok = k;
                          row = row;
                          answered = a;
                          connected = on;
                          stored = stored;
                          decrypted = e;
                          access = access;
                          present = p;
                          fresh = fresh;
                        })))))
        ]
      ]
    ]
  ]

  asked-Yields :
      (workspace key : String) (w w' : W) (a : Attempt Json)
      → load_key config.encryption_key_hex ≡ returns key
      → (get_connector_token_rpc client workspace (provider_name provider) w).0 ≡ a
      → Yields (IsUsable workspace w) (after_call a (with_row vault client config provider key) w')
  asked-Yields workspace key w w' (throws e) k q = tt
  asked-Yields workspace key w w' (returns row) k q = with_row-Yields workspace key row w w' k q

  resolved-Yields :
      (workspace : String) (w : W)
      → Yields
          (IsUsable workspace w)
          (resolve_google_token vault client config workspace provider w)
  unfolding resolve_google_token
  resolved-Yields workspace w = elim (attempt-cases (load_key config.encryption_key_hex)) [
    | inr (x, e) ↦ rw (e, resolve_google_token) tt
    | inl (key, e) ↦ rw (e, resolve_google_token) (asked-Yields workspace key w _ _ e refl)
  ]

  -- A token is handed out only under a key of the right form, where the database's row for this
  -- workspace and provider is connected and its access token, decrypted under that key, is there:
  -- it is that token, read before its expiry, or the access_token of the JSON with which Google has
  -- answered, with a success, a refresh by the stored refresh token.
  pub resolve_google_token-IsUsable :
      (workspace token : String) (w w' : W)
      → resolve_google_token vault client config workspace provider w ≡ (returns token, w')
      → IsUsable workspace w token
  resolve_google_token-IsUsable workspace token w w' e =
      subst (Yields (IsUsable workspace w)) e (resolved-Yields workspace w)
