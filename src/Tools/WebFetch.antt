-- ===== src/Tools/WebFetch.antt =====
-- runtime/src/tools/web-fetch.ts: a GET of a public URL, guarded at every hop. URL parsing, the test
-- for an IP address, DNS, fetch and UTF-8 decoding are the host's, in the record `Net`.
pub mod Addresses
pub mod Public
pub mod Guard
pub mod Guarded
pub mod Calm
use dream_team.Prelude.{
  lower, ends_with, ℕ, zero, suc, ◌+◌, min, max, String, Bool, true, false, ◌&&◌, ◌||◌, Option,
  none, some, List, [], ◌∷◌, concat, show, is_blank, str_eq, leb, ltb, ◌==◌, length, if◌then◌else◌,
  or_else, ◌⊎◌, inl, inr,
}
use dream_team.Json.{Json, null, str, num, field, end, get}
use dream_team.Gate.Types.{netr, t2}
use dream_team.Effects.{JsError, Attempt, returns, throws, M, Session, ok, pure, attempt, ◌>>=◌}
use dream_team.Tools.Types.{ToolDef, ToolObservation, ToolExecContext, fail}
use dream_team.Tools.Shell.{units}
use dream_team.Tools.WebFetch.Addresses.{
  is_private_v4, is_private_v6, strip_brackets, before_semicolon,
}

abbrev pub default_max_bytes : ℕ
default_max_bytes = 1_000_000

abbrev pub hard_max_bytes : ℕ
hard_max_bytes = 5_000_000

abbrev pub max_redirects : ℕ
max_redirects = 5

pub record Url : Type 0 where
  pub protocol : String
  pub username : String
  pub password : String
  pub hostname : String

pub record Response : Type 0 where
  pub status : ℕ
  pub location : Option String
  pub content_type : Option String

pub record Net (W : Type 0) : Type 0 where
  pub parse_url : String → Option Url
  -- `new URL(location, base).toString()`
  pub resolve_url : (location base : String) → Attempt String
  pub is_ip : String → ℕ
  pub lookup : String → W → Attempt (List String) × W
  pub fetch : String → W → Attempt Response × W
  pub array_buffer : W → Attempt (List ℕ) × W
  pub decode : List ℕ → String
  -- `Number(v)`, where NaN is `none`
  pub to_number : Json → Option ℕ

abbrev pub take : List ℕ → ℕ → List ℕ
take [] n = []
take (b ∷ bs) zero = []
take (b ∷ bs) (suc n) = b ∷ take bs n

-- The bytes that are kept; a cap that is NaN keeps all.
abbrev pub keep_bytes : List ℕ → Option ℕ → List ℕ
keep_bytes bytes none = bytes
keep_bytes bytes (some cap) = if ltb cap (length bytes) then take bytes cap else bytes

abbrev pub clamp : ℕ → ℕ
clamp n = min (max n 1) hard_max_bytes

abbrev pub clamp_option : Option ℕ → Option ℕ
clamp_option none = none
clamp_option (some n) = some (clamp n)

abbrev pub url_in : Option Json → Option String
url_in (some (str s)) = if is_blank s then none else some s
url_in _ = none

module _ {W : Type 0} (net : Net W) where
  unfoldable pub cap_of : Option Json → Option ℕ
  cap_of none = some (clamp default_max_bytes)
  cap_of (some null) = some (clamp default_max_bytes)
  cap_of (some v) = clamp_option (net.to_number v)

  unfoldable pub is_private_ip : String → Bool
  is_private_ip ip =
      if net.is_ip ip == 4
      then is_private_v4 ip
      else if net.is_ip ip == 6
      then is_private_v6 (λ tail. net.is_ip tail == 4) (lower ip)
      else false

  -- The first private address.
  unfoldable pub first_private : List String → Option String
  first_private [] = none
  first_private (a ∷ rest) =
      let later = first_private rest in if is_private_ip a then some a else later

  -- The reason of a refusal, if there is one.
  unfoldable pub check_host : String → M W (Option String)
  unfolding first_private
  check_host host =
      if str_eq host "localhost" || ends_with host ".localhost"
      then pure (some (concat ("blocked host '" ∷ host ∷ "'" ∷ [])))
      else if net.is_ip host == 0
      then (do
        addrs ← attempt (net.lookup host)
        elim addrs [
          | throws e ↦ pure (some (concat ("dns lookup failed for '" ∷ host ∷ "'" ∷ [])))
          | returns found ↦ elim (first_private found) [
            | none ↦ pure none
            | some a ↦
                pure (some (concat ("'" ∷ host ∷ "' resolves to a private IP (" ∷ a ∷ ")" ∷ [])))
          ]
        ])
      else pure (
          if is_private_ip host
          then some (concat ("blocked private/loopback IP " ∷ host ∷ []))
          else none)

  unfoldable pub assert_public_http_url : String → M W (Option String)
  assert_public_http_url raw = elim (net.parse_url raw) [
    | none ↦ pure (some (concat ("invalid url: " ∷ raw ∷ [])))
    | some u ↦
        if str_eq u.protocol "http:" || str_eq u.protocol "https:"
        then (if str_eq u.username "" && str_eq u.password ""
            then check_host (strip_brackets u.hostname)
            else pure (some "url with embedded credentials (userinfo) is not allowed"))
        else pure (some (concat ("unsupported scheme '" ∷ u.protocol ∷ "' (http/https only)" ∷ [])))
  ]

  -- The observation of a `catch`.
  unfoldable pub caught : JsError → ToolObservation
  caught e =
      if str_eq e.name "AbortError"
      then fail "timeout after 10000ms"
      else fail (concat ("fetch failed: " ∷ e.message ∷ []))

  unfoldable pub fetched : Response → String → ToolObservation
  fetched res body =
      let content_type = or_else res.content_type "" in
      let is_ok = leb 200 res.status && leb res.status 299 in
      record {
        ok = is_ok;
        summary =
            if is_ok
            then concat (
                "web_fetch "
                ∷ show res.status
                ∷ " "
                ∷ before_semicolon content_type
                ∷ " ("
                ∷ show (units body)
                ∷ " bytes)"
                ∷ [])
            else concat ("web_fetch " ∷ show res.status ∷ []);
        value = some (
            field "status" (num res.status) (
              field "contentType" (str content_type)
                (field "bytes" (num (units body)) (field "body" (str body) end))));
        is_error = false;
      }

  unfoldable pub read_body : Option ℕ → Response → M W ToolObservation
  read_body cap res = do
    bytes ← attempt net.array_buffer
    elim bytes [
      | throws e ↦ pure (caught e)
      | returns all ↦ pure (fetched res (net.decode (keep_bytes all cap)))
    ]

  -- Where a redirect leads; a `Location` that is missing or empty leads nowhere.
  unfoldable pub redirect : String → Response → Attempt String ⊎ ToolObservation
  redirect current res = elim res.location [
    | none ↦ inr (fail (concat ("redirect " ∷ show res.status ∷ " without a Location header" ∷ [])))
    | some loc ↦
        if str_eq loc ""
        then inr (fail (concat ("redirect " ∷ show res.status ∷ " without a Location header" ∷ [])))
        else inl (net.resolve_url loc current)
  ]

  -- The loop, with the hops that are left.
  unfoldable pub hops : ℕ → String → Option ℕ → M W ToolObservation
  hops zero current cap =
      pure (fail (concat ("too many redirects (> " ∷ show max_redirects ∷ ")" ∷ [])))
  hops (suc left) current cap = do
    refusal ← assert_public_http_url current
    elim refusal [
      | some reason ↦ pure (fail reason)
      | none ↦ do
        answer ← attempt (net.fetch current)
        elim answer [
          | throws e ↦ pure (caught e)
          | returns res ↦
              if leb 300 res.status && ltb res.status 400
              then elim (redirect current res) [
                | inr obs ↦ pure obs
                | inl (throws e) ↦ pure (caught e)
                | inl (returns next) ↦ hops left next cap
              ]
              else read_body cap res
        ]
    ]

  unfoldable pub web_fetch_execute : Json → ToolExecContext W → M W ToolObservation
  unfolding hops cap_of
  web_fetch_execute input ctx = elim (url_in (get input "url")) [
    | none ↦ pure (fail "empty url")
    | some url ↦ hops (suc max_redirects) url (cap_of (get input "maxBytes"))
  ]

  unfoldable pub web_fetch_tool : ToolDef W
  web_fetch_tool = record {
    name = "web_fetch";
    capability = netr;
    action_tier = t2;
    path_arg = none;
    execute = web_fetch_execute;
  }
