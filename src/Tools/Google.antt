-- ===== src/Tools/Google.antt =====
-- What the Google tools of runtime/src/tools (gmail.ts, calendar.ts, drive.ts, sheets.ts) share: the
-- token of the workspace's connector, one request, and the answer's JSON. The host's fetch, clock,
-- percent encoding and base64 are parameters.
pub mod Gmail
pub mod Calendar
pub mod Drive
pub mod Sheets
pub mod Requests
pub mod Headers
use dream_team.Prelude.{
  ℕ, suc, min, max, String, Bool, true, false, ◌&&◌, Option, none, some, List, [], ◌∷◌, concat,
  show, str_eq, leb, if◌then◌else◌, or_else,
}
use dream_team.Json.{Json, null, bool, num, usd, str, arr, obj, Items, nil, cons, Fields, get}
use dream_team.Effects.{
  JsError, type_error, Attempt, returns, throws, M, pure, throw, call, attempt, ◌>>=◌,
}
use dream_team.Tools.Types.{ToolObservation, ToolExecContext, GoogleProvider, ConnectorAccess, fail}

pub data Method : Type 0 where
  get_request post_request : Method

pub record HttpRequest : Type 0 where
  pub method : Method
  pub url : String
  -- `url.searchParams`, in order
  pub params : List (String × String)
  pub bearer : String
  pub body : Option Json

pub record HttpResponse : Type 0 where
  pub status : ℕ

pub record Http (W : Type 0) : Type 0 where
  pub now_iso : W → Attempt String × W
  pub encode_component : String → String
  -- `Buffer.from(text, 'utf8').toString('base64url')`
  pub base64url : String → String
  -- `Number(v)`, where NaN is `none`
  pub to_number : Json → Option ℕ
  pub fetch : HttpRequest → W → Attempt HttpResponse × W
  -- `res.json()` of the response received last
  pub json : W → Attempt Json × W

abbrev pub is_ok : HttpResponse → Bool
is_ok res = leb 200 res.status && leb res.status 299

-- `connMsg(err)`
unfoldable pub conn_message : JsError → String
conn_message e =
    if str_eq e.name "ConnectorError"
    then concat (or_else e.code "undefined" ∷ ": " ∷ e.message ∷ [])
    else e.message

-- `v.key`, which throws where `v` is null.
unfoldable pub member : Json → String → Attempt (Option Json)
member null key =
    throws (type_error (concat ("Cannot read properties of null (reading '" ∷ key ∷ "')" ∷ [])))
member v key = returns (get v key)

-- `v?.key`
unfoldable pub opt_member : Option Json → String → Option Json
opt_member none key = none
opt_member (some null) key = none
opt_member (some v) key = get v key

-- `a ?? b`
unfoldable pub nullish : Option Json → Option Json → Option Json
nullish none b = b
nullish (some null) b = b
nullish a b = a

-- `a ?? v`
abbrev pub nullish_or : Option Json → Json → Json
nullish_or none v = v
nullish_or (some null) v = v
nullish_or (some a) v = a

abbrev pub lift : {W A : Type 0} → Attempt A → M W A
lift (returns a) = pure a
lift (throws e) = throw e

-- `xs.map(f)` of a JSON value: what is no array has no `map`.
unfoldable pub map_items : (Json → Attempt Json) → Items → Attempt Items
map_items f nil = returns nil
map_items f (cons v vs) = elim (f v) [
  | throws e ↦ throws e
  | returns u ↦ elim (map_items f vs) [ throws e ↦ throws e | returns us ↦ returns (cons u us) ]
]

unfoldable pub map_json : (Json → Attempt Json) → Json → Attempt Items
map_json f (arr vs) = map_items f vs
map_json f v = throws (type_error "map is not a function")

abbrev pub count_items : Items → ℕ
count_items nil = 0
count_items (cons v vs) = suc (count_items vs)

module _ {W : Type 0} (http : Http W) where
  -- `String(Math.min(Math.max(n ?? standard, 1), 50))`
  unfoldable pub limit_text : Option Json → ℕ → String
  limit_text given standard = elim given [
    | none ↦ show (min (max standard 1) 50)
    | some null ↦ show (min (max standard 1) 50)
    | some v ↦ elim (http.to_number v) [ none ↦ "NaN" | some n ↦ show (min (max n 1) 50) ]
  ]

  -- The connector's token, and what comes after it.
  unfoldable pub with_token :
      ConnectorAccess W → GoogleProvider → (String → M W ToolObservation) → M W ToolObservation
  with_token access provider next = do
    token ← attempt (access.google_token provider)
    elim token [ throws e ↦ pure (fail (conn_message e)) | returns t ↦ next t ]

  -- The request, and what comes after an answer that is ok.
  unfoldable pub send :
      (label api : String) → HttpRequest → (Json → M W ToolObservation) → M W ToolObservation
  send label api request next = do
    answer ← attempt (http.fetch request)
    elim answer [
      | throws e ↦ pure (fail (concat (label ∷ " request failed: " ∷ e.message ∷ [])))
      | returns res ↦
          if is_ok res
          then (call http.json >>= next)
          else pure (fail (concat (api ∷ " " ∷ show res.status ∷ [])))
    ]

  -- The guard that every one of the tools begins with.
  unfoldable pub with_connectors :
      (absent : String)
      → ToolExecContext W
      → (ConnectorAccess W → M W ToolObservation)
      → M W ToolObservation
  with_connectors absent ctx next = elim ctx.connectors [
    | none ↦ pure (fail absent)
    | some access ↦ next access
  ]
