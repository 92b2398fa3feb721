-- ===== src/Tools/Google/Gmail.antt =====
-- runtime/src/tools/gmail.ts: sending one mail.
use Prim.Native.Char.{Char, code}
use dream_team.Prelude.{
  String, Bool, true, false, ◌||◌, Option, none, some, [], ◌∷◌, concat, join, str_eq, ◌==◌,
  has_code_point, if◌then◌else◌,
}
use dream_team.Json.{Json, null, str, arr, Items, nil, cons, obj, field, end, get, truthy, to_text}
use dream_team.Gate.Types.{comm, t1}
use dream_team.Effects.{type_error, Attempt, returns, throws, M, pure, ◌>>=◌}
use dream_team.Tools.Types.{
  ToolDef, ToolObservation, ToolExecContext, ConnectorAccess, gmail, fail, succeed,
}
use dream_team.Tools.Google.{
  Http, HttpRequest, post_request, member, nullish_or, lift, with_token, send, with_connectors,
}

abbrev pub gmail_send_url : String
gmail_send_url = "https://gmail.googleapis.com/gmail/v1/users/me/messages/send"

abbrev pub is_break : Char → Bool
is_break c = code c == 13 || code c == 10

unfoldable pub replace_breaks : Bool → String → String
replace_breaks inside String.[] = ""
replace_breaks inside (String.◌∷◌ c s) =
    let skipped = replace_breaks true s in
    let kept = String.◌∷◌ c (replace_breaks false s) in
    if is_break c then (if inside then skipped else String.◌∷◌ " " skipped) else kept

-- `v.replace(/[\r\n]+/g, ' ')`
unfoldable pub sanitize_header : String → String
unfolding replace_breaks
sanitize_header v = replace_breaks false v

unfoldable pub message_text : (to : Json) → (subject body : String) → String
unfolding sanitize_header
message_text to subject body = concat (
    join "\r\n" (
      concat ("To: " ∷ to_text to ∷ [])
      ∷ concat ("Subject: " ∷ sanitize_header subject ∷ [])
      ∷ "Content-Type: text/plain; charset=\"UTF-8\""
      ∷ "MIME-Version: 1.0"
      ∷ [])
    ∷ "\r\n\r\n"
    ∷ body
    ∷ [])

abbrev has_at : Items → Bool
has_at nil = false
has_at (cons (str s) vs) = str_eq s "@" || has_at vs
has_at (cons v vs) = has_at vs

-- `input.to.includes('@')` of a value that is not falsy
unfoldable pub includes_at : Json → Attempt Bool
includes_at (str s) = returns (has_code_point 64 s)
includes_at (arr vs) = returns (has_at vs)
includes_at v = throws (type_error "input.to.includes is not a function")

-- The recipient: absent or falsy counts as no address.
abbrev pub recipient : Json → Option Json
recipient input = elim (get input "to") [
  | none ↦ none
  | some to ↦ if truthy to then some to else none
]

abbrev pub both_texts : Option Json → Option Json → Option (String × String)
both_texts (some (str subject)) (some (str body)) = some (subject, body)
both_texts _ _ = none

module _ {W : Type 0} (http : Http W) where
  -- The request that carries the message.
  unfoldable pub send_request : String → Json → String → String → HttpRequest
  send_request token to subject body = record {
    method = post_request;
    url = gmail_send_url;
    params = [];
    bearer = token;
    body = some (obj (field "raw" (str (http.base64url (message_text to subject body))) end));
  }

  unfoldable pub sent_observation : Json → Json → M W ToolObservation
  sent_observation to answer = do
    id ← lift (member answer "id")
    pure (
        succeed (concat ("gmail_send: sent to " ∷ to_text to ∷ []))
          (field "messageId" (nullish_or id null) (field "to" to end)))

  unfoldable pub gmail_deliver : ConnectorAccess W → Json → Json → M W ToolObservation
  gmail_deliver access input to = elim (both_texts (get input "subject") (get input "body")) [
    | none ↦ pure (fail "subject and body are required")
    | some (subject, body) ↦ with_token http access gmail (λ token.
        send http "gmail" "Gmail API" (send_request token to subject body) (sent_observation to))
  ]

  unfoldable pub gmail_checked : ConnectorAccess W → Json → M W ToolObservation
  gmail_checked access input = elim (recipient input) [
    | none ↦ pure (fail "a valid recipient (to) is required")
    | some to ↦ do
      valid ← lift (includes_at to)
      elim valid [
        | true ↦ gmail_deliver access input to
        | false ↦ pure (fail "a valid recipient (to) is required")
      ]
  ]

  unfoldable pub gmail_send_execute : Json → ToolExecContext W → M W ToolObservation
  gmail_send_execute input ctx =
      with_connectors http "email access is not available in this run" ctx
        (λ access. gmail_checked access input)

  unfoldable pub gmail_send_tool : ToolDef W
  gmail_send_tool = record {
    name = "gmail_send";
    capability = comm;
    action_tier = t1;
    path_arg = none;
    execute = gmail_send_execute;
  }
