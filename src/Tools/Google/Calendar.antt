-- ===== src/Tools/Google/Calendar.antt =====
-- runtime/src/tools/calendar.ts: reading upcoming events, and creating one.
use dream_team.Prelude.{
  String, Bool, false, ◌&&◌, Option, none, some, [], ◌∷◌, concat, show, is_blank, if◌then◌else◌,
}
use dream_team.Json.{Json, null, str, nil, arr, obj, Fields, field, end, get, truthy, to_text}
use dream_team.Gate.Types.{conr, conw, t1, t2}
use dream_team.Effects.{Attempt, returns, throws, M, pure, call, ◌>>=◌}
use dream_team.Tools.Types.{
  ToolDef, ToolObservation, ToolExecContext, ConnectorAccess, google_calendar, fail, succeed,
}
use dream_team.Tools.Google.{
  Http, HttpRequest, get_request, post_request, member, opt_member, nullish, nullish_or, lift,
  map_json, count_items, limit_text, with_token, send, with_connectors,
}

abbrev pub events_url : String
events_url = "https://www.googleapis.com/calendar/v3/calendars/primary/events"

abbrev pub or_null : Option Json → Json
or_null o = nullish_or o null

-- An event as the tools report it; of null there is none.
unfoldable pub normalize : Json → Attempt Json
unfolding member
normalize null = elim (member null "id") [ throws e ↦ throws e | returns o ↦ returns null ]
normalize e = returns (
    obj (
      field "providerEventId" (or_null (get e "id")) (
        field "summary" (nullish_or (get e "summary") (str "(no title)")) (
          field "start"
            (or_null
              (nullish (opt_member (get e "start") "dateTime") (opt_member (get e "start") "date")))
            (field "end"
              (or_null
                (nullish (opt_member (get e "end") "dateTime") (opt_member (get e "end") "date")))
              (field "htmlLink" (or_null (get e "htmlLink")) end))))))

abbrev pub is_truthy : Option Json → Bool
is_truthy none = false
is_truthy (some v) = truthy v

-- `...(v ? { key: v } : {})` before the rest
abbrev pub given : String → Option Json → Fields → Fields
given key none rest = rest
given key (some v) rest = if truthy v then field key v rest else rest

-- A title that is a text and not blank.
abbrev pub title_in : Option Json → Option String
title_in (some (str s)) = if is_blank s then none else some s
title_in _ = none

-- `{ dateTime, timeZone? }`
abbrev pub moment : Json → Option Json → Json
moment time zone = obj (field "dateTime" time (given "timeZone" zone end))

unfoldable pub event_body : String → Json → Json → Json → Json
event_body title start finish input = obj (
    field "summary" (str title) (
      given "description" (get input "description") (
        field "start" (moment start (get input "timeZone"))
          (field "end" (moment finish (get input "timeZone")) end))))

-- Both ends of the event, where neither is falsy.
abbrev pub both_times : Option Json → Option Json → Option (Json × Json)
both_times (some a) (some b) = if truthy a && truthy b then some (a, b) else none
both_times _ _ = none

module _ {W : Type 0} (http : Http W) where
  unfoldable pub list_events : Option Json → String → String → HttpRequest
  list_events max_results token now = record {
    method = get_request;
    url = events_url;
    params =
        ("timeMin", now)
        ∷ ("maxResults", limit_text http max_results 10)
        ∷ ("singleEvents", "true")
        ∷ ("orderBy", "startTime")
        ∷ [];
    bearer = token;
    body = none;
  }

  unfoldable pub listed : Json → M W ToolObservation
  listed answer = do
    found ← lift (member answer "items")
    events ← lift (map_json normalize (nullish_or found (arr nil)))
    pure (
        succeed (concat ("calendar_read: " ∷ show (count_items events) ∷ " upcoming event(s)" ∷ []))
          (field "events" (arr events) end))

  unfoldable pub calendar_read_execute : Json → ToolExecContext W → M W ToolObservation
  calendar_read_execute input ctx =
      with_connectors http "calendar access is not available in this run" ctx (λ access.
        with_token http access google_calendar (λ token. call http.now_iso >>= λ now.
        send http "calendar" "Google Calendar API" (list_events (get input "maxResults") token now)
          listed))

  unfoldable pub created : Json → M W ToolObservation
  created answer = do
    event ← lift (normalize answer)
    pure (
        succeed
          (concat
            ("calendar_write: created \"" ∷ to_text (or_null (get event "summary")) ∷ "\"" ∷ []))
          (field "event" event end))

  unfoldable pub create_event : String → Json → HttpRequest
  create_event token body = record {
    method = post_request;
    url = events_url;
    params = [];
    bearer = token;
    body = some body;
  }

  unfoldable pub calendar_checked : Json → ConnectorAccess W → M W ToolObservation
  calendar_checked input access = elim (title_in (get input "title")) [
    | none ↦ pure (fail "event title is required")
    | some title ↦ elim (both_times (get input "startIso") (get input "endIso")) [
      | none ↦ pure (fail "startIso and endIso are required")
      | some (start, finish) ↦ with_token http access google_calendar (λ token.
          send http "calendar" "Google Calendar API"
            (create_event token (event_body title start finish input)) created)
    ]
  ]

  unfoldable pub calendar_write_execute : Json → ToolExecContext W → M W ToolObservation
  calendar_write_execute input ctx =
      with_connectors http "calendar access is not available in this run" ctx
        (calendar_checked input)

  unfoldable pub calendar_read_tool : ToolDef W
  calendar_read_tool = record {
    name = "calendar_read";
    capability = conr;
    action_tier = t2;
    path_arg = none;
    execute = calendar_read_execute;
  }

  unfoldable pub calendar_write_tool : ToolDef W
  calendar_write_tool = record {
    name = "calendar_write";
    capability = conw;
    action_tier = t1;
    path_arg = none;
    execute = calendar_write_execute;
  }
