-- ===== src/Tools/Google/Sheets.antt =====
-- runtime/src/tools/sheets.ts: reading a range of cells.
use dream_team.Prelude.{
  String, Option, none, some, [], ◌∷◌, concat, show, is_blank, trim, if◌then◌else◌,
}
use dream_team.Json.{Json, str, arr, nil, field, end, get, truthy, to_text, optional_text}
use dream_team.Gate.Types.{conr, t2}
use dream_team.Effects.{JsError, type_error, Attempt, returns, throws, M, pure, ◌>>=◌}
use dream_team.Tools.Types.{
  ToolDef, ToolObservation, ToolExecContext, ConnectorAccess, google_sheets, fail, succeed,
}
use dream_team.Tools.Shell.{units}
use dream_team.Tools.Google.{
  Http, HttpRequest, get_request, member, nullish_or, lift, count_items, with_token, send,
  with_connectors,
}

abbrev pub sheets_base : String
sheets_base = "https://sheets.googleapis.com/v4/spreadsheets"

abbrev pub no_trim : String → JsError
no_trim name = type_error (concat (name ∷ ".trim is not a function" ∷ []))

-- The spreadsheet's id; falsy or blank counts as missing, and what is no text has no `trim`.
unfoldable pub spreadsheet_id : Option Json → Attempt (Option String)
spreadsheet_id none = returns none
spreadsheet_id (some (str s)) = returns (if is_blank s then none else some s)
spreadsheet_id (some v) = if truthy v then throws (no_trim "input.spreadsheetId") else returns none

unfoldable pub range_of : Option Json → Attempt String
range_of none = returns "A1:Z100"
range_of (some (str s)) = returns (if is_blank s then "A1:Z100" else trim s)
range_of (some v) = if truthy v then throws (no_trim "input.range") else returns "A1:Z100"

-- `values.length` in a text
unfoldable pub length_text : Json → String
length_text (arr vs) = show (count_items vs)
length_text (str s) = show (units s)
length_text v = optional_text (get v "length")

module _ {W : Type 0} (http : Http W) where
  unfoldable pub values_request : String → String → String → HttpRequest
  values_request id range token = record {
    method = get_request;
    url = concat (
        sheets_base
        ∷ "/"
        ∷ http.encode_component id
        ∷ "/values/"
        ∷ http.encode_component range
        ∷ []);
    params = [];
    bearer = token;
    body = none;
  }

  unfoldable pub values_read : String → Json → M W ToolObservation
  values_read range answer = do
    values ← lift (member answer "values")
    named ← lift (member answer "range")
    let rows = nullish_or values (arr nil)
    let shown = nullish_or named (str range)
    pure (
        succeed (concat ("sheets_read: " ∷ length_text rows ∷ " row(s) from " ∷ to_text shown ∷ []))
          (field "range" shown (field "values" rows end)))

  unfoldable pub sheets_range : Json → String → String → M W ToolObservation
  sheets_range input id token = do
    range ← lift (range_of (get input "range"))
    send http "sheets" "Google Sheets API" (values_request id range token) (values_read range)

  unfoldable pub sheets_checked : Json → ConnectorAccess W → M W ToolObservation
  sheets_checked input access = do
    id ← lift (spreadsheet_id (get input "spreadsheetId"))
    elim id [
      | none ↦ pure (fail "spreadsheetId is required")
      | some i ↦ with_token http access google_sheets (sheets_range input i)
    ]

  unfoldable pub sheets_read_execute : Json → ToolExecContext W → M W ToolObservation
  sheets_read_execute input ctx =
      with_connectors http "sheets access is not available in this run" ctx (sheets_checked input)

  unfoldable pub sheets_read_tool : ToolDef W
  sheets_read_tool = record {
    name = "sheets_read";
    capability = conr;
    action_tier = t2;
    path_arg = none;
    execute = sheets_read_execute;
  }
