-- ===== src/Tools/Google/Drive.antt =====
-- runtime/src/tools/drive.ts: listing files.
use dream_team.Prelude.{
  String, Option, none, some, List, [], ◌∷◌, ◌++◌, concat, show, is_blank, trim, if◌then◌else◌,
}
use dream_team.Json.{Json, null, str, arr, nil, obj, field, end, get, truthy}
use dream_team.Gate.Types.{conr, t2}
use dream_team.Effects.{type_error, Attempt, returns, throws, M, pure, ◌>>=◌}
use dream_team.Tools.Types.{ToolDef, ToolObservation, ToolExecContext, google_drive, succeed}
use dream_team.Tools.Google.{
  Http, HttpRequest, get_request, member, nullish_or, lift, map_json, count_items, limit_text,
  with_token, send, with_connectors,
}

abbrev pub files_url : String
files_url = "https://www.googleapis.com/drive/v3/files"

-- A file as the tool reports it; of null there is none.
unfoldable pub file_entry : Json → Attempt Json
unfolding member
file_entry null = elim (member null "id") [ throws e ↦ throws e | returns o ↦ returns null ]
file_entry f = returns (
    obj (
      field "id" (nullish_or (get f "id") null) (
        field "name" (nullish_or (get f "name") (str "(unnamed)")) (
          field "mimeType" (nullish_or (get f "mimeType") null) (
            field "modifiedTime" (nullish_or (get f "modifiedTime") null)
              (field "link" (nullish_or (get f "webViewLink") null) end))))))

-- The search query, trimmed; what is no text has no `trim`.
unfoldable pub query_of : Option Json → Attempt (Option String)
query_of none = returns none
query_of (some (str s)) = returns (if is_blank s then none else some (trim s))
query_of (some v) =
    if truthy v then throws (type_error "input.query.trim is not a function") else returns none

abbrev pub with_query : List (String × String) → Option String → List (String × String)
with_query params none = params
with_query params (some q) = params ++ ("q", q) ∷ []

module _ {W : Type 0} (http : Http W) where
  unfoldable pub list_files : Option Json → String → Option String → HttpRequest
  list_files max_results token query = record {
    method = get_request;
    url = files_url;
    params =
        with_query
          (("pageSize", limit_text http max_results 20)
            ∷ ("fields", "files(id,name,mimeType,modifiedTime,webViewLink)")
            ∷ ("orderBy", "modifiedTime desc")
            ∷ [])
          query;
    bearer = token;
    body = none;
  }

  unfoldable pub files_listed : Json → M W ToolObservation
  files_listed answer = do
    found ← lift (member answer "files")
    files ← lift (map_json file_entry (nullish_or found (arr nil)))
    pure (
        succeed (concat ("drive_read: " ∷ show (count_items files) ∷ " file(s)" ∷ []))
          (field "files" (arr files) end))

  unfoldable pub drive_query : Json → String → M W ToolObservation
  drive_query input token = do
    query ← lift (query_of (get input "query"))
    send http "drive" "Google Drive API" (list_files (get input "maxResults") token query)
        files_listed

  unfoldable pub drive_read_execute : Json → ToolExecContext W → M W ToolObservation
  drive_read_execute input ctx =
      with_connectors http "drive access is not available in this run" ctx
        (λ access. with_token http access google_drive (drive_query input))

  unfoldable pub drive_read_tool : ToolDef W
  drive_read_tool = record {
    name = "drive_read";
    capability = conr;
    action_tier = t2;
    path_arg = none;
    execute = drive_read_execute;
  }
