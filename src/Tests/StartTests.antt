-- ===== src/Tests/StartTests.antt =====
-- runtime/src/index.ts, runtime/src/host, runtime/src/artifacts, runtime/src/connectors and
-- runtime/src/confine at concrete inputs.
use dream_team.Prelude.{
  map, keep, get_elem?, ℕ, ◌<◌, String, ◌≡◌, ◌≢◌, refl, ◌⊎◌, true, false, none, some, List, [], ◌∷◌,
  All, is_some, str_eq, is_blank, is_space, split, if◌then◌else◌,
}
use dream_team.Json.{Json, null, bool, str, obj, field, end, get, get_fields}
use dream_team.Gate.Types.{tier_of, cap_eq, RoleGrant}
use dream_team.Gate.Grants.{role_grant, matrix}
use dream_team.Gate.Objects.{index, lookup, has_own}
use dream_team.Gate.Org.{is_dispatcher, routing}
use dream_team.Effects.{JsError, returns, throws, ok, plain_error}
use dream_team.Effects.Settled.{Settles, IsCalmRun}
use dream_team.Effects.Later.{IsLater}
use dream_team.Artifacts.Types.{markdown}
use dream_team.Artifacts.Record.{
  Files, ArtifactSpec, RecordContext, live, live_record, record_artifact_if_live,
}
use dream_team.Artifacts.Live.{IsLive, Unrecorded, record_artifact_if_live-IsLive}
use dream_team.Artifacts.Upload.{UploadDeps, UploadArgs, upload, object_name}
use dream_team.Artifacts.Keys.{all_safe, object_name-all_safe}
use dream_team.Artifacts.Stored.{IsStored, ThrewAt, read, stored, upload-IsStored}
use dream_team.Paths.{basename}
use dream_team.Database.{SupabaseClient, RpcAnswer, rpc_value, get_connector_token_rpc}
use dream_team.Connectors.{
  Vault, ConnectorConfig, load_key, decrypt_token, decrypt_text, decrypt_parts, expiry, with_row,
  by_expiry, resolve_google_token,
}
use dream_team.Connectors.Tokens.{IsUsable, resolve_google_token-IsUsable}
use dream_team.Confine.{ExecCallback, docker_confinement}
use dream_team.Confine.Isolated.{by_docker}
use dream_team.Tools.Types.{software_confinement, ToolDef, ToolExecContext, gmail}
use dream_team.Tools.Plan.{set_plan_tool}
use dream_team.Tools.Spawn.{spawn_tool}
use dream_team.Tools.WriteFile.{write_file_tool}
use dream_team.Tools.WebFetch.{web_fetch_tool}
use dream_team.Tools.Google.Calendar.{calendar_read_tool, calendar_write_tool}
use dream_team.Tools.Google.Drive.{drive_read_tool}
use dream_team.Tools.Google.Sheets.{sheets_read_tool}
use dream_team.Tools.Shell.{shell_tool, command_in}
use dream_team.Tools.WebFetch.{Net}
use dream_team.Tools.Google.{Http}
use dream_team.Tools.Google.Gmail.{gmail_send_tool, sanitize_header}
use dream_team.Tools.Google.Headers.{one_line, sanitize_header-one_line}
use dream_team.Tools.Registry.{Host, all_tools, tools_for_role}
use dream_team.Tools.Registry.Surface.{
  signature, tool_table, tools_for_role-dispatcher, tools_for_role-table,
}
use dream_team.Tools.Registry.Frame.{tools_for_role-IsCalmRun}
use dream_team.Tools.Registry.Kept.{tools_for_role-Keeps}
use dream_team.Tools.Registry.Lasting.{tools_for_role-Lasts}
use dream_team.Loop.Calls.{Lasts}
use dream_team.Start.{StartRunInput, StartRunDeps, dispatch_run, governed, start_run}
use dream_team.Start.Gated.{IsMember, asked, Refused, start_run-IsMember}
use dream_team.Start.Kept.{IsOfRun, governed-IsLater}
use dream_team.Start.Tree.{start_run-Settles}
use dream_team.Host.{AdapterConfig, RunStartRequest, handle_run_start}
use dream_team.Host.Replies.{Answers, handle_run_start-Answers}
use dream_team.Tests.World.{Tape, files, model, options, no_approvals, one_call, session, planner}

abbrev net : Net Tape
net = record {
  parse_url = λ _. none;
  resolve_url = λ location base. returns location;
  is_ip = λ s. 0;
  lookup = λ host tape. (returns [], tape);
  fetch = λ url tape. (throws (plain_error "offline"), tape);
  array_buffer = λ tape. (returns [], tape);
  decode = λ bytes. "";
  to_number = λ v. none;
}

abbrev http : Http Tape
http = record {
  now_iso = λ tape. (returns "2026-01-01T00:00:00.000Z", tape);
  encode_component = λ s. s;
  base64url = λ s. s;
  to_number = λ v. none;
  fetch = λ request tape. (returns (record { status = 200 }), tape);
  json = λ tape. (returns (obj (field "id" (str "m1") end)), tape);
}

abbrev host : Host Tape
host = record { fs = files; net = net; http = http }

-- Every file holds three bytes.
abbrev disk : Files Tape
disk = record {
  stat = λ path tape. (returns (record { is_file = true; size = 3 }), tape);
  read_text = λ path tape. (returns "abc", tape);
  read_bytes = λ path tape. (returns (97 ∷ 98 ∷ 99 ∷ []), tape);
}

abbrev vault : Vault Tape
vault = record {
  decipher = λ key iv tag text. some text;
  parse_date = λ text. some 1_000_000;
  now = λ tape. (0, tape);
  refresh = λ id secret token tape. (returns (record { status = 400 }), tape);
  json = λ tape. (returns null, tape);
}

-- A database whose user is a member and whose connectors are connected.
abbrev answer : String → RpcAnswer
answer name =
    if str_eq name "is_workspace_member"
    then record { value = bool true; error = none }
    else record {
      value = obj (
          field "status" (str "connected") (
            field "access_token_encrypted" (str "v1:i:t:token")
              (field "expires_at" (str "later") end)));
      error = none;
    }

abbrev client : SupabaseClient Tape
client = record { rpc = λ name params tape. (returns (answer name), tape); storage = none }

abbrev input : StartRunInput
input = record {
  workspace_id = "w1";
  ticket_id = "t1";
  role = "code-developer";
  grant = planner;
  approvals = no_approvals;
  system = "";
  messages = options.messages;
  max_tokens = 4096;
  workspace_root = "/ws";
}

abbrev deps : StartRunDeps Tape
deps = record {
  supabase = client;
  model_client = model;
  tools = set_plan_tool ∷ [];
  failure_emitter = false;
  confinement = none;
  connector_config = none;
}

lasting : All (Lasts {W = Tape} ⊥) deps.tools
unfolding set_plan_tool
lasting = (λ given ctx s below. tt, tt)

start_run-Settles_example : Settles ⊥ (start_run host disk vault input deps)
start_run-Settles_example = start_run-Settles host disk vault input deps lasting

start_run-IsMember_example :
    (IsMember (asked host disk vault input deps (session one_call)).0
      × (start_run host disk vault input deps (session one_call)
          ≡ dispatch_run host disk vault input deps (session one_call)))
    ⊎ (¬ (IsMember (asked host disk vault input deps (session one_call)).0)
        × Refused host disk vault input deps (session one_call))
start_run-IsMember_example = start_run-IsMember host disk vault input deps (session one_call)

abbrev config : AdapterConfig Tape
config = record {
  is_encryption_available = λ tape. (returns true, tape);
  anthropic_key = λ tape. (returns "key", tape);
  session = λ tape. (returns null, tape);
  make_supabase_client = λ given tape. (returns client, tape);
  make_model_client = λ key tape. (returns model, tape);
  grant_for = λ role. returns planner;
  approvals_for = λ req. returns no_approvals;
  tools_for = tools_for_role host;
  system_for = λ role brief. returns brief;
  connector_config = none;
  failure_emitter = false;
}

abbrev request : RunStartRequest
request = record {
  workspace_id = "w1";
  ticket_id = "t1";
  role = "code-developer";
  messages = options.messages;
  max_tokens = 4096;
  workspace_root = "/ws";
}

handle_run_start-Answers_example :
    Answers (handle_run_start host disk vault config request (session one_call))
handle_run_start-Answers_example =
    handle_run_start-Answers host disk vault config request
      (tools_for_role-Lasts ⊥ host "code-developer") (session one_call)

coordinator :
    (g : RoleGrant) × (role_grant "build-coordinator" ≡ some g)
    × (is_dispatcher "build-coordinator" ≡ true)
unfolding role_grant index lookup matrix is_dispatcher has_own routing
coordinator = (_, refl, refl)

tools_for_role-dispatcher_example :
    tools_for_role host "build-coordinator" ≡ returns (set_plan_tool ∷ spawn_tool ∷ [])
tools_for_role-dispatcher_example =
    tools_for_role-dispatcher host "build-coordinator" coordinator.0 coordinator.1 coordinator.2

developer_grant : (g : RoleGrant) × (role_grant "code-developer" ≡ some g)
unfolding role_grant index lookup matrix
developer_grant = (_, refl)

developer :
    (ts : List (ToolDef Tape)) × (tools_for_role host "code-developer" ≡ returns ts)
    × (get_elem? ts 1 ≡ some (write_file_tool files))
unfolding tools_for_role all_tools role_grant index lookup matrix is_dispatcher has_own routing
    tier_of cap_eq set_plan_tool write_file_tool shell_tool spawn_tool web_fetch_tool
    calendar_read_tool calendar_write_tool gmail_send_tool drive_read_tool sheets_read_tool
developer = (_, refl, refl)

not_spawn : (write_file_tool files).name ≢ "spawn"
unfolding write_file_tool
not_spawn = λ e. absurd (cc e)

tools_for_role-table_example :
    map signature developer.0
    ≡ keep (λ t. is_some (tier_of developer_grant.0 t.capability)) tool_table
tools_for_role-table_example =
    tools_for_role-table host "code-developer" developer_grant.0 developer.0 developer_grant.1
      developer.1

abbrev spec : ArtifactSpec
spec = record {
  abs_path = "/ws/report.md";
  predicate = λ content. returns (str_eq content "abc");
  kind = markdown;
  mime_type = none;
}

abbrev ctx : RecordContext
ctx = record { workspace_id = "w1"; ticket_id = some "t1"; role = "code-developer" }

record_artifact_if_live-IsLive_example :
    ((bytes : ℕ) × (w : Tape) × IsLive disk spec [] bytes
      × (record_artifact_if_live disk spec ctx (session []) ≡ (
        ok (live bytes),
        record (session []) { world = w; artifacts = live_record spec ctx bytes ∷ [] },
      )))
    ⊎ (((bytes : ℕ) → ¬ (IsLive disk spec [] bytes))
        × Unrecorded disk spec (session []) (record_artifact_if_live disk spec ctx (session [])))
record_artifact_if_live-IsLive_example = record_artifact_if_live-IsLive disk spec ctx (session [])

object_name-all_safe_example :
    (object_name "/ws/my report.md" ≢ "")
    × (all_safe (object_name "/ws/my report.md") ≡ true)
    × (basename "/ws/my report.md" ≢ ""
        → all_safe (basename "/ws/my report.md") ≡ true
        → object_name "/ws/my report.md" ≡ basename "/ws/my report.md")
object_name-all_safe_example = object_name-all_safe "/ws/my report.md"

abbrev bucket : UploadDeps Tape
bucket = record {
  storage = record { upload = λ path body kind tape. (returns none, tape) };
  set_storage_path = λ id path s. (ok tt, s);
  read_bytes = disk.read_bytes;
  max_bytes = 10;
}

abbrev stored_file : UploadArgs
stored_file = record {
  artifact_id = "a1";
  workspace_id = "w1";
  ticket_id = none;
  abs_path = "/ws/report.md";
  bytes = 3;
  mime_type = none;
  kind = markdown;
}

upload-IsStored_example :
    ((h : IsStored bucket stored_file (session [])) × (upload bucket stored_file (session [])
        ≡ (ok tt, session [])))
    ⊎ (((10 < 3) × ThrewAt bucket stored_file (session []) [])
        ⊎ (((e : JsError) × ((read bucket stored_file (session [])).0 ≡ throws e)
              × ThrewAt bucket stored_file (session []) [])
            ⊎ ((body : List ℕ) × ((read bucket stored_file (session [])).0 ≡ returns body)
                × ((stored bucket stored_file (session []) body).0 ≢ returns none)
                × ThrewAt bucket stored_file (session []) [])))
upload-IsStored_example = upload-IsStored bucket stored_file (session [])

abbrev secrets : ConnectorConfig
secrets = record {
  encryption_key_hex = "0123456789abcdef0123456789abcdef0123456789abcdef0123456789abcdef";
  google_client_id = "id";
  google_client_secret = "secret";
}

abbrev no_world : Tape
no_world = []

resolved_token :
    resolve_google_token vault client secrets "w1" gmail no_world ≡ (returns "token", no_world)
unfolding resolve_google_token load_key get_connector_token_rpc rpc_value with_row decrypt_token
    decrypt_text decrypt_parts by_expiry expiry get get_fields split
resolved_token = refl

resolve_google_token-IsUsable_example : IsUsable vault client secrets gmail "w1" no_world "token"
resolve_google_token-IsUsable_example =
    resolve_google_token-IsUsable vault client secrets gmail "w1" "token" no_world no_world
      resolved_token

abbrev no_docker : List String → ℕ → Tape → ExecCallback × Tape
no_docker argv timeout tape = (record { error = none; stdout = "built"; stderr = "" }, tape)

abbrev container : ToolExecContext Tape
container = record {
  boundary = record { workspace_root = "/ws"; read_allowlist = [] };
  confine = some (docker_confinement no_docker "/ws" (by_docker no_docker "/ws" "node:20-alpine"));
  spawn = none;
  connectors = none;
  after_resolve_before_open = none;
}

abbrev make : Json
make = obj (field "command" (str "make") end)

has_command : command_in (get make "command") ≡ some "make"
unfolding get get_fields is_blank is_space
has_command = refl

sanitize_header-one_line_example :
    (one_line (sanitize_header "a\r\nBcc: b") ≡ true)
    × (one_line "a\r\nBcc: b" ≡ true → sanitize_header "a\r\nBcc: b" ≡ "a\r\nBcc: b")
sanitize_header-one_line_example = sanitize_header-one_line "a\r\nBcc: b"

abbrev asks_write : Json
asks_write = obj (field "path" (str "a.md") (field "content" (str "abc") end))

tools_for_role-IsCalmRun_example :
    IsCalmRun ⊥ (session []) ((write_file_tool files).execute asks_write container (session []))
tools_for_role-IsCalmRun_example =
    tools_for_role-IsCalmRun host "code-developer" developer.0 1 (write_file_tool files) developer.1
      developer.2 not_spawn asks_write container (session [])

abbrev all_of_role : StartRunDeps Tape
all_of_role = record deps { tools = developer.0 }

governed-IsLater_example :
    IsLater
      (IsOfRun input)
      (session one_call)
      (governed host disk vault input all_of_role (software_confinement "/ws") (session one_call)).1
governed-IsLater_example =
    governed-IsLater host disk vault input all_of_role (software_confinement "/ws")
      (session one_call)
      (tools_for_role-Keeps (IsOfRun input) host "code-developer" developer.0 developer.1)
