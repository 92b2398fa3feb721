-- ===== src/Tests/World.antt =====
-- The world of the tests of runtime/src: the answers that the scripted model has left, and a file
-- system with the one directory /ws.
use dream_team.Prelude.{String, true, false, none, some, List, [], ◌∷◌, str_eq, ◌||◌, if◌then◌else◌}
use dream_team.Json.{Json, num, str, arr, obj, nil, cons, end, field}
use dream_team.Gate.Types.{RoleGrant, ApprovalSet, plan, t0, t3, w}
use dream_team.Effects.{JsError, Attempt, returns, throws, Session, plain_error}
use dream_team.Workspace.{Fs}
use dream_team.Tools.Types.{software_confinement}
use dream_team.Tools.Plan.{set_plan_tool}
use dream_team.Loop.Types.{
  ToolUseBlock, ContentBlock, tool_use, text, StopReason, end_turn, CreateMessageRequest,
  CreateMessageResponse, ModelClient, RunLoopOptions, user, seed,
}

abbrev pub Tape : Type 0
Tape = List CreateMessageResponse

abbrev pub next : CreateMessageRequest → Tape → Attempt CreateMessageResponse × Tape
next request [] = (throws (plain_error "the tape is exhausted"), [])
next request (r ∷ rest) = (returns r, rest)

abbrev pub model : ModelClient Tape
model = record { create_message = next }

abbrev pub absent : JsError
absent = record { name = "Error"; code = some "ENOENT"; message = "no such file or directory" }

abbrev pub real : String → Tape → Attempt String × Tape
real p tape = ((if str_eq p "/ws" || str_eq p "/" then returns p else throws absent), tape)

abbrev pub files : Fs Tape
files = record {
  realpath = real;
  is_directory = λ _ tape. (returns true, tape);
  mkdir_recursive = λ _ tape. (returns tt, tape);
  open_no_follow = λ _ tape. (returns tt, tape);
  is_symbolic_link = λ _ tape. (returns false, tape);
  write_handle = λ _ tape. (returns tt, tape);
  close_handle = λ tape. (returns tt, tape);
}

abbrev pub response : StopReason → List ContentBlock → CreateMessageResponse
response reason content = record {
  content = content;
  stop_reason = reason;
  usage = record {
    input_tokens = 1000;
    output_tokens = 100;
    cache_read_input_tokens = none;
    cache_creation_input_tokens = none;
  };
}

abbrev pub plan_input : Json
plan_input = obj (
    field "goal" (str "ship") (
      field "steps"
        (arr (
          cons
            (obj (
              field "id" (num 1)
                (field "description" (str "build") (field "status" (str "pending") end))))
            nil))
        end))

abbrev pub plan_call : ToolUseBlock
plan_call = record { id = "call-1"; name = "set_plan"; input = plan_input }

-- One call of set_plan, then the end.
abbrev pub one_call : Tape
one_call = response tool_use (tool_use plan_call ∷ []) ∷ response end_turn (text "done" ∷ []) ∷ []

abbrev pub session : Tape → Session Tape
session tape = record {
  world = tape;
  tree_spend = 0;
  trace = [];
  packets = [];
  artifacts = [];
  warnings = [];
}

abbrev pub planner : RoleGrant
planner = (plan, t0) ∷ (w, t3) ∷ []

abbrev pub no_approvals : ApprovalSet
no_approvals = record { standing = []; per_action = [] }

abbrev pub options : RunLoopOptions Tape
options = record {
  model_client = model;
  confinement = software_confinement "/ws";
  role = "code-developer";
  grant = planner;
  approvals = no_approvals;
  tools = set_plan_tool ∷ [];
  system = "";
  messages = record { role = user; content = seed "go" } ∷ [];
  max_tokens = 4096;
  spawn = none;
  connectors = none;
}
