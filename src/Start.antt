-- ===== src/Start.antt =====
-- startRun of runtime/src/index.ts: the membership gate, the run with its tree of sub-agent runs, the
-- record of what they wrote, and the flushes.
pub mod Persist
pub mod Tree
pub mod Gated
pub mod Kept
use dream_team.Prelude.{
  ℕ, zero, suc, String, Bool, true, false, ◌&&◌, Option, none, some, List, [], ◌∷◌, concat, str_eq,
  lower, ends_with, if◌then◌else◌,
}
use dream_team.Gate.Types.{RoleGrant, ApprovalSet}
use dream_team.Trace.{
  TraceVerdict, pass, block, error, TraceEvent, tool_executed, run_halted, ToolExecutedPayload,
}
use dream_team.Artifacts.Types.{ArtifactKind, markdown, file, json}
use dream_team.Artifacts.Record.{Files, ArtifactSpec, RecordContext, record_artifact_if_live}
use dream_team.Database.{SupabaseClient, is_workspace_member}
use dream_team.Prompts.{system_for_role}
use dream_team.Connectors.{Vault, ConnectorConfig, make_connector_access}
use dream_team.Effects.{
  JsError, Attempt, returns, throws, Result, ok, err, out_of_fuel, Session, M, resume, pure, throw,
  call, ◌>>=◌, ◌>>◌,
}
use dream_team.Tools.Types.{
  ToolDef, ConfinementProvider, software_confinement, ConnectorAccess, RunChildFn, SpawnChildInput,
  ChildRunSummary,
}
use dream_team.Tools.Google.{lift}
use dream_team.Tools.Registry.{Host, tools_for_role}
use dream_team.Loop.Types.{
  ModelClient, LoopMessage, user, seed, RunState, RunResult, RunLoopOptions, done,
  terminated_iteration_cap, terminated_loop_detected, terminated_budget, terminated_max_tokens,
}
use dream_team.Loop.Step.{run_loop}
use dream_team.Start.Persist.{Failures, check_flush, persist}

-- `new WorkspaceMembershipError(workspaceId)`
abbrev pub membership_error : String → JsError
membership_error workspace = record {
  name = "WorkspaceMembershipError";
  code = none;
  message = concat ("not a member of workspace " ∷ workspace ∷ []);
}

pub record StartRunInput : Type 0 where
  pub workspace_id : String
  pub ticket_id : String
  pub role : String
  pub grant : RoleGrant
  pub approvals : ApprovalSet
  pub system : String
  pub messages : List LoopMessage
  pub max_tokens : ℕ
  pub workspace_root : String

-- `failure_emitter`: the caller keeps the packets.
pub record StartRunDeps (W : Type 0) : Type 0 where
  pub supabase : SupabaseClient W
  pub model_client : ModelClient W
  pub tools : List (ToolDef W)
  pub failure_emitter : Bool
  pub confinement : Option (ConfinementProvider W)
  pub connector_config : Option ConnectorConfig

unfoldable pub kind_for_path : String → ArtifactKind
kind_for_path abs_path =
    if ends_with (lower abs_path) ".md"
    then markdown
    else if ends_with (lower abs_path) ".json"
    then json
    else file

abbrev pub passed : TraceVerdict → Bool
passed pass = true
passed block = false
passed error = false

-- The path that a permitted write has written, if the event is one.
unfoldable pub written_path : TraceEvent → Option String
written_path (run_halted from to p) = none
written_path (tool_executed from to p) = elim p.resolved_path [
  | none ↦ none
  | some path ↦
      if passed p.verdict && str_eq p.tool_name "write_file"
      then (if str_eq path "" then none else some path)
      else none
]

abbrev pub state_name : RunState → String
state_name done = "done"
state_name terminated_iteration_cap = "terminated_iteration_cap"
state_name terminated_loop_detected = "terminated_loop_detected"
state_name terminated_budget = "terminated_budget"
state_name terminated_max_tokens = "terminated_max_tokens"

abbrev pub is_done : RunState → Bool
is_done done = true
is_done _ = false

-- The depth cap of the spawn tool is 3, so three levels of children are enough.
abbrev pub spawn_levels : ℕ
spawn_levels = 3

abbrev pub summary_of : SpawnChildInput → RunResult → ChildRunSummary
summary_of child result = record {
  role = child.role;
  state = state_name result.state;
  iterations = result.iterations;
  cost_usd = result.cost.cost_usd;
}

module _ {W : Type 0} (host : Host W) (files : Files W) (vault : Vault W) (input : StartRunInput)
    (deps : StartRunDeps W) where
  unfoldable pub spec_for : String → ArtifactSpec
  spec_for path = record {
    abs_path = path;
    predicate = λ content. returns true;
    kind = kind_for_path path;
    mime_type = none;
  }

  abbrev pub record_context : String → RecordContext
  record_context role = record {
    workspace_id = input.workspace_id;
    ticket_id = some input.ticket_id;
    role = role;
  }

  -- The record of one event.
  unfoldable pub record_write : String → TraceEvent → M W (Unit {0})
  record_write role event = elim (written_path event) [
    | none ↦ pure tt
    | some path ↦ record_artifact_if_live files (spec_for path) (record_context role) >> pure tt
  ]

  unfoldable pub record_writes : List TraceEvent → String → M W (Unit {0})
  record_writes [] role = pure tt
  record_writes (event ∷ events) role = record_write role event >> record_writes events role

  unfoldable pub record_if_done : RunResult → String → M W (Unit {0})
  record_if_done result role =
      if is_done result.state then record_writes result.trace_events role else pure tt

  unfoldable pub connector_access : Option (ConnectorAccess W)
  connector_access = elim deps.connector_config [
    | none ↦ none
    | some config ↦ some (make_connector_access vault deps.supabase config input.workspace_id)
  ]

  unfoldable pub child_options :
      ConfinementProvider W
      → RunChildFn W
      → SpawnChildInput
      → List (ToolDef W)
      → String
      → RunLoopOptions W
  child_options confinement run_child child tools system = record {
    model_client = deps.model_client;
    confinement = confinement;
    role = child.role;
    grant = child.grant;
    approvals = input.approvals;
    tools = tools;
    system = system;
    messages = record { role = user; content = seed child.brief } ∷ [];
    max_tokens = input.max_tokens;
    spawn =
        some (record { depth = child.depth; orch_count = child.orch_count; run_child = run_child });
    connectors = connector_access;
  }

  -- One child run, given the runner of its own children.
  unfoldable pub child_run :
      ConfinementProvider W → RunChildFn W → SpawnChildInput → M W ChildRunSummary
  child_run confinement below child = do
    tools ← lift (tools_for_role host child.role)
    system ← lift (system_for_role child.role child.brief)
    result ← run_loop host.fs (child_options confinement below child tools system)
    record_if_done result child.role
    pure (summary_of child result)

  -- The runner, with the levels that are left.
  unfoldable pub run_child : ℕ → ConfinementProvider W → RunChildFn W
  run_child zero confinement child = λ s. (err out_of_fuel, s)
  run_child (suc levels) confinement child =
      child_run confinement (run_child levels confinement) child

  unfoldable pub root_options : ConfinementProvider W → RunChildFn W → RunLoopOptions W
  root_options confinement below = record {
    model_client = deps.model_client;
    confinement = confinement;
    role = input.role;
    grant = input.grant;
    approvals = input.approvals;
    tools = deps.tools;
    system = input.system;
    messages = input.messages;
    max_tokens = input.max_tokens;
    spawn = some (record { depth = 0; orch_count = 0; run_child = below });
    connectors = connector_access;
  }

  unfoldable pub governed : ConfinementProvider W → M W RunResult
  governed confinement = do
    result ← run_loop host.fs (root_options confinement (run_child spawn_levels confinement))
    record_if_done result input.role
    pure result

  unfoldable pub confine_root : M W (ConfinementProvider W)
  confine_root = elim deps.confinement [
    | some provider ↦ pure provider
    | none ↦ do
      root ← call (host.fs.realpath input.workspace_root)
      pure (software_confinement root)
  ]

  -- The sinks and the spend of the tree are the run's own.
  unfoldable pub fresh_run : M W (Unit {0})
  fresh_run s = (ok tt, record s { tree_spend = 0; trace = []; packets = []; artifacts = [] })

  -- `await sink.flush()`, one after the other
  unfoldable pub check_flushes : Failures → M W (Unit {0})
  check_flushes failures =
      check_flush "trace" "event" failures.trace
      >> check_flush "artifact" "record" failures.artifacts
      >> check_flush "packet" "packet" failures.packets

  -- What was handed to the sinks is written, whatever the run came to; the flushes follow a run that
  -- returned.
  unfoldable pub written_through : M W RunResult → M W RunResult
  written_through run s =
      let (result, s₁) = run s in
      let (failures, s₂) =
        persist deps.supabase files.read_bytes input.workspace_id input.ticket_id
          (if deps.failure_emitter then [] else s₁.packets) s₁ in
      resume result (λ r. check_flushes failures >> pure r) s₂

  unfoldable pub dispatch_run : M W RunResult
  dispatch_run = do fresh_run; confinement ← confine_root; written_through (governed confinement)

  abbrev pub if_member : Bool → M W RunResult
  if_member false = throw (membership_error input.workspace_id)
  if_member true = dispatch_run

  unfoldable pub start_run : M W RunResult
  start_run = do member ← is_workspace_member deps.supabase input.workspace_id; if_member member
