-- ===== src/Host.antt =====
-- runtime/src/host/electron-adapter.ts: the `run:start` handler between the desktop shell and startRun.
-- The secret storage and the builders of the clients are parameters.
pub mod Replies
use dream_team.Prelude.{
  ℕ, String, Bool, true, false, Option, none, some, List, [], ◌∷◌, str_eq, if◌then◌else◌,
}
use dream_team.Json.{Json}
use dream_team.Gate.Types.{RoleGrant, ApprovalSet}
use dream_team.Effects.{
  JsError, Attempt, returns, throws, Result, ok, err, thrown, out_of_fuel, Session, M, pure, call,
  ◌>>=◌,
}
use dream_team.Artifacts.Record.{Files}
use dream_team.Database.{SupabaseClient}
use dream_team.Connectors.{Vault, ConnectorConfig}
use dream_team.Tools.Types.{ToolDef}
use dream_team.Tools.Google.{lift}
use dream_team.Tools.Registry.{Host}
use dream_team.Loop.Types.{ModelClient, LoopMessage, Content, seed, RunResult}
use dream_team.Start.{StartRunInput, StartRunDeps, state_name, start_run}

pub record RunStartRequest : Type 0 where
  pub workspace_id : String
  pub ticket_id : String
  pub role : String
  pub messages : List LoopMessage
  pub max_tokens : ℕ
  pub workspace_root : String

pub data ReplyError : Type 0 where
  forbidden run_failed : ReplyError

pub data RunStartReply : Type 0 where
  started : (state : String) → (iterations cost_usd : ℕ) → RunStartReply
  refused : ReplyError → (detail : String) → RunStartReply

pub record AdapterConfig (W : Type 0) : Type 0 where
  -- `safeStorage.isEncryptionAvailable()`
  pub is_encryption_available : W → Attempt Bool × W
  -- The key, and the session parsed, as `safeStorage` decrypts them
  pub anthropic_key : W → Attempt String × W
  pub session : W → Attempt Json × W
  pub make_supabase_client : Json → W → Attempt (SupabaseClient W) × W
  pub make_model_client : String → W → Attempt (ModelClient W) × W
  pub grant_for : String → Attempt RoleGrant
  pub approvals_for : RunStartRequest → Attempt ApprovalSet
  pub tools_for : String → Attempt (List (ToolDef W))
  pub system_for : (role brief : String) → Attempt String
  pub connector_config : Option ConnectorConfig
  pub failure_emitter : Bool

-- The brief of a first message that is a text.
abbrev pub brief_of : List LoopMessage → String
brief_of [] = ""
brief_of (m ∷ ms) = elim m.content [ seed s ↦ s | _ ↦ "" ]

-- The reply to an exception: `err instanceof WorkspaceMembershipError`, by the name that the class gives.
unfoldable pub reply_to : JsError → RunStartReply
reply_to e =
    if str_eq e.name "WorkspaceMembershipError"
    then refused forbidden e.message
    else refused run_failed e.message

-- `try { return await body } catch (err) { ... }`
unfoldable pub catching : {W : Type 0} → M W RunStartReply → M W RunStartReply
catching body s = elim (body s).0 [
  | ok reply ↦ (ok reply, (body s).1)
  | err (thrown e) ↦ (ok (reply_to e), (body s).1)
  | err out_of_fuel ↦ (err out_of_fuel, (body s).1)
]

module _ {W : Type 0} (host : Host W) (files : Files W) (vault : Vault W) (config : AdapterConfig W)
    (req : RunStartRequest) where
  abbrev pub input_for : RoleGrant → ApprovalSet → String → StartRunInput
  input_for grant approvals system = record {
    workspace_id = req.workspace_id;
    ticket_id = req.ticket_id;
    role = req.role;
    grant = grant;
    approvals = approvals;
    system = system;
    messages = req.messages;
    max_tokens = req.max_tokens;
    workspace_root = req.workspace_root;
  }

  abbrev pub deps_for : SupabaseClient W → ModelClient W → List (ToolDef W) → StartRunDeps W
  deps_for supabase model_client tools = record {
    supabase = supabase;
    model_client = model_client;
    tools = tools;
    failure_emitter = config.failure_emitter;
    confinement = none;
    connector_config = config.connector_config;
  }

  abbrev pub reply_of : RunResult → RunStartReply
  reply_of result = started (state_name result.state) result.iterations result.cost.cost_usd

  unfoldable pub with_tools :
      SupabaseClient W → ModelClient W → List (ToolDef W) → M W RunStartReply
  with_tools supabase model_client tools = do
    grant ← lift (config.grant_for req.role)
    approvals ← lift (config.approvals_for req)
    system ← lift (config.system_for req.role (brief_of req.messages))
    result ←
        start_run host files vault (input_for grant approvals system)
          (deps_for supabase model_client tools)
    pure (reply_of result)

  unfoldable pub with_secrets : M W RunStartReply
  with_secrets = do
    api_key ← call config.anthropic_key
    session ← call config.session
    supabase ← call (config.make_supabase_client session)
    model_client ← call (config.make_model_client api_key)
    tools ← lift (config.tools_for req.role)
    with_tools supabase model_client tools

  abbrev pub if_available : Bool → M W RunStartReply
  if_available false = pure (refused run_failed "OS secret storage unavailable")
  if_available true = with_secrets

  unfoldable pub handle_run_start : M W RunStartReply
  handle_run_start = catching (call config.is_encryption_available >>= if_available)
