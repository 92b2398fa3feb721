-- ===== src/Loop/Types.antt =====
-- The data of runtime/src/model/client.ts and runtime/src/loop/run-loop.ts. Amounts in dollars are
-- counted in millionths, which is exact at the prices per million tokens.
use dream_team.Prelude.{ℕ, String, Bool, Option, List}
use dream_team.Json.{Json}
use dream_team.Gate.Types.{RoleGrant, ApprovalSet}
use dream_team.Packets.Failure.{FailurePacket}
use dream_team.Trace.{TraceEvent}
use dream_team.Effects.{Attempt}
use dream_team.Tools.Types.{ConfinementProvider, RunChildFn, ConnectorAccess, ToolDef}

-- A tool_use block: its id, the tool's name and the input.
pub record ToolUseBlock : Type 0 where
  pub id : String
  pub name : String
  pub input : Json

pub data ContentBlock : Type 0 where
  text : String → ContentBlock
  tool_use : ToolUseBlock → ContentBlock

pub data StopReason : Type 0 where
  end_turn tool_use pause_turn max_tokens : StopReason

pub record ModelUsage : Type 0 where
  pub input_tokens : ℕ
  pub output_tokens : ℕ
  pub cache_read_input_tokens : Option ℕ
  pub cache_creation_input_tokens : Option ℕ

pub record ToolResultBlock : Type 0 where
  pub tool_use_id : String
  pub content : String
  pub is_error : Bool

pub data Role : Type 0 where
  assistant user : Role

-- The content of a turn: a seed message, an assistant turn, or a turn of tool results.
pub data Content : Type 0 where
  seed : String → Content
  blocks : List ContentBlock → Content
  tool_results : List ToolResultBlock → Content

pub record LoopMessage : Type 0 where
  pub role : Role
  pub content : Content

-- A tool is shown to the model by its specification, of which its name is kept.
pub record CreateMessageRequest : Type 0 where
  pub model : String
  pub max_tokens : ℕ
  pub system : String
  pub messages : List LoopMessage
  pub tools : List String

pub record CreateMessageResponse : Type 0 where
  pub content : List ContentBlock
  pub stop_reason : StopReason
  pub usage : ModelUsage

pub record ModelClient (W : Type 0) : Type 0 where
  pub create_message : CreateMessageRequest → W → Attempt CreateMessageResponse × W

pub record RunCost : Type 0 where
  pub input_tokens : ℕ
  pub output_tokens : ℕ
  pub cache_read_input_tokens : ℕ
  pub cache_creation_input_tokens : ℕ
  pub cost_usd : ℕ

pub data RunState : Type 0 where
  done terminated_iteration_cap terminated_loop_detected : RunState
  terminated_budget terminated_max_tokens : RunState

pub record RunResult : Type 0 where
  pub state : RunState
  pub messages : List LoopMessage
  pub iterations : ℕ
  pub cost : RunCost
  pub trace_events : List TraceEvent
  pub failure : Option FailurePacket
  pub plan : Option Json

pub record SpawnOptions (W : Type 0) : Type 0 where
  pub depth : ℕ
  pub orch_count : ℕ
  pub run_child : RunChildFn W

pub record RunLoopOptions (W : Type 0) : Type 0 where
  pub model_client : ModelClient W
  pub confinement : ConfinementProvider W
  pub role : String
  pub grant : RoleGrant
  pub approvals : ApprovalSet
  pub tools : List (ToolDef W)
  pub system : String
  pub messages : List LoopMessage
  pub max_tokens : ℕ
  pub spawn : Option (SpawnOptions W)
  pub connectors : Option (ConnectorAccess W)
