-- ===== src/Trace.antt =====
-- runtime/src/trace/emit.ts: the trace events. An amount in dollars is counted in millionths.
use dream_team.Prelude.{ℕ, String, Option}
use dream_team.Gate.Types.{Tier, Capability}
use dream_team.Packets.Types.{FailureType}

pub data TraceVerdict : Type 0 where
  pass block error : TraceVerdict

pub record WitnessFields : Type 0 where
  pub input_hash : String
  pub rule : String
  pub decision : String

pub record ToolExecutedPayload : Type 0 where
  pub verdict : TraceVerdict
  pub cause : Option String
  pub tool_name : String
  pub capability : Capability
  pub tier : Tier
  pub gate_decision : String
  pub resolved_path : Option String
  pub observation_summary : String
  pub iteration : ℕ
  pub witness : WitnessFields

-- `verdict` is the constant 'error'.
pub record RunHaltedPayload : Type 0 where
  pub cause : FailureType
  pub detail : String
  pub iteration : ℕ
  pub cost_usd : ℕ

pub data TraceEvent : Type 0 where
  tool_executed : (from_agent to_agent : String) → ToolExecutedPayload → TraceEvent
  run_halted : (from_agent to_agent : String) → RunHaltedPayload → TraceEvent
