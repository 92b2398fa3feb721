-- ===== src/Packets/Failure.antt =====
-- runtime/src/packets/failure.ts: the failure packet, which carries the whole trace.
use dream_team.Prelude.{String, List}
use dream_team.Packets.Types.{FailureType}
use dream_team.Trace.{TraceEvent}

pub record FailurePacket : Type 0 where
  pub from_agent : String
  pub to_agent : String
  pub work_item : String
  pub failure_type : FailureType
  pub detail : String
  pub state_at_failure : String
  pub recovery_suggestion : String
  pub trace : List TraceEvent
