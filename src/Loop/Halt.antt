-- ===== src/Loop/Halt.antt =====
-- halt of runtime/src/loop/run-loop.ts: the telemetry of an enforced stop.
use dream_team.Prelude.{ℕ, String, some, List, [], ◌∷◌, ◌++◌, concat, show, length, Option}
use dream_team.Json.{Json}
use dream_team.Packets.Types.{FailureType}
use dream_team.Packets.Failure.{FailurePacket}
use dream_team.Trace.{TraceEvent, run_halted}
use dream_team.Effects.{M, emit_trace, emit_failure, pure, ◌>>◌}
use dream_team.Loop.Types.{RunState, RunResult, RunCost, LoopMessage, RunLoopOptions}
use dream_team.Loop.Cost.{to_fixed_4}
use dream_team.Loop.Events.{runtime_agent}

pub record HaltArgs : Type 0 where
  pub state : RunState
  pub failure_type : FailureType
  pub detail : String
  pub messages : List LoopMessage
  pub iteration : ℕ
  pub cost : RunCost
  pub trace_events : List TraceEvent
  pub plan : Option Json

abbrev pub halt_event : String → HaltArgs → TraceEvent
halt_event role args = run_halted role runtime_agent (record {
  cause = args.failure_type;
  detail = args.detail;
  iteration = args.iteration;
  cost_usd = args.cost.cost_usd;
})

abbrev pub halt_packet : String → String → HaltArgs → List TraceEvent → FailurePacket
halt_packet role system args events = record {
  from_agent = role;
  to_agent = "build-coordinator";
  work_item = system;
  failure_type = args.failure_type;
  detail = args.detail;
  state_at_failure = concat (
      "iteration "
      ∷ show args.iteration
      ∷ ", cost $"
      ∷ to_fixed_4 args.cost.cost_usd
      ∷ ", "
      ∷ show (length events)
      ∷ " trace event(s)"
      ∷ []);
  recovery_suggestion = "stop — enforced hard-stop reached; do not retry without a changed plan";
  trace = events;
}

unfoldable pub halt : {W : Type 0} → RunLoopOptions W → HaltArgs → M W RunResult
halt opts args = do
  let event = halt_event opts.role args
  emit_trace event
  let events = args.trace_events ++ event ∷ []
  let packet = halt_packet opts.role opts.system args events
  emit_failure packet
  pure (record {
    state = args.state;
    messages = args.messages;
    iterations = args.iteration;
    cost = args.cost;
    trace_events = events;
    failure = some packet;
    plan = args.plan;
  })
