-- ===== src/Loop/History.antt =====
-- The message-history contract of runtime/src/loop/run-loop.ts as a relation: what a conversation
-- looks like after some exchanges, and how a run ends.
use dream_team.Prelude.{
  ℕ, suc, ◌+◌, ◌≤◌, ◌<◌, String, ◌≡◌, ◌≢◌, none, some, List, [], ◌∷◌, ◌++◌, length,
}
use dream_team.Packets.Types.{FailureType, timeout, scope_exceeded, execution_error}
use dream_team.Packets.Failure.{FailurePacket}
use dream_team.Trace.{TraceEvent, run_halted}
use dream_team.Effects.{Session}
use dream_team.Loop.Types.{
  ContentBlock, ToolResultBlock, LoopMessage, assistant, user, blocks, tool_results, RunState, done,
  terminated_iteration_cap, terminated_loop_detected, terminated_budget, terminated_max_tokens,
  RunResult, RunLoopOptions,
}
use dream_team.Loop.Run.{
  max_orchestration_iterations, hard_stop_usd, LoopState, Next, again, return, tool_uses,
}
use dream_team.Loop.Events.{runtime_agent, iteration_signature}
use dream_team.Loop.Step.{
  iteration_limit_detail, loop_detected_detail, max_tokens_detail, budget_detail,
}
use dream_team.Loop.Calls.{ids, call_ids, executed}

abbrev pub assistant_turn : List ContentBlock → LoopMessage
assistant_turn content = record { role = assistant; content = blocks content }

abbrev pub results_turn : List ToolResultBlock → LoopMessage
results_turn rs = record { role = user; content = tool_results rs }

-- A conversation that began with `start`, and the number of tool calls answered in it: each assistant
-- turn is followed by one user turn, with a result for each tool_use block under its id, in order.
pub data Transcript (start : List LoopMessage) : List LoopMessage → ℕ → Type 0 where
  begin : {ms : List LoopMessage} {n : ℕ} → ms ≡ start → n ≡ 0 → Transcript start ms n
  exchange :
      {ms ms' : List LoopMessage} {n n' : ℕ}
      → Transcript start ms n
      → (content : List ContentBlock) (rs : List ToolResultBlock)
      → ids rs ≡ call_ids (tool_uses content)
      → ms' ≡ (ms ++ assistant_turn content ∷ []) ++ results_turn rs ∷ []
      → n' ≡ n + length (tool_uses content)
      → Transcript start ms' n'

-- The conversation of a finished run: a transcript, or one with an assistant turn that was not
-- answered.
pub data Ending (start ms : List LoopMessage) (n : ℕ) : Type 0 where
  answered : Transcript start ms n → Ending start ms n
  unanswered :
      (ms₀ : List LoopMessage)
      → Transcript start ms₀ n
      → (content : List ContentBlock) → ms ≡ ms₀ ++ assistant_turn content ∷ []
      → Ending start ms n

-- A halt with a cause and a detail: the result carries a failure packet that tells them, with the
-- whole trace, and the packet is the last one that was emitted; the trace ends with the event of the
-- halt, from the run's role to the runtime, with the iterations and the cost of the result, and it is
-- the last event that was emitted.
pub record IsHalted {W : Type 0} (role : String) (type : FailureType) (detail : String)
    (r : RunResult) (s : Session W) : Type 0 where
  pub packet : FailurePacket
  pub carried : r.failure ≡ some packet
  pub typed : packet.failure_type ≡ type
  pub told : packet.detail ≡ detail
  pub traced : packet.trace ≡ r.trace_events
  pub before : List FailurePacket
  pub emitted : s.packets ≡ before ++ packet ∷ []
  pub closing : TraceEvent
  pub halting :
      closing
      ≡ run_halted role runtime_agent (record {
        cause = type;
        detail = detail;
        iteration = r.iterations;
        cost_usd = r.cost.cost_usd;
      })
  pub events : List TraceEvent
  pub marked : r.trace_events ≡ events ++ closing ∷ []
  pub before_closing : List TraceEvent
  pub traced_last : s.trace ≡ before_closing ++ closing ∷ []

-- What each terminal state says of the result of a role's run and of the tree's spend.
abbrev pub Ends : {W : Type 0} → String → RunState → RunResult → Session W → Type 0
Ends role done r s = (r.failure ≡ none) × (s.tree_spend < hard_stop_usd)
Ends role terminated_iteration_cap r s =
    IsHalted role timeout iteration_limit_detail r s × (r.iterations ≡ max_orchestration_iterations)
Ends role terminated_loop_detected r s = IsHalted role timeout loop_detected_detail r s
Ends role terminated_budget r s =
    IsHalted role scope_exceeded (budget_detail s.tree_spend) r s × (hard_stop_usd ≤ s.tree_spend)
Ends role terminated_max_tokens r s =
    IsHalted role execution_error max_tokens_detail r s × (s.tree_spend < hard_stop_usd)

module _ {W : Type 0} (opts : RunLoopOptions W) where
  -- The loop's invariant.
  pub record IsSound (st : LoopState) : Type 0 where
    pub calls : ℕ
    pub history : Transcript opts.messages st.messages calls
    pub counted : executed st.trace_events ≡ calls
    pub plain : length st.trace_events ≡ calls
    pub bounded : st.iteration ≤ max_orchestration_iterations

  pub record IsResult (r : RunResult) (s : Session W) : Type 0 where
    pub calls : ℕ
    pub history : Ending opts.messages r.messages calls
    pub counted : executed r.trace_events ≡ calls
    pub bounded : r.iterations ≤ max_orchestration_iterations
    pub ends : Ends opts.role r.state r s

  -- A batch of events whose signature is the one kept of the round before.
  abbrev pub Repeats : LoopState → RunResult → Type 0
  Repeats st r =
      (batch : List TraceEvent) × (closing : TraceEvent) × (r.trace_events
        ≡ (st.trace_events ++ batch) ++ closing ∷ [])
      × (st.prev_signature ≡ some (iteration_signature batch))

  -- After a round: a result, which tells of a detected loop only where the round's batch repeats the
  -- one before, or variables with one more iteration and the events of one batch more, whose signature
  -- is kept and is not the one kept before.
  abbrev pub IsStep : LoopState → Next → Session W → Type 0
  IsStep st (return r) s = IsResult r s × (r.state ≡ terminated_loop_detected → Repeats st r)
  IsStep st (again st') s =
      IsSound st'
      × (st'.iteration ≡ suc st.iteration)
      × ((batch : List TraceEvent) × (st'.trace_events ≡ st.trace_events ++ batch)
          × (st'.prev_signature ≡ some (iteration_signature batch))
          × (st.prev_signature ≢ some (iteration_signature batch)))
