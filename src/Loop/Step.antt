-- ===== src/Loop/Step.antt =====
-- One round of the `for (;;)` of runLoop in runtime/src/loop/run-loop.ts, and the loop on fuel.
use dream_team.Prelude.{
  ℕ, zero, suc, ◌+◌, ◌-◌, String, Bool, true, false, not, ◌&&◌, none, some, [], ◌∷◌, ◌++◌, concat,
  map, leb, if◌then◌else◌,
}
use dream_team.Packets.Types.{FailureType, timeout, scope_exceeded, execution_error}
use dream_team.Workspace.{Fs}
use dream_team.Effects.{M, err, out_of_fuel, call, pure, throw, plain_error, warn, ◌>>=◌, ◌>>◌}
use dream_team.Tools.Types.{ToolDef}
use dream_team.Loop.Types.{
  StopReason, end_turn, tool_use, pause_turn, max_tokens, CreateMessageResponse,
  CreateMessageRequest, assistant, user, blocks, tool_results, RunState, RunResult, done,
  terminated_iteration_cap, terminated_loop_detected, terminated_budget, terminated_max_tokens,
  RunLoopOptions,
}
use dream_team.Loop.Cost.{model_id, accumulate_cost, no_cost, to_fixed_4}
use dream_team.Loop.Events.{iteration_signature}
use dream_team.Loop.Halt.{HaltArgs, halt}
use dream_team.Loop.Run.{
  max_orchestration_iterations, soft_warn_usd, hard_stop_usd, LoopState, Next, again, return, Batch,
  tool_uses, same_as, spend, run_calls,
}

-- The arguments of a halt, from the variables of the loop.
abbrev pub halt_args : RunState → FailureType → String → LoopState → HaltArgs
halt_args state failure_type detail st = record {
  state = state;
  failure_type = failure_type;
  detail = detail;
  messages = st.messages;
  iteration = st.iteration;
  cost = st.cost;
  trace_events = st.trace_events;
  plan = st.plan;
}

abbrev pub iteration_limit_detail : String
iteration_limit_detail = "orchestration iteration limit reached"

abbrev pub loop_detected_detail : String
loop_detected_detail = "loop detected — no state change between iterations"

abbrev pub max_tokens_detail : String
max_tokens_detail = "model response truncated at max_tokens — raise maxTokens for this run"

abbrev pub budget_detail : ℕ → String
budget_detail spent =
    concat ("tree token budget exceeded: $" ∷ to_fixed_4 spent ∷ " >= $" ∷ "20" ∷ " hard stop" ∷ [])

module _ {W : Type 0} (fs : Fs W) (opts : RunLoopOptions W) where
  unfoldable pub finish : LoopState → HaltArgs → M W Next
  finish st args = do result ← halt opts args; pure (return result)

  abbrev pub request_of : LoopState → CreateMessageRequest
  request_of st = record {
    model = model_id;
    max_tokens = opts.max_tokens;
    system = opts.system;
    messages = st.messages;
    tools = map (λ (t : ToolDef W). t.name) opts.tools;
  }

  -- The soft warning, given once.
  unfoldable pub soft_warn : ℕ → Bool → M W Bool
  soft_warn spent warned =
      if not warned && leb soft_warn_usd spent
      then (do
        warn
            (concat ("runLoop: budget soft-warn — tree spend $" ∷ to_fixed_4 spent ∷ " >= $5" ∷ []))
        pure true)
      else pure warned

  -- What follows a batch of tool calls.
  unfoldable pub after_batch : LoopState → Batch → M W Next
  after_batch st batch =
      let signature = iteration_signature batch.events in
      let st' : LoopState = record st {
        messages = st.messages ++ record { role = user; content = tool_results batch.results } ∷ [];
        trace_events = st.trace_events ++ batch.events;
        plan = batch.plan;
      } in
      if same_as st.prev_signature signature
      then finish st' (halt_args terminated_loop_detected timeout loop_detected_detail st')
      else pure
          (again (record st' { prev_signature = some signature; iteration = st'.iteration + 1 }))

  -- Step 4: the branch on the stop reason.
  unfoldable pub dispatch : CreateMessageResponse → StopReason → LoopState → M W Next
  dispatch response end_turn st = pure (
      return (record {
        state = done;
        messages = st.messages;
        iterations = st.iteration;
        cost = st.cost;
        trace_events = st.trace_events;
        failure = none;
        plan = st.plan;
      }))
  dispatch response tool_use st = do
    batch ←
        run_calls fs opts st.iteration (tool_uses response.content)
          (record { plan = st.plan; events = []; results = [] })
    after_batch st batch
  dispatch response max_tokens st =
      finish st (halt_args terminated_max_tokens execution_error max_tokens_detail st)
  dispatch response pause_turn st =
      throw (plain_error "runLoop: unhandled stop_reason 'pause_turn'")

  -- Step 3 and on: the budget's hard stop, the assistant turn, the branch.
  unfoldable pub after_usage : CreateMessageResponse → ℕ → LoopState → M W Next
  after_usage response spent st =
      if leb hard_stop_usd spent
      then finish st (halt_args terminated_budget scope_exceeded (budget_detail spent) st)
      else dispatch response response.stop_reason (record st {
        messages =
            st.messages ++ record { role = assistant; content = blocks response.content } ∷ [];
      })

  -- A round that the iteration cap lets through.
  unfoldable pub round : LoopState → M W Next
  round st = do
    response ← call (opts.model_client.create_message (request_of st))
    cost ← accumulate_cost st.cost response.usage model_id
    spent ← spend (cost.cost_usd - st.cost.cost_usd)
    warned ← soft_warn spent st.soft_warned
    after_usage response spent (record st { cost = cost; soft_warned = warned })

  unfoldable pub step : LoopState → M W Next
  step st =
      if leb max_orchestration_iterations st.iteration
      then finish st (halt_args terminated_iteration_cap timeout iteration_limit_detail st)
      else round st

  unfoldable pub proceed : (LoopState → M W RunResult) → Next → M W RunResult
  proceed loop (again st) = loop st
  proceed loop (return result) = pure result

  unfoldable pub iterate : ℕ → LoopState → M W RunResult
  iterate zero st = λ s. (err out_of_fuel, s)
  iterate (suc fuel) st = step st >>= proceed (iterate fuel)

  abbrev pub initial : LoopState
  initial = record {
    messages = opts.messages;
    trace_events = [];
    cost = no_cost;
    iteration = 0;
    soft_warned = false;
    plan = none;
    prev_signature = none;
  }

  -- One round more than the cap: the last one finds the cap reached.
  unfoldable pub run_loop : M W RunResult
  run_loop = iterate (suc max_orchestration_iterations) initial
