-- ===== src/Tests/LoopTests.antt =====
-- runtime/src/loop/run-loop.ts at concrete inputs.
use dream_team.Prelude.{ℕ, ◌≡◌, ◌≤◌, refl, Option, none, some, [], ◌∷◌, All, arith}
use dream_team.Effects.{Result, ok, err}
use dream_team.Loop.Cost.{accumulate_cost, price_usd}
use dream_team.Loop.Events.{iteration_signature, build_trace_event, tool_result_content}
use dream_team.Loop.Halt.{halt}
use dream_team.Gate.Types.{tier_of, cap_eq}
use dream_team.Gate.Decide.{gate, decide_tier, stricter_tier}
use dream_team.Effects.Outcome.{After}
use dream_team.Tools.Plan.{
  set_plan_tool, set_plan_execute, validate_plan, validate_steps, validate_step, status_of,
  summarize,
}
use dream_team.Loop.Types.{RunResult, RunState, done}
use dream_team.Loop.Handle.{HandleDeps}
use dream_team.Loop.Run.{
  Batch, handle_deps, gate_context, boundary_of, spawn_context, run_calls, add_call,
}
use dream_team.Loop.Calls.{
  Lasts, ChildrenLast, RunLasts, Extends, IsHandled, handle_tool_use-IsHandled, run_calls-Extends,
  executed,
}
use dream_team.Loop.Handle.{handle_tool_use, tool_named, resolve_path, decide_and_run}
use dream_team.Loop.History.{Ends, Ending, IsSound, IsStep, begin}
use dream_team.Loop.Step.{
  run_loop, iterate, round, proceed, soft_warn, after_usage, dispatch, after_batch, finish, step,
  initial,
}
use dream_team.Loop.Rounds.{step-IsStep}
use dream_team.Loop.Results.{run_loop-Ends, run_loop-Ending}
use dream_team.Tests.World.{Tape, files, options, one_call, session, plan_call}

lasting : All (Lasts {W = Tape} ⊥) options.tools
unfolding set_plan_tool
lasting = (λ input ctx s below. tt, tt)

childless : ChildrenLast ⊥ (spawn_context files options)
unfolding spawn_context
childless sp e = cc e

run_lasts : RunLasts ⊥ files options
run_lasts = (lasting, childless)

run_loop-Ends_example :
    After ⊥ (λ r s'. Ends options.role r.state r s') (run_loop files options) (session one_call)
run_loop-Ends_example = run_loop-Ends files options run_lasts (session one_call)

run_loop-Ending_example :
    After ⊥
      (λ r s'.
        (calls : ℕ) × Ending options.messages r.messages calls
        × (executed r.trace_events ≡ calls)
        × (r.iterations ≤ 15))
      (run_loop files options)
      (session one_call)
run_loop-Ending_example = run_loop-Ending files options run_lasts (session one_call)

begun : IsSound options (initial files options)
begun = record {
  calls = 0;
  history = begin refl refl;
  counted = refl;
  plain = refl;
  bounded = omega arith;
}

step-IsStep_example :
    After ⊥
      (IsStep options (initial files options))
      (step files options (initial files options))
      (session one_call)
step-IsStep_example =
    step-IsStep ⊥ files options run_lasts (initial files options) (session one_call) begun

abbrev deps : HandleDeps Tape
deps = handle_deps files options

abbrev empty_batch : Batch
empty_batch = record { plan = none; events = []; results = [] }

handled_tools : All (Lasts {W = Tape} ⊥) deps.tools
unfolding handle_deps
handled_tools = lasting

deps_childless : ChildrenLast ⊥ deps.spawn
unfolding handle_deps spawn_context
deps_childless sp e = cc e

handle_tool_use-IsHandled_example :
    After ⊥
      (λ h s'. IsHandled plan_call deps (session one_call) h s')
      (handle_tool_use files plan_call deps)
      (session one_call)
handle_tool_use-IsHandled_example =
    handle_tool_use-IsHandled ⊥ files plan_call deps (session one_call) handled_tools deps_childless

run_calls-Extends_example :
    After ⊥
      (λ new _. Extends (plan_call ∷ []) empty_batch new)
      (run_calls files options 0 (plan_call ∷ []) empty_batch)
      (session one_call)
run_calls-Extends_example =
    run_calls-Extends ⊥ files options 0 run_lasts (plan_call ∷ []) empty_batch (session one_call)

-- The run of the tape: one batch, then the end, with the plan kept and its cost of 15000 millionths.
abbrev outcome : Result RunResult → Option (RunState × ℕ × ℕ)
outcome (ok r) = some (r.state, r.iterations, r.cost.cost_usd)
outcome (err e) = none

one_call_run : outcome (run_loop files options (session one_call)).0 ≡ some (done, 1, 15000)
unfolding run_loop iterate step round proceed accumulate_cost price_usd soft_warn after_usage
    dispatch run_calls handle_deps gate_context boundary_of spawn_context handle_tool_use tool_named
    resolve_path decide_and_run gate decide_tier stricter_tier tier_of cap_eq add_call after_batch
    iteration_signature build_trace_event set_plan_tool set_plan_execute validate_plan
    validate_steps validate_step status_of summarize tool_result_content finish halt
one_call_run = refl
