-- ===== src/Loop/Run.antt =====
-- runLoop of runtime/src/loop/run-loop.ts. One round of the `for (;;)` is `step`; `iterate` repeats it
-- on fuel.
use dream_team.Prelude.{
  ℕ, ◌+◌, String, Bool, false, ◌&&◌, Option, none, some, List, [], ◌∷◌, ◌++◌, str_eq, if◌then◌else◌,
}
use dream_team.Json.{truthy, Json, get_fields}
use dream_team.Gate.Types.{WorkspaceBoundary, GateContext}
use dream_team.Trace.{TraceEvent}
use dream_team.Workspace.{Fs}
use dream_team.Effects.{M, ok, pure, emit_trace, ◌>>=◌, ◌>>◌}
use dream_team.Tools.Types.{ToolObservation, SpawnContext}
use dream_team.Loop.Types.{
  ToolUseBlock, ContentBlock, text, tool_use, ToolResultBlock, LoopMessage, RunCost, RunResult,
  RunLoopOptions,
}
use dream_team.Loop.Events.{tool_result_content, build_trace_event}
use dream_team.Loop.Handle.{HandleDeps, Handled, tool_named, handle_tool_use}

abbrev pub max_orchestration_iterations : ℕ
max_orchestration_iterations = 15

abbrev pub soft_warn_usd : ℕ
soft_warn_usd = 5_000_000

abbrev pub hard_stop_usd : ℕ
hard_stop_usd = 20_000_000

-- The variables of the loop.
pub record LoopState : Type 0 where
  pub messages : List LoopMessage
  pub trace_events : List TraceEvent
  pub cost : RunCost
  pub iteration : ℕ
  pub soft_warned : Bool
  pub plan : Option Json
  pub prev_signature : Option String

pub data Next : Type 0 where
  again : LoopState → Next
  return : RunResult → Next

-- What one batch of tool calls adds.
pub record Batch : Type 0 where
  pub plan : Option Json
  pub events : List TraceEvent
  pub results : List ToolResultBlock

-- The plan in an observation's data.
abbrev plan_in : ToolObservation → Option Json → Option Json
plan_in obs old = elim obs.value [
  | none ↦ old
  | some fields ↦ elim (get_fields fields "plan") [
    | none ↦ old
    | some p ↦ if truthy p then some p else old
  ]
]

abbrev captured_plan : String → ToolObservation → Option Json → Option Json
captured_plan name obs old = if str_eq name "set_plan" && obs.ok then plan_in obs old else old

abbrev pub tool_uses : List ContentBlock → List ToolUseBlock
tool_uses [] = []
tool_uses (text t ∷ bs) = tool_uses bs
tool_uses (tool_use b ∷ bs) = b ∷ tool_uses bs

abbrev pub same_as : Option String → String → Bool
same_as none signature = false
same_as (some previous) signature = str_eq signature previous

-- `treeSpend.spentUsd += delta`, and its value after.
abbrev pub spend : {W : Type 0} → ℕ → M W ℕ
spend delta s = (ok (s.tree_spend + delta), record s { tree_spend = s.tree_spend + delta })

module _ {W : Type 0} (fs : Fs W) (opts : RunLoopOptions W) where
  unfoldable pub boundary_of : WorkspaceBoundary
  boundary_of = record { workspace_root = opts.confinement.workspace_root; read_allowlist = [] }

  unfoldable pub gate_context : GateContext
  unfolding boundary_of
  gate_context = record {
    role = opts.role;
    grant = opts.grant;
    approvals = opts.approvals;
    boundary = boundary_of;
  }

  unfoldable pub spawn_context : Option (SpawnContext W)
  spawn_context = elim opts.spawn [
    | none ↦ none
    | some sp ↦ some (record {
      spawner_role = opts.role;
      spawner_grant = opts.grant;
      depth = sp.depth;
      orch_count = sp.orch_count;
      run_child = sp.run_child;
    })
  ]

  unfoldable pub handle_deps : HandleDeps W
  unfolding boundary_of gate_context spawn_context
  handle_deps = record {
    boundary = boundary_of;
    tools = opts.tools;
    ctx = gate_context;
    confine = opts.confinement;
    spawn = spawn_context;
    connectors = opts.connectors;
  }

  abbrev pub event_of : ℕ → ToolUseBlock → Handled → TraceEvent
  event_of iteration block h =
      build_trace_event opts.role block h.decision h.resolved_path h.observation iteration
        (tool_named opts.tools block.name)

  -- The plan, the event and the result of one call, put to those of the calls before.
  unfoldable pub add_call : ℕ → ToolUseBlock → Handled → Batch → Batch
  add_call iteration block h batch = record {
    plan = captured_plan block.name h.observation batch.plan;
    events = batch.events ++ event_of iteration block h ∷ [];
    results =
        batch.results
        ++ record {
          tool_use_id = block.id;
          content = tool_result_content h.observation;
          is_error = h.observation.is_error;
        }
          ∷ [];
  }

  -- The body of the loop over the tool_use blocks.
  unfoldable pub run_calls : ℕ → List ToolUseBlock → Batch → M W Batch
  run_calls iteration [] batch = pure batch
  run_calls iteration (block ∷ rest) batch = do
    h ← handle_tool_use fs block handle_deps
    emit_trace (event_of iteration block h)
    run_calls iteration rest (add_call iteration block h batch)
