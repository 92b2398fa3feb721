-- ===== src/Loop/Handle.antt =====
-- handleToolUse of runtime/src/loop/run-loop.ts: resolve, gate, and execute or block.
use dream_team.Prelude.{
  String, true, false, Option, none, some, List, [], ◌∷◌, concat, str_eq, if◌then◌else◌,
}
use dream_team.Json.{Json, null, bool, str, obj, Fields, end, field, get}
use dream_team.Gate.Types.{
  GateDecision, permit, blocked_with_path, blocked_hard, blocked_scope, GateAction, GateContext,
  WorkspaceBoundary,
}
use dream_team.Gate.Decide.{gate}
use dream_team.Workspace.{Fs, Resolution, resolved, refused, resolve_workspace}
use dream_team.Effects.{M, ok, pure, throw, plain_error, ◌>>=◌}
use dream_team.Tools.Types.{
  ToolObservation, ToolDef, ToolExecContext, ConfinementProvider, SpawnContext, ConnectorAccess,
}
use dream_team.Loop.Types.{ToolUseBlock}

abbrev refusal : String → Fields → ToolObservation
refusal summary fields = record {
  ok = false;
  summary = summary;
  value = some fields;
  is_error = true;
}

-- The observation of a refusal; a permit has none, and the source throws there.
unfoldable pub blocked_observation : GateDecision → Option ToolObservation
blocked_observation (blocked_with_path missing) = some (
    refusal (concat ("blocked_with_path: " ∷ missing ∷ [])) (
      field "blocked" (bool true) (
        field "tier" (str "T2") (
          field "reason" (str "grant present but policy unmet")
            (field "missing" (str missing) (field "retryable" (bool true) end))))))
blocked_observation (blocked_hard reason) = some (
    refusal (concat ("blocked_hard: " ∷ reason ∷ [])) (
      field "blocked" (bool true) (
        field "tier" (str "T1")
          (field "reason" (str reason) (field "retryable" (bool false) end)))))
blocked_observation (blocked_scope reason) = some (
    refusal (concat ("blocked_scope: " ∷ reason ∷ [])) (
      field "blocked" (bool true)
        (field "reason" (str reason) (field "retryable" (bool false) end))))
blocked_observation (permit t) = none

pub record Handled : Type 0 where
  pub observation : ToolObservation
  pub decision : GateDecision
  pub resolved_path : Option String

pub record HandleDeps (W : Type 0) : Type 0 where
  pub boundary : WorkspaceBoundary
  pub tools : List (ToolDef W)
  pub ctx : GateContext
  pub confine : ConfinementProvider W
  pub spawn : Option (SpawnContext W)
  pub connectors : Option (ConnectorAccess W)

abbrev pub later_or {ℓ} : {A : Type ℓ} → Option A → Option A → Option A
later_or (some later) o = some later
later_or none o = o

-- `toolsByName.get(name)`: of two tools with one name the map holds the later one.
unfoldable pub tool_named : {W : Type 0} → List (ToolDef W) → String → Option (ToolDef W)
tool_named [] name = none
tool_named (t ∷ tools) name =
    later_or (tool_named tools name) (if str_eq t.name name then some t else none)

-- `block.input ?? {}`
abbrev pub input_of : Json → Json
input_of null = obj end
input_of input = input

abbrev pub path_in : Json → Option String → Option String
path_in input none = none
path_in input (some key) = elim (get input key) [ some (str path) ↦ some path | _ ↦ none ]

abbrev pub abs_path_of : Resolution → Option String
abs_path_of (resolved path) = some path
abs_path_of (refused reason detail) = none

-- What is handed back of a refusal.
unfoldable pub refuse : {W : Type 0} → GateDecision → Option String → M W Handled
refuse decision path = elim (blocked_observation decision) [
  | some observation ↦
      pure (record { observation = observation; decision = decision; resolved_path = path })
  | none ↦ throw (plain_error "blockedObservation called with a permit decision")
]

-- `{ boundary, confine, spawn, connectors }`
abbrev pub exec_context : {W : Type 0} → HandleDeps W → ToolExecContext W
exec_context deps = record {
  boundary = deps.boundary;
  confine = some deps.confine;
  spawn = deps.spawn;
  connectors = deps.connectors;
  after_resolve_before_open = none;
}

abbrev pub action_of : {W : Type 0} → ToolDef W → Option String → GateAction
action_of t path = record {
  capability = t.capability;
  resolved_path = path;
  action_tier = t.action_tier;
}

module _ {W : Type 0} (fs : Fs W) where
  -- Step 4a: the path argument, resolved if there is one.
  unfoldable pub resolve_path : Option String → WorkspaceBoundary → M W (Option String)
  resolve_path none boundary = pure none
  resolve_path (some requested) boundary = λ s.
      let (found, w') = resolve_workspace fs requested boundary s.world in
      (ok (abs_path_of found), record s { world = w' })

  -- Steps 4b and 4d: the gate's verdict, and the execution on a permit alone.
  unfoldable pub decide_and_run :
      ToolDef W → Json → HandleDeps W → Option String → GateDecision → M W Handled
  decide_and_run tool_def input deps path (permit t) = do
    observation ← tool_def.execute input (exec_context deps)
    pure (record { observation = observation; decision = permit t; resolved_path = path })
  decide_and_run tool_def input deps path decision = refuse decision path

  unfoldable pub handle_tool_use : ToolUseBlock → HandleDeps W → M W Handled
  handle_tool_use call deps = elim (tool_named deps.tools call.name) [
    | none ↦ refuse (blocked_scope (concat ("unknown tool '" ∷ call.name ∷ "'" ∷ []))) none
    | some tool_def ↦ do
      let input = input_of call.input
      path ← resolve_path (path_in input tool_def.path_arg) deps.boundary
      decide_and_run tool_def input deps path (gate (action_of tool_def path) deps.ctx)
  ]
