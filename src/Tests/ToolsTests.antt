-- ===== src/Tests/ToolsTests.antt =====
-- runtime/src/tools and runtime/src/gate/workspace.ts at concrete inputs.
use dream_team.Prelude.{
  ◌≡◌, ◌⊎◌, refl, true, none, some, [], ◌∷◌, String, is_blank, arith, includes,
}
use dream_team.Json.{Json, str, obj, end, field, get, get_fields}
use dream_team.Gate.Types.{t2, sh, RoleGrant, tier_of, cap_eq, WorkspaceBoundary}
use dream_team.Gate.Objects.{lookup, index, has_own}
use dream_team.Gate.Grants.{matrix, role_grant}
use dream_team.Gate.Org.{routing, is_dispatcher, may_route}
use dream_team.Effects.{returns, ok, pure}
use dream_team.Paths.{path_of, resolve, walk, is_absolute, relative}
use dream_team.Paths.Below.{segments, Below}
use dream_team.Workspace.{
  resolved, resolve_workspace, realpath_deepest_existing, probe, reattach, is_contained, is_enoent,
}
use dream_team.Workspace.Contained.{IsCanonical, resolve_workspace-IsCanonical}
use dream_team.Tools.Types.{ToolExecContext, SpawnContext, SpawnChildInput, os, fail}
use dream_team.Tools.Spawn.{text_in, spawn_execute}
use dream_team.Tools.Dispatch.{IsDispatch, runs, spawn_execute-IsDispatch, spawn_execute-runs}
use dream_team.Tools.Plan.{
  Plan, pending, valid, validate_plan, validate_steps, validate_step, status_of, plan_json,
}
use dream_team.Tools.Plan.Valid.{IsPlan, validate_plan-IsPlan, validate_plan-plan_json}
use dream_team.Tools.WriteFile.{write_file_execute}
use dream_team.Tools.WriteFile.OpenOnce.{Unwritten, NotOk, Writes, write_file_execute-Writes}
use dream_team.Tools.Shell.{Exec, command_in, isolated_exec, shell_execute}
use dream_team.Tools.Shell.Isolation.{IsIsolated, reported, shell_execute-IsIsolated}
use dream_team.Tests.World.{Tape, files, plan_input, session}

abbrev boundary : WorkspaceBoundary
boundary = record { workspace_root = "/ws"; read_allowlist = [] }

new_file : resolve_workspace files "src/a.ts" boundary [] ≡ (resolved "/ws/src/a.ts", [])
unfolding resolve_workspace realpath_deepest_existing probe reattach is_contained is_enoent resolve
    walk relative path_of is_absolute
new_file = refl

resolve_workspace-IsCanonical_example :
    IsCanonical files (resolve "/ws" "src/a.ts") "/ws/src/a.ts"
    × Below (segments "/ws/src/a.ts") (segments "/ws")
resolve_workspace-IsCanonical_example =
    resolve_workspace-IsCanonical files "src/a.ts" boundary [] new_file

abbrev spawner : SpawnContext Tape
spawner = record {
  spawner_role = "build-coordinator";
  spawner_grant = [];
  depth = 1;
  orch_count = 2;
  run_child =
      λ input. pure (record { role = input.role; state = "done"; iterations = 1; cost_usd = 0 });
}

abbrev context : ToolExecContext Tape
context = record {
  boundary = boundary;
  confine = none;
  spawn = some spawner;
  connectors = none;
  after_resolve_before_open = none;
}

abbrev request : Json
request = obj (field "role" (str "code-developer") (field "brief" (str "build it") end))

known : (g : RoleGrant) × (role_grant "code-developer" ≡ some g) × (tier_of g sh ≡ some t2)
unfolding role_grant index lookup matrix tier_of cap_eq
known = (_, refl, refl)

on_chart :
    (is_dispatcher "build-coordinator" ≡ true)
    × (may_route "build-coordinator" "code-developer" ≡ some true)
unfolding is_dispatcher may_route index has_own lookup routing includes
on_chart = (refl, refl)

abbrev child : SpawnChildInput
child = record {
  role = "code-developer";
  grant = known.0;
  brief = "build it";
  depth = 2;
  orch_count = 3;
}

dispatched : IsDispatch spawner child
dispatched = record {
  requested = known.0;
  known = known.1;
  deeper = refl;
  counted = refl;
  shallow = omega arith;
  below_cap = omega arith;
  on_chart = λ _. (on_chart.1, refl);
  narrowed = λ e. cc (e, on_chart.0);
}

named :
    (text_in (get request "role") ≡ some "code-developer")
    × (text_in (get request "brief") ≡ some "build it")
unfolding get get_fields is_blank
named = (refl, refl)

spawn_execute-IsDispatch_example :
    ((sp : SpawnContext Tape) × (c : SpawnChildInput) × (context.spawn ≡ some sp)
      × IsDispatch sp c
      × (text_in (get request "role") ≡ some c.role)
      × (text_in (get request "brief") ≡ some c.brief)
      × (spawn_execute request context (session []) ≡ runs sp c (session [])))
    ⊎ ((detail : String) × (spawn_execute request context (session [])
          ≡ (ok (fail detail), session [])))
spawn_execute-IsDispatch_example = spawn_execute-IsDispatch request context (session [])

spawn_execute-runs_example :
    spawn_execute request context (session []) ≡ runs spawner child (session [])
spawn_execute-runs_example =
    spawn_execute-runs request context spawner child (session []) refl named.0 named.1 dispatched

abbrev one_step : Plan
one_step = record {
  goal = "ship";
  steps = record { id = 1; description = "build"; tool = none; status = pending } ∷ [];
}

accepted : validate_plan plan_input ≡ valid one_step
unfolding validate_plan validate_steps validate_step status_of get get_fields is_blank
accepted = refl

validate_plan-IsPlan_example : IsPlan one_step
validate_plan-IsPlan_example = validate_plan-IsPlan plan_input one_step accepted

one_step-IsPlan : IsPlan one_step
unfolding is_blank
one_step-IsPlan = record {
  goal_given = refl;
  some_step = λ e. cc e;
  sound = (record { fresh = refl; described = refl; named = λ e. cc e }, tt);
}

validate_plan-plan_json_example : validate_plan (plan_json one_step) ≡ valid one_step
validate_plan-plan_json_example = validate_plan-plan_json one_step one_step-IsPlan

abbrev write_request : Json
write_request = obj (field "path" (str "a.txt") (field "content" (str "hi") end))

write_file_execute-Writes_example :
    (Unwritten files context []
        (write_file_execute files write_request context (session [])).1.world
      × NotOk (write_file_execute files write_request context (session [])).0)
    ⊎ Writes files write_request context
        (session [])
        (write_file_execute files write_request context (session []))
write_file_execute-Writes_example =
    write_file_execute-Writes files write_request context (session [])

abbrev container : ToolExecContext Tape
container = record context {
  confine = some (record {
    kind = os;
    workspace_root = "/ws";
    exec = some (λ program args tape.
        (returns (record { exit_code = 1; stdout = "out"; stderr = "" }), tape));
  });
}

abbrev shell_request : Json
shell_request = obj (field "command" (str "make") end)

shell_execute-IsIsolated_example :
    ((exec : Exec Tape) × (command : String) × IsIsolated container.confine exec
      × (command_in (get shell_request "command") ≡ some command)
      × (shell_execute shell_request container (session []) ≡ (
        ok (reported (exec "sh" ("-c" ∷ command ∷ []) []).0),
        record (session []) { world = (exec "sh" ("-c" ∷ command ∷ []) []).1 },
      )))
    ⊎ (((isolated_exec container.confine ≡ none)
          ⊎ (command_in (get shell_request "command") ≡ none))
        × ((detail : String) × (shell_execute shell_request container (session [])
              ≡ (ok (fail detail), session []))))
shell_execute-IsIsolated_example = shell_execute-IsIsolated shell_request container (session [])
