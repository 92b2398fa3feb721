-- ===== src/Tools/Spawn.antt =====
-- runtime/src/tools/spawn.ts: the sub-agent dispatch.
use dream_team.Prelude.{
  ℕ, ◌+◌, String, true, false, Option, none, some, [], ◌∷◌, concat, show, is_blank, ltb, leb,
  if◌then◌else◌,
}
use dream_team.Json.{Json, str, num, usd, obj, Fields, end, field, get}
use dream_team.Gate.Types.{RoleGrant, spawn, t2, tier_name, capability_name}
use dream_team.Gate.Grants.{role_grant}
use dream_team.Gate.Intersect.{intersect_grants}
use dream_team.Gate.Org.{is_dispatcher, may_route}
use dream_team.Effects.{M, pure, throw, type_error, ◌>>=◌}
use dream_team.Tools.Types.{
  ToolDef, ToolObservation, ToolExecContext, SpawnContext, ChildRunSummary, fail, succeed,
}
use dream_team.Loop.Cost.{to_fixed_4}

abbrev pub max_spawn_depth : ℕ
max_spawn_depth = 3

abbrev pub max_orchestration_iterations : ℕ
max_orchestration_iterations = 15

-- A text that is there and is not blank.
abbrev pub text_in : Option Json → Option String
text_in (some (str s)) = if is_blank s then none else some s
text_in _ = none

-- What the org chart makes of a request: the child's grant, a refusal, or a throw.
pub data Conferred : Type 0 where
  grants : RoleGrant → Conferred
  off_chart : Conferred
  raises : Conferred

unfoldable pub child_grant : String → RoleGrant → String → RoleGrant → Conferred
child_grant spawner spawner_grant role requested =
    if is_dispatcher spawner
    then elim (may_route spawner role) [
      | none ↦ raises
      | some true ↦ grants requested
      | some false ↦ off_chart
    ]
    else grants (intersect_grants spawner_grant requested)

grant_json : RoleGrant → Fields
grant_json [] = end
grant_json ((c, t) ∷ g) = field (capability_name c) (str (tier_name t)) (grant_json g)

abbrev summary_json : ChildRunSummary → Json
summary_json s = obj (
    field "role" (str s.role) (
      field "state" (str s.state)
        (field "iterations" (num s.iterations) (field "costUsd" (usd s.cost_usd) end))))

unfoldable pub spawned : ChildRunSummary → RoleGrant → ToolObservation
unfolding grant_json
spawned s grant =
    succeed
      (concat (
        "spawned "
        ∷ s.role
        ∷ " → "
        ∷ s.state
        ∷ " ("
        ∷ show s.iterations
        ∷ " iter, $"
        ∷ to_fixed_4 s.cost_usd
        ∷ ")"
        ∷ []))
      (field "child" (summary_json s) (field "childGrant" (obj (grant_json grant)) end))

module _ {W : Type 0} where
  -- The run of the child, after every check.
  unfoldable pub launch : SpawnContext W → String → String → RoleGrant → M W ToolObservation
  launch sp role brief grant = do
    summary ← sp.run_child (record {
      role = role;
      grant = grant;
      brief = brief;
      depth = sp.depth + 1;
      orch_count = sp.orch_count + 1;
    })
    pure (spawned summary grant)

  unfoldable pub confer : SpawnContext W → String → String → Conferred → M W ToolObservation
  confer sp role brief (grants grant) = launch sp role brief grant
  confer sp role brief off_chart = pure (
      fail (
        concat
          ("'" ∷ sp.spawner_role ∷ "' may not route to '" ∷ role ∷ "' (out of org chart)" ∷ [])))
  confer sp role brief raises = throw (type_error "allowed.includes is not a function")

  -- The caps, and what comes after them.
  unfoldable pub admit : SpawnContext W → String → String → RoleGrant → M W ToolObservation
  admit sp role brief requested =
      if ltb max_spawn_depth (sp.depth + 1)
      then pure (fail (concat ("spawn depth cap (" ∷ show max_spawn_depth ∷ ") exceeded" ∷ [])))
      else if leb max_orchestration_iterations (sp.orch_count + 1)
      then pure (fail "orchestration iteration limit reached")
      else confer sp role brief (child_grant sp.spawner_role sp.spawner_grant role requested)

  unfoldable pub dispatch_child : SpawnContext W → String → String → M W ToolObservation
  dispatch_child sp role brief = elim (role_grant role) [
    | none ↦ pure (fail (concat ("unknown role '" ∷ role ∷ "' (no capability grant)" ∷ [])))
    | some requested ↦ admit sp role brief requested
  ]

  unfoldable pub spawn_execute : Json → ToolExecContext W → M W ToolObservation
  spawn_execute input ctx = elim ctx.spawn [
    | none ↦ pure (fail "spawn is not available in this run")
    | some sp ↦ elim (text_in (get input "role")) [
      | none ↦ pure (fail "spawn requires a role")
      | some role ↦ elim (text_in (get input "brief")) [
        | none ↦ pure (fail "spawn requires a brief")
        | some brief ↦ dispatch_child sp role brief
      ]
    ]
  ]

  unfoldable pub spawn_tool : ToolDef W
  spawn_tool = record {
    name = "spawn";
    capability = spawn;
    action_tier = t2;
    path_arg = none;
    execute = spawn_execute;
  }
