-- ===== src/Tools/Types.antt =====
-- runtime/src/tools/types.ts, with the seams that a tool is handed: the confinement provider of
-- runtime/src/confine/provider.ts, the spawn seam of runtime/src/tools/spawn.ts and the connector
-- access of runtime/src/connectors/google.ts. An observation's `data` is an object or absent, and a
-- tool's input schema is left to the model provider and not kept.
use dream_team.Prelude.{ℕ, String, Bool, true, false, Option, none, some, List, concat, ◌∷◌, []}
use dream_team.Gate.Types.{Capability, Tier, RoleGrant, WorkspaceBoundary}
use dream_team.Json.{Json, Fields}
use dream_team.Effects.{M, Attempt}

pub record ToolObservation : Type 0 where
  pub ok : Bool
  pub summary : String
  pub value : Option Fields
  pub is_error : Bool

-- `{ ok: false, is_error: true, summary: `execution_error: ${detail}` }`
abbrev pub fail : String → ToolObservation
fail detail = record {
  ok = false;
  summary = concat ("execution_error: " ∷ detail ∷ []);
  value = none;
  is_error = true;
}

abbrev pub succeed : String → Fields → ToolObservation
succeed summary fields = record {
  ok = true;
  summary = summary;
  value = some fields;
  is_error = false;
}

pub record ExecResult : Type 0 where
  pub exit_code : ℕ
  pub stdout : String
  pub stderr : String

pub data ConfinementKind : Type 0 where
  software os : ConfinementKind

pub record ConfinementProvider (W : Type 0) : Type 0 where
  pub kind : ConfinementKind
  pub workspace_root : String
  pub exec : Option (String → List String → W → Attempt ExecResult × W)

unfoldable pub software_confinement : {W : Type 0} → String → ConfinementProvider W
software_confinement root = record { kind = software; workspace_root = root; exec = none }

pub data GoogleProvider : Type 0 where
  google_calendar gmail google_drive google_sheets : GoogleProvider

pub record ConnectorAccess (W : Type 0) : Type 0 where
  pub google_token : GoogleProvider → W → Attempt String × W

pub record ChildRunSummary : Type 0 where
  pub role : String
  pub state : String
  pub iterations : ℕ
  pub cost_usd : ℕ

pub record SpawnChildInput : Type 0 where
  pub role : String
  pub grant : RoleGrant
  pub brief : String
  pub depth : ℕ
  pub orch_count : ℕ

abbrev pub RunChildFn : Type 0 → Type 0
RunChildFn W = SpawnChildInput → M W ChildRunSummary

pub record SpawnContext (W : Type 0) : Type 0 where
  pub spawner_role : String
  pub spawner_grant : RoleGrant
  pub depth : ℕ
  pub orch_count : ℕ
  pub run_child : RunChildFn W

-- `after_resolve_before_open` is the race window of the tests; a run leaves it out.
pub record ToolExecContext (W : Type 0) : Type 0 where
  pub boundary : WorkspaceBoundary
  pub confine : Option (ConfinementProvider W)
  pub spawn : Option (SpawnContext W)
  pub connectors : Option (ConnectorAccess W)
  pub after_resolve_before_open : Option (W → Attempt (Unit {0}) × W)

pub record ToolDef (W : Type 0) : Type 0 where
  pub name : String
  pub capability : Capability
  pub action_tier : Tier
  pub path_arg : Option String
  pub execute : Json → ToolExecContext W → M W ToolObservation
