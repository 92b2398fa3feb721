-- ===== src/Tools/Registry.antt =====
-- runtime/src/tools/registry.ts: which tools a role is handed.
pub mod Surface
pub mod Frame
pub mod Lasting
pub mod Kept
use dream_team.Prelude.{String, Option, none, some, List, [], ◌∷◌, concat, keep, is_some}
use dream_team.Gate.Types.{tier_of}
use dream_team.Gate.Grants.{role_grant}
use dream_team.Effects.{Attempt, returns, throws, plain_error}
use dream_team.Workspace.{Fs}
use dream_team.Tools.Types.{ToolDef}
use dream_team.Tools.Plan.{set_plan_tool}
use dream_team.Tools.WriteFile.{write_file_tool}
use dream_team.Tools.Shell.{shell_tool}
use dream_team.Tools.Spawn.{spawn_tool}
use dream_team.Tools.WebFetch.{Net, web_fetch_tool}
use dream_team.Tools.Google.{Http}
use dream_team.Tools.Google.Gmail.{gmail_send_tool}
use dream_team.Tools.Google.Calendar.{calendar_read_tool, calendar_write_tool}
use dream_team.Tools.Google.Drive.{drive_read_tool}
use dream_team.Tools.Google.Sheets.{sheets_read_tool}

-- What the tools use of the host.
pub record Host (W : Type 0) : Type 0 where
  pub fs : Fs W
  pub net : Net W
  pub http : Http W

module _ {W : Type 0} (host : Host W) where
  unfoldable pub all_tools : List (ToolDef W)
  all_tools =
      set_plan_tool
      ∷ write_file_tool host.fs
      ∷ shell_tool
      ∷ spawn_tool
      ∷ web_fetch_tool host.net
      ∷ calendar_read_tool host.http
      ∷ calendar_write_tool host.http
      ∷ gmail_send_tool host.http
      ∷ drive_read_tool host.http
      ∷ sheets_read_tool host.http
      ∷ []

  unfoldable pub tools_for_role : String → Attempt (List (ToolDef W))
  unfolding all_tools
  tools_for_role role = elim (role_grant role) [
    | none ↦
        throws (plain_error (concat ("unknown role '" ∷ role ∷ "' (no capability grant)" ∷ [])))
    | some grant ↦
        returns (keep (λ (t : ToolDef W). is_some (tier_of grant t.capability)) all_tools)
  ]
