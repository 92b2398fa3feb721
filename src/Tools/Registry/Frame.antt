-- ===== src/Tools/Registry/Frame.antt =====
-- A tool that is not the spawn tool changes nothing of the run's records.
use dream_team.Prelude.{
  get_elem?, All-get_elem?, ◌≢◌, refl, ℕ, String, ◌≡◌, inl, inr, true, some, List, All, All-mono,
  is_some, Option-cases,
}
use dream_team.Json.{Json}
use dream_team.Gate.Types.{tier_of}
use dream_team.Gate.Grants.{role_grant}
use dream_team.Effects.{returns, Session}
use dream_team.Effects.Settled.{IsCalmRun, Calm}
use dream_team.Tools.Types.{ToolDef, ToolExecContext}
use dream_team.Tools.Plan.{set_plan_tool}
use dream_team.Tools.WriteFile.{write_file_tool}
use dream_team.Tools.Shell.{shell_tool}
use dream_team.Tools.Spawn.{spawn_tool}
use dream_team.Tools.WebFetch.{web_fetch_tool}
use dream_team.Tools.Google.Gmail.{gmail_send_tool}
use dream_team.Tools.Google.Calendar.{calendar_read_tool, calendar_write_tool}
use dream_team.Tools.Google.Drive.{drive_read_tool}
use dream_team.Tools.Google.Sheets.{sheets_read_tool}
use dream_team.Tools.Google.Requests.{
  gmail_send_execute-Calm, calendar_read_execute-Calm, calendar_write_execute-Calm,
  drive_read_execute-Calm, sheets_read_execute-Calm,
}
use dream_team.Tools.Registry.{Host, all_tools, tools_for_role}
use dream_team.Tools.Registry.Surface.{tools_for_role-All}
use dream_team.Tools.WriteFile.Calm.{write_file_execute-Calm}
use dream_team.Tools.WebFetch.Calm.{web_fetch_execute-Calm}
use dream_team.Tools.Shell.Calm.{shell_execute-Calm}

module _ {W : Type 0} (host : Host W) where
  abbrev pub IsFramed : ToolDef W → Type 0
  IsFramed t =
      t.name ≢ "spawn" → (input : Json) (ctx : ToolExecContext W) → Calm ⊥ (t.execute input ctx)

  pub all_tools-IsFramed : All IsFramed (all_tools host)
  unfolding all_tools set_plan_tool write_file_tool shell_tool web_fetch_tool calendar_read_tool
      calendar_write_tool gmail_send_tool drive_read_tool sheets_read_tool spawn_tool
  all_tools-IsFramed = (
    (λ _ input ctx s. (tt, refl)),
    (
      λ _. write_file_execute-Calm ⊥ host.fs,
      (
        λ _. shell_execute-Calm ⊥,
        (
          λ other. absurd (other refl),
          (
            λ _. web_fetch_execute-Calm ⊥ host.net,
            (
              λ _. calendar_read_execute-Calm ⊥ host.http,
              (
                λ _. calendar_write_execute-Calm ⊥ host.http,
                (
                  λ _. gmail_send_execute-Calm ⊥ host.http,
                  (
                    λ _. drive_read_execute-Calm ⊥ host.http,
                    (λ _. sheets_read_execute-Calm ⊥ host.http, tt),
                  ),
                ),
              ),
            ),
          ),
        ),
      ),
    ),
  )

  -- A tool that a role is handed and that is not the spawn tool returns or throws, whatever it is
  -- given, and it leaves the run's records as they were: the trace, the failure packets, the artifact
  -- records, the warnings and the tree's spend.
  pub tools_for_role-IsCalmRun :
      (role : String) (ts : List (ToolDef W)) (i : ℕ) (t : ToolDef W)
      → tools_for_role host role ≡ returns ts
      → get_elem? ts i ≡ some t
      → t.name ≢ "spawn"
      → (input : Json) (ctx : ToolExecContext W) (s : Session W)
      → IsCalmRun ⊥ s (t.execute input ctx s)
  unfolding tools_for_role
  tools_for_role-IsCalmRun role ts i t e there other = elim (Option-cases (role_grant role)) [
    | inl unknown ↦ absurd (cc (rw (unknown, tools_for_role) at e))
    | inr (g, known) ↦
        All-get_elem? IsFramed ts i t
          ((tools_for_role-All host IsFramed role g ts known e).1 (
            All-mono IsFramed (λ t. is_some (tier_of g t.capability) ≡ true → IsFramed t)
              (all_tools host) (λ t h _. h) all_tools-IsFramed))
          there other
  ]
