-- ===== src/Tools/Registry/Kept.antt =====
-- The registered tools only add to the run's records where child runs do.
use dream_team.Prelude.{
  refl, ap, str_eq, false, ◌≢◌, sym, subst, inl, inr, true, String, ◌≡◌, List, All, All-mono,
  is_some, Option-cases,
}
use dream_team.Gate.Types.{tier_of}
use dream_team.Gate.Grants.{role_grant}
use dream_team.Artifacts.Types.{ArtifactRecord}
use dream_team.Effects.{returns, pure}
use dream_team.Effects.Later.{IsLater, IsLater-refl, IsCalmRun-IsLater, Keeps-bind}
use dream_team.Tools.Types.{ToolDef}
use dream_team.Tools.Plan.{set_plan_tool}
use dream_team.Tools.WriteFile.{write_file_tool}
use dream_team.Tools.Shell.{shell_tool}
use dream_team.Tools.Spawn.{spawn_tool, spawned}
use dream_team.Tools.Dispatch.{spawn_execute-IsDispatch}
use dream_team.Tools.WebFetch.{web_fetch_tool}
use dream_team.Tools.Google.Gmail.{gmail_send_tool}
use dream_team.Tools.Google.Calendar.{calendar_read_tool, calendar_write_tool}
use dream_team.Tools.Google.Drive.{drive_read_tool}
use dream_team.Tools.Google.Sheets.{sheets_read_tool}
use dream_team.Tools.Registry.{Host, all_tools, tools_for_role}
use dream_team.Tools.Registry.Surface.{tools_for_role-All}
use dream_team.Tools.Registry.Frame.{IsFramed, all_tools-IsFramed}
use dream_team.Loop.Kept.{ToolKeeps}

module _ {W : Type 0} (P : ArtifactRecord → Type 0) (host : Host W) where
  spawn_tool-Keeps : ToolKeeps {W = W} P spawn_tool
  unfolding spawn_tool
  spawn_tool-Keeps input ctx below s = elim (spawn_execute-IsDispatch input ctx s) [
    | inl (sp, child, there, _, _, _, run) ↦
        subst (λ r. IsLater P s r.1) (sym run)
          (Keeps-bind P (sp.run_child child) (λ summary. pure (spawned summary child.grant))
            (below sp there child) (λ _ s'. IsLater-refl P s') s)
    | inr (detail, run) ↦ subst (λ r. IsLater P s r.1) (sym run) (IsLater-refl P s)
  ]

  framed-Keeps : (t : ToolDef W) → IsFramed host t → t.name ≢ "spawn" → ToolKeeps P t
  framed-Keeps t framed other input ctx below s =
      IsCalmRun-IsLater P ⊥ s (t.execute input ctx s) (framed other input ctx s)

  differs : (name : String) → str_eq name "spawn" ≡ false → name ≢ "spawn"
  differs name e same = cc (e, ap (λ n. str_eq n "spawn") same)

  all_tools-Keeps : All (ToolKeeps P) (all_tools host)
  unfolding all_tools set_plan_tool write_file_tool shell_tool web_fetch_tool calendar_read_tool
      calendar_write_tool gmail_send_tool drive_read_tool sheets_read_tool
  all_tools-Keeps =
      let all_framed = all_tools-IsFramed host in
      (
        framed-Keeps set_plan_tool (all_framed.0) (differs _ refl),
        (
          framed-Keeps (write_file_tool host.fs) (all_framed.1.0) (differs _ refl),
          (
            framed-Keeps shell_tool (all_framed.1.1.0) (differs _ refl),
            (
              spawn_tool-Keeps,
              (
                framed-Keeps (web_fetch_tool host.net) (all_framed.1.1.1.1.0) (differs _ refl),
                (
                  framed-Keeps (calendar_read_tool host.http) (all_framed.1.1.1.1.1.0)
                      (differs _ refl),
                  (
                    framed-Keeps (calendar_write_tool host.http) (all_framed.1.1.1.1.1.1.0)
                        (differs _ refl),
                    (
                      framed-Keeps (gmail_send_tool host.http) (all_framed.1.1.1.1.1.1.1.0)
                          (differs _ refl),
                      (
                        framed-Keeps (drive_read_tool host.http) (all_framed.1.1.1.1.1.1.1.1.0)
                            (differs _ refl),
                        (
                          framed-Keeps (sheets_read_tool host.http) (all_framed.1.1.1.1.1.1.1.1.1.0)
                              (differs _ refl),
                          tt,
                        ),
                      ),
                    ),
                  ),
                ),
              ),
            ),
          ),
        ),
      )

  -- The tools of a role only add to the run's records where child runs do.
  pub tools_for_role-Keeps :
      (role : String) (ts : List (ToolDef W))
      → tools_for_role host role ≡ returns ts
      → All (ToolKeeps P) ts
  unfolding tools_for_role
  tools_for_role-Keeps role ts e = elim (Option-cases (role_grant role)) [
    | inl unknown ↦ absurd (cc (rw (unknown, tools_for_role) at e))
    | inr (g, known) ↦ (tools_for_role-All host (ToolKeeps P) role g ts known e).1 (
        All-mono (ToolKeeps P) (λ t. is_some (tier_of g t.capability) ≡ true → ToolKeeps P t)
          (all_tools host) (λ t h _. h) all_tools-Keeps)
  ]
