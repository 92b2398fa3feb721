-- ===== src/Tools/Registry/Lasting.antt =====
-- Every registered tool returns or throws where child runs do.
use dream_team.Prelude.{
  String, ◌≡◌, subst, sym, inl, inr, true, Option, some, List, All, All-mono, is_some, Option-cases,
}
use dream_team.Gate.Types.{tier_of}
use dream_team.Gate.Grants.{role_grant}
use dream_team.Effects.{returns, Session, pure}
use dream_team.Effects.Outcome.{After, Holds, After-bind}
use dream_team.Tools.Types.{ToolDef, SpawnContext, SpawnChildInput}
use dream_team.Tools.Plan.{set_plan_tool}
use dream_team.Tools.WriteFile.{write_file_tool}
use dream_team.Tools.Shell.{shell_tool}
use dream_team.Tools.Spawn.{spawn_tool, spawned}
use dream_team.Tools.Dispatch.{IsDispatch, runs, spawn_execute-IsDispatch}
use dream_team.Tools.WebFetch.{web_fetch_tool}
use dream_team.Tools.Google.Gmail.{gmail_send_tool}
use dream_team.Tools.Google.Calendar.{calendar_read_tool, calendar_write_tool}
use dream_team.Tools.Google.Drive.{drive_read_tool}
use dream_team.Tools.Google.Sheets.{sheets_read_tool}
use dream_team.Tools.Google.Requests.{
  gmail_send_execute-Calm, calendar_read_execute-Calm, calendar_write_execute-Calm,
  drive_read_execute-Calm, sheets_read_execute-Calm,
}
use dream_team.Tools.Registry.{Host, all_tools, tools_for_role}
use dream_team.Tools.Registry.Surface.{tools_for_role-All}
use dream_team.Tools.WriteFile.Calm.{write_file_execute-Calm}
use dream_team.Tools.Shell.Calm.{shell_execute-Calm}
use dream_team.Tools.WebFetch.Calm.{web_fetch_execute-Calm}
use dream_team.Loop.Calls.{Lasts, ChildrenLast}

module _ {W : Type 0} (D : Type 0) where
  runs-Settled :
      (sp : SpawnContext W) (child : SpawnChildInput) (o : Option (SpawnContext W)) (s : Session W)
      → ChildrenLast D o
      → o ≡ some sp
      → IsDispatch sp child
      → After D (λ _ _. Unit) (runs sp child) s
  runs-Settled sp child o s below there h =
      After-bind D (λ _ _. Unit) (λ _ _. Unit) (sp.run_child child)
        (λ summary. pure (spawned summary child.grant)) s
        (below sp there child s h.deeper h.shallow) (λ a s' _. tt)

  spawn_tool-Lasts : Lasts {W = W} D spawn_tool
  unfolding spawn_tool
  spawn_tool-Lasts input ctx s below = elim (spawn_execute-IsDispatch input ctx s) [
    | inl (sp, child, there, dispatch, _, _, run) ↦
        subst (λ r. Holds D (λ _ _. Unit) r.0 r.1) (sym run)
          (runs-Settled sp child ctx.spawn s below there dispatch)
    | inr (detail, run) ↦ subst (λ r. Holds D (λ _ _. Unit) r.0 r.1) (sym run) tt
  ]

  module _ (host : Host W) where
    all_tools-Lasts : All (Lasts D) (all_tools host)
    unfolding all_tools set_plan_tool write_file_tool shell_tool web_fetch_tool calendar_read_tool
        calendar_write_tool gmail_send_tool drive_read_tool sheets_read_tool
    all_tools-Lasts = (
      λ input ctx s _. tt,
      (
        λ input ctx s _. (write_file_execute-Calm D host.fs input ctx s).0,
        (
          λ input ctx s _. (shell_execute-Calm D input ctx s).0,
          (
            spawn_tool-Lasts,
            (
              λ input ctx s _. (web_fetch_execute-Calm D host.net input ctx s).0,
              (
                λ input ctx s _. (calendar_read_execute-Calm D host.http input ctx s).0,
                (
                  λ input ctx s _. (calendar_write_execute-Calm D host.http input ctx s).0,
                  (
                    λ input ctx s _. (gmail_send_execute-Calm D host.http input ctx s).0,
                    (
                      λ input ctx s _. (drive_read_execute-Calm D host.http input ctx s).0,
                      (λ input ctx s _. (sheets_read_execute-Calm D host.http input ctx s).0, tt),
                    ),
                  ),
                ),
              ),
            ),
          ),
        ),
      ),
    )

    -- The tools of a role return or throw.
    pub tools_for_role-Lasts :
        (role : String) (ts : List (ToolDef W))
        → tools_for_role host role ≡ returns ts
        → All (Lasts D) ts
    unfolding tools_for_role
    tools_for_role-Lasts role ts e = elim (Option-cases (role_grant role)) [
      | inl unknown ↦ absurd (cc (rw (unknown, tools_for_role) at e))
      | inr (g, known) ↦ (tools_for_role-All host (Lasts D) role g ts known e).1 (
          All-mono (Lasts D) (λ t. is_some (tier_of g t.capability) ≡ true → Lasts D t)
            (all_tools host) (λ t h _. h) all_tools-Lasts)
    ]
