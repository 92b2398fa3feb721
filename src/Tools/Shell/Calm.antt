-- ===== src/Tools/Shell/Calm.antt =====
-- shell of runtime/src/tools/shell.ts returns or throws, and changes only the world.
use dream_team.Prelude.{refl, String, inl, inr, arith, Option-cases}
use dream_team.Json.{Json, get}
use dream_team.Effects.Settled.{Calm}
use dream_team.Tools.Types.{ToolExecContext}
use dream_team.Tools.Shell.{isolated_exec, command_in, shell_execute, run_command, Exec}

module _ {W : Type 0} (D : Type 0) where
  run_command-Calm : (exec : Exec W) (c : String) → Calm D (run_command exec c)
  unfolding run_command
  run_command-Calm exec c s = ground arith

  pub shell_execute-Calm :
      (input : Json) (ctx : ToolExecContext W) → Calm D (shell_execute input ctx)
  unfolding shell_execute
  shell_execute-Calm input ctx s = elim (Option-cases (isolated_exec ctx.confine)) [
    | inl bare ↦ rw (bare, shell_execute) (tt, refl)
    | inr (exec, isolated) ↦ elim (Option-cases (command_in (get input "command"))) [
      | inl missing ↦ rw (isolated, shell_execute) (rw (missing, shell_execute) (tt, refl))
      | inr (command, given) ↦
          rw (isolated, shell_execute) (rw (given, shell_execute) (run_command-Calm exec command s))
    ]
  ]
