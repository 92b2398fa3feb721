-- ===== src/Tools/Shell/Isolation.antt =====
-- What the shell tool of runtime/src/tools/shell.ts runs.
use dream_team.Prelude.{
  String, ◌≡◌, refl, ◌⊎◌, inl, inr, Option, none, some, [], ◌∷◌, Option-cases, concat,
}
use dream_team.Json.{Json, get}
use dream_team.Effects.Outcome.{attempt-cases}
use dream_team.Effects.{Session, Attempt, returns, throws, ok}
use dream_team.Tools.Types.{
  ToolExecContext, ToolObservation, ConfinementProvider, ConfinementKind, software, os, fail,
  ExecResult,
}
use dream_team.Tools.Shell.{
  Exec, isolated_exec, command_in, run_command, ran, message_of, isolation_detail, shell_execute,
}

kind-cases : (k : ConfinementKind) → (k ≡ os) ⊎ (k ≡ software)
kind-cases os = inl refl
kind-cases software = inr refl

-- What the tool makes of the container's answer.
abbrev pub reported : Attempt ExecResult → ToolObservation
reported (throws e) = fail (concat ("container exec failed: " ∷ message_of e ∷ []))
reported (returns r) = ran r

module _ {W : Type 0} where
  -- The provider isolates and can run commands.
  pub record IsIsolated (o : Option (ConfinementProvider W)) (exec : Exec W) : Type 0 where
    pub provider : ConfinementProvider W
    pub there : o ≡ some provider
    pub isolates : provider.kind ≡ os
    pub runs : provider.exec ≡ some exec

  isolated_exec-IsIsolated :
      (o : Option (ConfinementProvider W)) {exec : Exec W}
      → isolated_exec o ≡ some exec
      → IsIsolated o exec
  unfolding isolated_exec
  isolated_exec-IsIsolated none e = cc
  isolated_exec-IsIsolated (some provider) e = elim (kind-cases provider.kind) [
    | inl isolates ↦ record {
      provider = provider;
      there = refl;
      isolates = isolates;
      runs = rw (isolates, isolated_exec) at e;
    }
    | inr soft ↦ cc (rw (soft, isolated_exec) at e)
  ]

  pub run_command-reported :
      (exec : Exec W) (command : String) (s : Session W)
      → run_command exec command s ≡ (
        ok (reported (exec "sh" ("-c" ∷ command ∷ []) s.world).0),
        record s { world = (exec "sh" ("-c" ∷ command ∷ []) s.world).1 },
      )
  unfolding run_command
  run_command-reported exec command s =
      elim (attempt-cases (exec "sh" ("-c" ∷ command ∷ []) s.world).0) [
        | inl (r, e) ↦ rw e refl
        | inr (x, e) ↦ rw e refl
      ]

  -- The shell tool hands the command of the input to the container's shell, exactly once, and reports
  -- its answer, under a provider that isolates and can run commands; or it answers with an error and
  -- has run nothing: this where there is no such provider or the command is missing or blank. It never
  -- throws.
  pub shell_execute-IsIsolated :
      (input : Json) (ctx : ToolExecContext W) (s : Session W)
      → ((exec : Exec W) × (command : String) × IsIsolated ctx.confine exec
          × (command_in (get input "command") ≡ some command)
          × (shell_execute input ctx s ≡ (
            ok (reported (exec "sh" ("-c" ∷ command ∷ []) s.world).0),
            record s { world = (exec "sh" ("-c" ∷ command ∷ []) s.world).1 },
          )))
        ⊎ (((isolated_exec ctx.confine ≡ none) ⊎ (command_in (get input "command") ≡ none))
            × ((detail : String) × (shell_execute input ctx s ≡ (ok (fail detail), s))))
  unfolding shell_execute
  shell_execute-IsIsolated input ctx s = elim (Option-cases (isolated_exec ctx.confine)) [
    | inl missing ↦ rw (missing, shell_execute) (inr (inl refl, (isolation_detail, refl)))
    | inr (exec, found) ↦ elim (Option-cases (command_in (get input "command"))) [
      | inl blank ↦
          rw (found, shell_execute)
            (rw (blank, shell_execute) (inr (inr refl, ("empty shell command", refl))))
      | inr (command, given) ↦ inl (
        exec,
        command,
        isolated_exec-IsIsolated ctx.confine found,
        given,
        rw (found, shell_execute) (rw (given, shell_execute) (run_command-reported exec command s)),
      )
    ]
  ]
