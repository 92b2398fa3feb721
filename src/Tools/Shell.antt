-- ===== src/Tools/Shell.antt =====
-- runtime/src/tools/shell.ts: a command in the run's container.
pub mod Isolation
pub mod Calm
use Prim.Native.Char.{Char, code}
use Prim.Native.String
use dream_team.Prelude.{
  ℕ, zero, suc, ◌+◌, ◌-◌, String, Bool, true, false, Option, none, some, List, [], ◌∷◌, concat,
  show, is_blank, leb, ◌==◌, if◌then◌else◌,
}
use dream_team.Json.{Json, str, num, Fields, end, field, get}
use dream_team.Gate.Types.{sh, t2}
use dream_team.Effects.{JsError, Attempt, returns, throws, M, pure, attempt, ◌>>=◌}
use dream_team.Tools.Types.{
  ToolDef, ToolObservation, ToolExecContext, ConfinementProvider, ConfinementKind, software, os,
  ExecResult, fail, succeed,
}

abbrev pub max_output_chars : ℕ
max_output_chars = 10_000

-- The UTF-16 code units of a character and of a text.
abbrev pub units_of : Char → ℕ
units_of c = if leb 65536 (code c) then 2 else 1

unfoldable pub units : String → ℕ
units String.[] = 0
units (String.◌∷◌ c s) = units_of c + units s

-- `s.slice(0, n)`; of a character that the cut would halve nothing is kept.
unfoldable pub take_units : ℕ → String → String
take_units n String.[] = ""
take_units n (String.◌∷◌ c s) =
    let rest = take_units (n - units_of c) s in if leb (units_of c) n then String.◌∷◌ c rest else ""

unfoldable pub truncate : String → String
unfolding units take_units
truncate s =
    if leb (units s) max_output_chars
    then s
    else concat (
        take_units max_output_chars s
        ∷ "\n…[truncated "
        ∷ show (units s - max_output_chars)
        ∷ " chars]"
        ∷ [])

-- The message of an error.
abbrev pub message_of : JsError → String
message_of e = e.message

unfoldable pub ran : ExecResult → ToolObservation
unfolding truncate
ran res =
    succeed
      (if res.exit_code == 0
        then "shell exited 0"
        else concat ("shell exited " ∷ show res.exit_code ∷ []))
      (field "exitCode" (num res.exit_code) (
        field "stdout" (str (truncate res.stdout))
          (field "stderr" (str (truncate res.stderr)) end)))

abbrev pub isolation_detail : String
isolation_detail = "shell requires OS isolation (Decision 8); refused under software confinement"

abbrev pub Exec : Type 0 → Type 0
Exec W = String → List String → W → Attempt ExecResult × W

-- A command that is there and not blank.
abbrev pub command_in : Option Json → Option String
command_in (some (str s)) = if is_blank s then none else some s
command_in _ = none

module _ {W : Type 0} where
  -- The provider's `exec` behind the hard guard.
  unfoldable pub isolated_exec : Option (ConfinementProvider W) → Option (Exec W)
  isolated_exec none = none
  isolated_exec (some provider) = elim provider.kind [ os ↦ provider.exec | software ↦ none ]

  unfoldable pub run_command : Exec W → String → M W ToolObservation
  unfolding ran
  run_command exec command = do
    res ← attempt (exec "sh" ("-c" ∷ command ∷ []))
    elim res [
      | throws e ↦ pure (fail (concat ("container exec failed: " ∷ message_of e ∷ [])))
      | returns r ↦ pure (ran r)
    ]

  unfoldable pub shell_execute : Json → ToolExecContext W → M W ToolObservation
  shell_execute input ctx = elim (isolated_exec ctx.confine) [
    | none ↦ pure (fail isolation_detail)
    | some exec ↦ elim (command_in (get input "command")) [
      | none ↦ pure (fail "empty shell command")
      | some command ↦ run_command exec command
    ]
  ]

  unfoldable pub shell_tool : ToolDef W
  shell_tool = record {
    name = "shell";
    capability = sh;
    action_tier = t2;
    path_arg = none;
    execute = shell_execute;
  }
