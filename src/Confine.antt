-- ===== src/Confine.antt =====
-- runtime/src/confine/docker-provider.ts: one locked-down container for each command. Node's
-- `execFile` is a parameter.
pub mod Isolated
use dream_team.Prelude.{
  ℕ, String, Option, none, some, List, [], ◌∷◌, ◌++◌, concat, is_blank, or_else, if◌then◌else◌,
}
use dream_team.Effects.{Attempt, returns, throws}
use dream_team.Tools.Types.{ExecResult, ConfinementProvider, os}

-- The error of `execFile`'s callback: its code is a number, a text, or absent.
pub data ExecCode : Type 0 where
  exit_status : ℕ → ExecCode
  errno : Option String → ExecCode

pub record ExecError : Type 0 where
  pub code : ExecCode
  pub message : String

pub record ExecCallback : Type 0 where
  pub error : Option ExecError
  pub stdout : String
  pub stderr : String

abbrev pub DockerRunner : Type 0 → Type 0
DockerRunner W = List String → (timeout_ms : ℕ) → W → Attempt ExecResult × W

pub record DockerConfinementOptions (W : Type 0) : Type 0 where
  pub image : Option String
  pub timeout_ms : Option ℕ
  pub run : Option (DockerRunner W)

abbrev pub default_image : String
default_image = "node:20-alpine"

abbrev pub default_timeout_ms : ℕ
default_timeout_ms = 120_000

unfoldable pub build_argv : (workspace_root image program : String) → List String → List String
build_argv workspace_root image program args =
    "run"
    ∷ "--rm"
    ∷ "--network=none"
    ∷ "--cap-drop=ALL"
    ∷ "--security-opt"
    ∷ "no-new-privileges"
    ∷ "--user"
    ∷ "1000:1000"
    ∷ "-v"
    ∷ concat (workspace_root ∷ ":/workspace" ∷ [])
    ∷ "-w"
    ∷ "/workspace"
    ∷ image
    ∷ program
    ∷ args

-- What the default runner makes of the callback's arguments.
unfoldable pub exec_result : ExecCallback → ExecResult
exec_result cb = elim cb.error [
  | none ↦ record { exit_code = 0; stdout = cb.stdout; stderr = cb.stderr }
  | some error ↦ elim error.code [
    | exit_status code ↦ record { exit_code = code; stdout = cb.stdout; stderr = cb.stderr }
    | errno code ↦ record {
      exit_code = 126;
      stdout = cb.stdout;
      stderr =
          if is_blank cb.stderr
          then concat (or_else code "error" ∷ ": " ∷ error.message ∷ [])
          else cb.stderr;
    }
  ]
]

module _ {W : Type 0} (exec_file : List String → (timeout_ms : ℕ) → W → ExecCallback × W) where
  unfoldable pub default_runner : DockerRunner W
  default_runner argv timeout_ms w =
      let (cb, w') = exec_file argv timeout_ms w in (returns (exec_result cb), w')

  unfoldable pub docker_exec :
      String
      → DockerConfinementOptions W
      → (program : String) → List String
      → W
      → Attempt ExecResult × W
  docker_exec workspace_root options program args =
      (or_else options.run default_runner)
        (build_argv workspace_root (or_else options.image default_image) program args)
        (or_else options.timeout_ms default_timeout_ms)

  unfoldable pub docker_confinement : String → DockerConfinementOptions W → ConfinementProvider W
  docker_confinement workspace_root options = record {
    kind = os;
    workspace_root = workspace_root;
    exec = some (docker_exec workspace_root options);
  }
