-- ===== src/Confine/Isolated.antt =====
-- The shell tool of runtime/src/tools/shell.ts over runtime/src/confine/docker-provider.ts.
use dream_team.Prelude.{
  ℕ, String, ◌≡◌, Bool, true, false, none, some, Option, List, [], ◌∷◌, ◌++◌, concat, includes,
  str_eq, if◌then◌else◌,
}
use dream_team.Json.{Json, Fields, num, get_fields}
use dream_team.Effects.{Session, ok, M}
use dream_team.Tools.Types.{ToolObservation}
use dream_team.Confine.{
  ExecCallback, ExecError, ExecCode, exit_status, errno, DockerConfinementOptions,
}

-- The options of `docker run` that take the next argument as their value.
abbrev takes_value : String → Bool
takes_value option = includes ("--security-opt" ∷ "--user" ∷ "-v" ∷ "-w" ∷ []) option

-- The arguments before the image as docker reads them: options, each with its value or none.
unfoldable pub read_options : List String → List (String × String)
unfolding includes
read_options [] = []
read_options (option ∷ []) = (option, "") ∷ []
read_options (option ∷ value ∷ rest) =
    let paired = (option, value) ∷ read_options rest in
    let alone = (option, "") ∷ read_options (value ∷ rest) in
    if takes_value option then paired else alone

unfoldable pub values_of : String → List (String × String) → List String
values_of name [] = []
values_of name ((option, value) ∷ rest) =
    let later = values_of name rest in if str_eq option name then value ∷ later else later

-- The isolation that a shell command is promised: a container of its own, no network, no capability,
-- no new privileges, a user other than root, and of the host's files the workspace root alone.
pub record IsLockedDown (root : String) (options : List (String × String)) : Type 0 where
  pub removed : values_of "--rm" options ≡ "" ∷ []
  pub offline : values_of "--network=none" options ≡ "" ∷ []
  pub powerless : values_of "--cap-drop=ALL" options ≡ "" ∷ []
  pub no_escalation : values_of "--security-opt" options ≡ "no-new-privileges" ∷ []
  pub not_root : values_of "--user" options ≡ "1000:1000" ∷ []
  pub only_mount : values_of "-v" options ≡ concat (root ∷ ":/workspace" ∷ []) ∷ []
  pub no_other_mount : (values_of "--mount" options ≡ []) × (values_of "--volume" options ≡ [])
  pub unprivileged : values_of "--privileged" options ≡ []

-- The exit code that is told: docker's own, or 126 where docker did not run the command to its end.
abbrev pub code_of : ExecCode → ℕ
code_of (exit_status code) = code
code_of (errno code) = 126

abbrev pub told_code : Option ExecError → ℕ
told_code none = 0
told_code (some error) = code_of error.code

-- The observation claims a run that ended with an exit code.
pub record Claims (code : ℕ) (obs : ToolObservation) : Type 0 where
  pub succeeded : obs.ok ≡ true
  pub no_error : obs.is_error ≡ false
  pub fields : Fields
  pub told_data : obs.value ≡ some fields
  pub told : get_fields fields "exitCode" ≡ some (num code)

module _ {W : Type 0} (exec_file : List String → ℕ → W → ExecCallback × W)
    (root image : String) where
  -- The options that leave the runner to docker.
  abbrev pub by_docker : DockerConfinementOptions W
  by_docker = record { image = some image; timeout_ms = none; run = none }

  -- One run of the command, by docker, in a locked-down container, and what is reported of it.
  pub record IsOneRun (command : String) (run : M W ToolObservation) (s : Session W) : Type 0 where
    pub flags : List String
    pub locked_down : IsLockedDown root (read_options flags)
    pub answer : ExecCallback
    pub last : W
    pub ran_once :
        exec_file ("run" ∷ flags ++ image ∷ "sh" ∷ "-c" ∷ command ∷ []) 120_000 s.world
        ≡ (answer, last)
    pub obs : ToolObservation
    pub whole : run s ≡ (ok obs, record s { world = last })
    pub claims : Claims (told_code answer.error) obs

  abbrev isolation_flags : List String
  isolation_flags =
      "--rm"
      ∷ "--network=none"
      ∷ "--cap-drop=ALL"
      ∷ "--security-opt"
      ∷ "no-new-privileges"
      ∷ "--user"
      ∷ "1000:1000"
      ∷ "-v"
      ∷ concat (root ∷ ":/workspace" ∷ [])
      ∷ "-w"
      ∷ "/workspace"
      ∷ []
