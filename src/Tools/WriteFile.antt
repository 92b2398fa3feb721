-- ===== src/Tools/WriteFile.antt =====
-- runtime/src/tools/write-file.ts: the write through a handle that is opened once.
pub mod OpenOnce
pub mod Calm
use Prim.Native.String
use dream_team.Prelude.{
  String, Bool, true, false, Option, none, some, List, [], ◌∷◌, concat, show, str_eq, if◌then◌else◌,
}
use dream_team.Json.{Json, null, str, num, end, field, get}
use dream_team.Gate.Types.{WorkspaceBoundary, w, t3}
use dream_team.Paths.{relative, dirname}
use dream_team.Workspace.{
  Fs, Reason, outside_boundary, resolve_failed, Resolution, resolved, refused, is_contained,
  describe, resolve_workspace,
}
use dream_team.Effects.{
  JsError, Attempt, returns, throws, M, ok, Session, pure, throw, call, attempt, ◌>>=◌, ◌>>◌,
}
use dream_team.Tools.Types.{ToolDef, ToolObservation, ToolExecContext, fail, succeed}

abbrev pub reason_name : Reason → String
reason_name outside_boundary = "outside_boundary"
reason_name resolve_failed = "resolve_failed"

-- What Node throws for an argument that is no text.
abbrev pub invalid_argument : String → JsError
invalid_argument name = record {
  name = "TypeError";
  code = some "ERR_INVALID_ARG_TYPE";
  message = concat ("The \"" ∷ name ∷ "\" argument must be of type string." ∷ []);
}

unfoldable pub display_path : String → WorkspaceBoundary → String
display_path path boundary =
    let rel = relative boundary.workspace_root path in if str_eq rel "" then path else rel

unfoldable pub wrote : String → String → WorkspaceBoundary → ToolObservation
unfolding display_path
wrote path content boundary =
    succeed
      (concat
        ("wrote " ∷ show (String.len content) ∷ " bytes to " ∷ display_path path boundary ∷ []))
      (field "path" (str path) (field "bytes" (num (String.len content)) end))

-- A path that is a text.
abbrev pub path_text : Option Json → Option String
path_text (some (str path)) = some path
path_text _ = none

-- `input.content`, where an absent one is as good as null: neither is a text.
abbrev pub content_of : Json → Json
content_of input = elim (get input "content") [ some content ↦ content | none ↦ null ]

abbrev pub written : String → Json → WorkspaceBoundary → ToolObservation
written path (str content) boundary = wrote path content boundary
written path _ boundary =
    fail (concat ("write failed: " ∷ describe (invalid_argument "string") ∷ []))

module _ {W : Type 0} (fs : Fs W) where
  -- The refusals after the open: the detail of one, if there is any.
  unfoldable pub check_link : String → M W (Option String)
  check_link path = do
    link ← attempt (fs.is_symbolic_link path)
    elim link [
      | throws e ↦ pure (some (concat ("post-open lstat failed: " ∷ describe e ∷ [])))
      | returns true ↦ pure (some (concat ("final component " ∷ path ∷ " is a symlink" ∷ [])))
      | returns false ↦ pure none
    ]

  unfoldable pub check_opened : String → WorkspaceBoundary → M W (Option String)
  check_opened path boundary = do
    target ← attempt (fs.realpath path)
    elim target [
      | throws e ↦ pure (some (concat ("post-open realpath failed: " ∷ describe e ∷ [])))
      | returns real ↦
          if is_contained real boundary.workspace_root
          then check_link path
          else pure (
              some (
                concat (
                  "opened object " ∷ real ∷ " is outside workspace root " ∷ boundary.workspace_root
                  ∷ [])))
    ]

  -- Step (d) and (e).
  unfoldable pub write_through : String → Json → WorkspaceBoundary → M W ToolObservation
  write_through path content boundary = do
    done ← attempt (fs.write_handle content)
    elim done [
      | throws e ↦ pure (fail (concat ("write failed: " ∷ describe e ∷ [])))
      | returns _ ↦ pure (written path content boundary)
    ]

  unfoldable pub write_checked :
      String → Json → WorkspaceBoundary → Option String → M W ToolObservation
  write_checked path content boundary (some detail) = pure (fail detail)
  write_checked path content boundary none = write_through path content boundary

  -- The `try` with a handle that is open, and its `finally`.
  unfoldable pub with_handle : String → Json → WorkspaceBoundary → M W ToolObservation
  with_handle path content boundary = do
    bad ← check_opened path boundary
    obs ← write_checked path content boundary bad
    attempt fs.close_handle
    pure obs

  unfoldable pub open_once : String → Json → WorkspaceBoundary → M W ToolObservation
  open_once path content boundary = do
    handle ← attempt (fs.open_no_follow path)
    elim handle [
      | throws e ↦ pure (fail (concat ("open (no-follow) refused: " ∷ describe e ∷ [])))
      | returns _ ↦ with_handle path content boundary
    ]

  -- Step (b-pre).
  unfoldable pub check_parent : String → Json → WorkspaceBoundary → M W ToolObservation
  check_parent path content boundary = do
    parent ← attempt (fs.realpath (dirname path))
    elim parent [
      | throws e ↦ pure (fail (concat ("pre-open parent realpath failed: " ∷ describe e ∷ [])))
      | returns real ↦
          if is_contained real boundary.workspace_root
          then open_once path content boundary
          else pure (
              fail (
                concat (
                  "write parent " ∷ real ∷ " is outside workspace root " ∷ boundary.workspace_root
                  ∷ [])))
    ]

  -- The race window of the tests.
  unfoldable pub race : Option (W → Attempt (Unit {0}) × W) → M W (Unit {0})
  race none = pure tt
  race (some hook) = call hook

  -- After the resolution: the race window, the parent's creation, the checks.
  unfoldable pub write_resolved : String → Json → ToolExecContext W → M W ToolObservation
  write_resolved path content ctx = do
    race ctx.after_resolve_before_open
    call (fs.mkdir_recursive (dirname path))
    check_parent path content ctx.boundary

  unfoldable pub write_at : Resolution → Json → ToolExecContext W → M W ToolObservation
  write_at (resolved path) content ctx = write_resolved path content ctx
  write_at (refused reason detail) content ctx = pure (
      fail (
        concat (
          "path did not resolve inside workspace: "
          ∷ reason_name reason
          ∷ " ("
          ∷ detail
          ∷ ")"
          ∷ [])))

  unfoldable pub write_file_execute : Json → ToolExecContext W → M W ToolObservation
  write_file_execute input ctx = elim (path_text (get input "path")) [
    | some path ↦ λ s.
        let (found, w') = resolve_workspace fs path ctx.boundary s.world in
        write_at found (content_of input) ctx (record s { world = w' })
    | none ↦ throw (invalid_argument "path")
  ]

  unfoldable pub write_file_tool : ToolDef W
  write_file_tool = record {
    name = "write_file";
    capability = w;
    action_tier = t3;
    path_arg = some "path";
    execute = write_file_execute;
  }
