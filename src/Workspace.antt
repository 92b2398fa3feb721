-- ===== src/Workspace.antt =====
-- runtime/src/gate/workspace.ts: canonicalising a requested path and containing it in the
-- workspace root. The file system is a parameter.
pub mod Contained
use mathlib.Core.List.{reverse}
use text.Mathlib.Text.{starts_with}
use dream_team.Prelude.{
  String, Bool, true, false, ◌||◌, Option, none, some, List, [], ◌∷◌, ◌++◌, concat, str_eq,
  if◌then◌else◌,
}
use dream_team.Json.{Json}
use dream_team.Paths.{is_absolute, path_of, resolve, relative}
use dream_team.Gate.Types.{WorkspaceBoundary}
use dream_team.Effects.{JsError, Attempt, returns, throws, plain_error}

-- The calls of `node:fs` and `node:fs/promises` that the runtime makes, in the world `W`.
pub record Fs (W : Type 0) : Type 0 where
  pub realpath : String → W → Attempt String × W
  pub is_directory : String → W → Attempt Bool × W
  pub mkdir_recursive : String → W → Attempt (Unit {0}) × W
  -- `open(path, O_WRONLY | O_CREAT | O_TRUNC | O_NOFOLLOW, 0o600)`
  pub open_no_follow : String → W → Attempt (Unit {0}) × W
  -- `lstat(path)` and `isSymbolicLink()`
  pub is_symbolic_link : String → W → Attempt Bool × W
  -- `handle.writeFile(content)` and `handle.close()`, of the handle opened last
  pub write_handle : Json → W → Attempt (Unit {0}) × W
  pub close_handle : W → Attempt (Unit {0}) × W

pub data Reason : Type 0 where
  outside_boundary resolve_failed : Reason

pub data Resolution : Type 0 where
  resolved : (abs_path : String) → Resolution
  refused : Reason → (detail : String) → Resolution

abbrev has_code : Option String → String → Bool
has_code none code = false
has_code (some c) code = str_eq c code

unfoldable pub is_enoent : JsError → Bool
is_enoent e = has_code e.code "ENOENT"

unfoldable pub describe : JsError → String
describe e = elim e.code [ some code ↦ concat (code ∷ ": " ∷ e.message ∷ []) | none ↦ e.message ]

-- Path-segment containment.
unfoldable pub is_contained : String → String → Bool
is_contained child root =
    let rel = relative root child in
    if str_eq rel ""
    then true
    else if str_eq rel ".." || starts_with rel "../" || is_absolute rel
    then false
    else true

unfoldable pub not_directory : String → JsError
not_directory real = plain_error (concat ("ENOTDIR: ancestor " ∷ real ∷ " is not a directory" ∷ []))

module _ {W : Type 0} (fs : Fs W) where
  -- What the body of the loop makes of an ancestor that exists: the path itself if nothing trails
  -- it, else the trailing segments put below a directory.
  unfoldable pub reattach : List String → String → W → Attempt String × W
  unfolding not_directory
  reattach [] real w = (returns real, w)
  reattach (s ∷ trailing) real w =
      let (found, w') = fs.is_directory real w in
      elim found [
        | throws e ↦ (throws e, w')
        | returns false ↦ (throws (not_directory real), w')
        | returns true ↦ (returns (path_of (reverse (s ∷ trailing) ++ resolve "/" real)), w')
      ]

  -- The body of the loop, up to the `catch`.
  unfoldable pub probe : List String → List String → W → Attempt String × W
  unfolding reattach
  probe current trailing w =
      let (found, w') = fs.realpath (path_of current) w in
      elim found [ throws e ↦ (throws e, w') | returns real ↦ reattach trailing real w' ]

  -- The loop that walks up to the deepest ancestor that exists. The path stands as its segments,
  -- the last one at the head; at the file system's root the parent is the path itself.
  unfoldable pub realpath_deepest_existing : List String → List String → W → Attempt String × W
  unfolding probe
  realpath_deepest_existing [] trailing w = probe [] trailing w
  realpath_deepest_existing (s ∷ parent) trailing w =
      let (found, w') = probe (s ∷ parent) trailing w in
      elim found [
        | returns real ↦ (returns real, w')
        | throws e ↦
            let above = realpath_deepest_existing parent (s ∷ trailing) w' in
            if is_enoent e then above else (throws e, w')
      ]

  unfoldable pub resolve_workspace : String → WorkspaceBoundary → W → Resolution × W
  unfolding realpath_deepest_existing describe
  resolve_workspace requested boundary w =
      let root = boundary.workspace_root in
      let (found, w') = realpath_deepest_existing (resolve root requested) [] w in
      elim found [
        | throws e ↦ (refused resolve_failed (describe e), w')
        | returns canonical ↦ if is_contained canonical root then (resolved canonical, w') else (
          refused outside_boundary (
              concat ("resolved path " ∷ canonical ∷ " is not inside workspace root " ∷ root ∷ [])),
          w',
        )
      ]
