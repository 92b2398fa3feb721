-- ===== src/Artifacts/Upload.antt =====
-- runtime/src/artifacts/upload.ts: the object key of an artifact, and the upload of its bytes.
use Prim.Native.Char.{code}
use dream_team.Prelude.{
  ℕ, ◌*◌, String, Bool, ◌||◌, ◌&&◌, Option, none, some, List, [], ◌∷◌, concat, show, leb, ltb, ◌==◌,
  str_eq, or_else, if◌then◌else◌,
}
use dream_team.Artifacts.Types.{ArtifactKind, markdown, json}
use dream_team.Paths.{basename}
use dream_team.Tools.Shell.{units_of}
use dream_team.Effects.{Attempt, M, call, throw, plain_error, ◌>>=◌}

abbrev pub max_artifact_bytes : ℕ
max_artifact_bytes = 10 * 1024 * 1024

-- `storage.upload(path, body, { contentType })`, which answers with the message of an error, if any,
-- and `set_artifact_storage_path`.
pub record Storage (W : Type 0) : Type 0 where
  pub upload : String → List ℕ → String → W → Attempt (Option String) × W

pub record UploadDeps (W : Type 0) : Type 0 where
  pub storage : Storage W
  pub set_storage_path : String → String → M W (Unit {0})
  pub read_bytes : String → W → Attempt (List ℕ) × W
  pub max_bytes : ℕ

pub record UploadArgs : Type 0 where
  pub artifact_id : String
  pub workspace_id : String
  pub ticket_id : Option String
  pub abs_path : String
  pub bytes : ℕ
  pub mime_type : Option String
  pub kind : ArtifactKind

-- `[A-Za-z0-9._-]`
unfoldable pub is_safe : ℕ → Bool
is_safe c =
    (leb 65 c && leb c 90)
    || (leb 97 c && leb c 122)
    || (leb 48 c && leb c 57)
    || c == 46
    || c == 95
    || c == 45

-- One "_" for each code unit of a character that is not safe.
unfoldable pub sanitize : String → String
sanitize String.[] = ""
sanitize (String.◌∷◌ c s) =
    let rest = sanitize s in
    if is_safe (code c)
    then String.◌∷◌ c rest
    else if units_of c == 1
    then String.◌∷◌ "_" rest
    else String.◌∷◌ "_" (String.◌∷◌ "_" rest)

unfoldable pub object_name : String → String
object_name abs_path =
    let name = sanitize (basename abs_path) in if str_eq name "" then "artifact" else name

unfoldable pub build_artifact_object_path : String → Option String → String → String → String
build_artifact_object_path workspace ticket artifact abs_path = concat (
    workspace
    ∷ "/"
    ∷ or_else ticket "_no_ticket"
    ∷ "/"
    ∷ artifact
    ∷ "/"
    ∷ object_name abs_path
    ∷ [])

abbrev pub kind_content_type : ArtifactKind → String
kind_content_type markdown = "text/markdown"
kind_content_type json = "application/json"
kind_content_type _ = "application/octet-stream"

unfoldable pub content_type_for : ArtifactKind → Option String → String
content_type_for kind none = kind_content_type kind
content_type_for kind (some mime) = if str_eq mime "" then kind_content_type kind else mime

-- The object key of the upload's arguments.
abbrev pub key_of : UploadArgs → String
key_of args =
    build_artifact_object_path args.workspace_id args.ticket_id args.artifact_id args.abs_path

module _ {W : Type 0} (deps : UploadDeps W) where
  -- The stamp, on an upload that reported no error.
  unfoldable pub stamp : UploadArgs → Option String → M W (Unit {0})
  stamp args (some message) =
      throw
        (plain_error (concat ("storage upload failed for " ∷ key_of args ∷ ": " ∷ message ∷ [])))
  stamp args none = deps.set_storage_path args.artifact_id (key_of args)

  unfoldable pub upload : UploadArgs → M W (Unit {0})
  upload args =
      if ltb deps.max_bytes args.bytes
      then throw (
          plain_error (
            concat (
              "artifact "
              ∷ args.abs_path
              ∷ " is "
              ∷ show args.bytes
              ∷ " bytes, over the "
              ∷ show deps.max_bytes
              ∷ "-byte limit — not uploaded"
              ∷ [])))
      else (do
        body ← call (deps.read_bytes args.abs_path)
        error ←
            call
              (deps.storage.upload (key_of args) body (content_type_for args.kind args.mime_type))
        stamp args error)
