-- ===== src/Artifacts/Types.antt =====
-- The data of runtime/src/artifacts/record.ts.
use dream_team.Prelude.{ℕ, String, Option}

pub data ArtifactKind : Type 0 where
  markdown file bundle json : ArtifactKind

pub record ArtifactRecord : Type 0 where
  pub workspace_id : String
  pub ticket_id : Option String
  pub kind : ArtifactKind
  pub storage_path : Option String
  pub mime_type : Option String
  pub bytes : ℕ
  pub abs_path : String
  pub created_by : String

abbrev pub kind_name : ArtifactKind → String
kind_name markdown = "markdown"
kind_name file = "file"
kind_name bundle = "bundle"
kind_name json = "json"
