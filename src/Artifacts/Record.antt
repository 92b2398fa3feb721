-- ===== src/Artifacts/Record.antt =====
-- runtime/src/artifacts/record.ts: the liveness check of a written file, and its record.
use dream_team.Prelude.{
  ℕ, String, Bool, true, false, Option, none, List, [], ◌∷◌, ◌++◌, concat, ◌==◌, if◌then◌else◌,
}
use dream_team.Artifacts.Types.{ArtifactKind, ArtifactRecord}
use dream_team.Workspace.{describe}
use dream_team.Effects.{Attempt, returns, throws, M, ok, pure, attempt, ◌>>=◌}

-- What `stat` answers.
pub record FileInfo : Type 0 where
  pub is_file : Bool
  pub size : ℕ

-- `stat`, `readFile(path, 'utf8')` and `readFile(path)` of `node:fs/promises`
pub record Files (W : Type 0) : Type 0 where
  pub stat : String → W → Attempt FileInfo × W
  pub read_text : String → W → Attempt String × W
  pub read_bytes : String → W → Attempt (List ℕ) × W

-- A predicate answers or throws.
pub record ArtifactSpec : Type 0 where
  pub abs_path : String
  pub predicate : String → Attempt Bool
  pub kind : ArtifactKind
  pub mime_type : Option String

pub data DeadReason : Type 0 where
  missing empty predicate_unmet : DeadReason

pub data LivenessResult : Type 0 where
  live : (bytes : ℕ) → LivenessResult
  dead : DeadReason → (detail : String) → LivenessResult

pub record RecordContext : Type 0 where
  pub workspace_id : String
  pub ticket_id : Option String
  pub role : String

-- Step (c).
unfoldable pub check_content : ArtifactSpec → FileInfo → String → LivenessResult
check_content spec info content = elim (spec.predicate content) [
  | throws e ↦ dead predicate_unmet (concat ("predicate threw: " ∷ describe e ∷ []))
  | returns false ↦
      dead predicate_unmet (
        concat
          ("content of " ∷ spec.abs_path ∷ " did not satisfy the declared post-condition" ∷ []))
  | returns true ↦ live info.size
]

-- The record of a live artifact.
unfoldable pub live_record : ArtifactSpec → RecordContext → ℕ → ArtifactRecord
live_record spec ctx bytes = record {
  workspace_id = ctx.workspace_id;
  ticket_id = ctx.ticket_id;
  kind = spec.kind;
  storage_path = none;
  mime_type = spec.mime_type;
  bytes = bytes;
  abs_path = spec.abs_path;
  created_by = ctx.role;
}

module _ {W : Type 0} (files : Files W) where
  unfoldable pub check_info : ArtifactSpec → FileInfo → M W LivenessResult
  check_info spec info =
      if info.is_file
      then (if info.size == 0
          then pure (dead empty (concat (spec.abs_path ∷ " is zero bytes" ∷ [])))
          else (do
            content ← attempt (files.read_text spec.abs_path)
            elim content [
              | throws e ↦ pure (dead missing (concat ("read failed: " ∷ describe e ∷ [])))
              | returns text ↦ pure (check_content spec info text)
            ]))
      else pure (dead missing (concat (spec.abs_path ∷ " is not a regular file" ∷ [])))

  unfoldable pub check_liveness : ArtifactSpec → M W LivenessResult
  check_liveness spec = do
    found ← attempt (files.stat spec.abs_path)
    elim found [
      | throws e ↦ pure (dead missing (concat ("stat failed: " ∷ describe e ∷ [])))
      | returns info ↦ check_info spec info
    ]

  unfoldable pub emit_if_live : ArtifactSpec → RecordContext → LivenessResult → M W LivenessResult
  emit_if_live spec ctx (dead reason detail) = pure (dead reason detail)
  emit_if_live spec ctx (live bytes) = λ s.
      (ok (live bytes), record s { artifacts = s.artifacts ++ live_record spec ctx bytes ∷ [] })

  unfoldable pub record_artifact_if_live : ArtifactSpec → RecordContext → M W LivenessResult
  record_artifact_if_live spec ctx = do result ← check_liveness spec; emit_if_live spec ctx result
