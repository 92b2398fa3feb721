-- ===== src/Artifacts/Live.antt =====
-- When runtime/src/artifacts/record.ts records an artifact.
use dream_team.Prelude.{
  ℕ, ◌<◌, String, ◌≡◌, refl, ap, ◌⊎◌, inl, inr, true, false, [], ◌∷◌, ◌++◌, ◌==◌, arith, Bool-cases,
  concat,
}
use dream_team.Workspace.{describe}
use dream_team.Effects.{JsError, returns, throws, Result, ok, err, Session}
use dream_team.Effects.Outcome.{attempt-cases}
use dream_team.Artifacts.Record.{
  Files, FileInfo, ArtifactSpec, RecordContext, LivenessResult, predicate_unmet, live, dead,
  live_record, check_content, check_info, check_liveness, emit_if_live, record_artifact_if_live,
}

module _ {W : Type 0} (files : Files W) (spec : ArtifactSpec) where
  -- A regular file that is not empty, can be read and meets the declared post-condition.
  pub record IsLive (w : W) (bytes : ℕ) : Type 0 where
    pub info : FileInfo
    pub found : (files.stat spec.abs_path w).0 ≡ returns info
    pub regular : info.is_file ≡ true
    pub sized : info.size ≡ bytes
    pub some_bytes : 0 < bytes
    pub text : String
    pub readable : (files.read_text spec.abs_path (files.stat spec.abs_path w).1).0 ≡ returns text
    pub as_declared : spec.predicate text ≡ returns true

  content_raised :
      (info : FileInfo) (text : String) {x : JsError}
      → spec.predicate text ≡ throws x
      → check_content spec info text
        ≡ dead predicate_unmet (concat ("predicate threw: " ∷ describe x ∷ []))
  unfolding check_content
  content_raised info text p = rw (p, check_content) refl

  content_unmet :
      (info : FileInfo) (text : String)
      → spec.predicate text ≡ returns false
      → check_content spec info text
        ≡ dead predicate_unmet (
            concat
              ("content of " ∷ spec.abs_path ∷ " did not satisfy the declared post-condition" ∷ []))
  unfolding check_content
  content_unmet info text p = rw (p, check_content) refl

  content_live :
      (info : FileInfo) (text : String)
      → spec.predicate text ≡ returns true
      → check_content spec info text ≡ live info.size
  unfolding check_content
  content_live info text p = rw (p, check_content) refl

  -- The check failed and nothing was recorded.
  abbrev pub Unrecorded : Session W → Result LivenessResult × Session W → Type 0
  Unrecorded s (ok (dead reason detail), s') = s' ≡ record s { world = s'.world }
  Unrecorded s (ok (live bytes), s') = ⊥
  Unrecorded s (err e, s') = ⊥

  abbrev last_world : W → W
  last_world w = (files.read_text spec.abs_path (files.stat spec.abs_path w).1).1

  -- Exactly a live artifact is recorded: where the file is live, the one record of it, with its size, is
  -- handed to the emitter; else nothing is, and the caller is told so. The check never throws.
  pub record_artifact_if_live-IsLive :
      (ctx : RecordContext) (s : Session W)
      → ((bytes : ℕ) × (w : W) × IsLive s.world bytes
          × (record_artifact_if_live files spec ctx s ≡ (
            ok (live bytes),
            record s { world = w; artifacts = s.artifacts ++ live_record spec ctx bytes ∷ [] },
          )))
        ⊎ (((bytes : ℕ) → ¬ (IsLive s.world bytes))
            × Unrecorded s (record_artifact_if_live files spec ctx s))
  unfolding record_artifact_if_live check_liveness check_info emit_if_live
  record_artifact_if_live-IsLive ctx s = elim (attempt-cases (files.stat spec.abs_path s.world).0) [
    | inr (x, e) ↦ inr (λ bytes l. cc (l.found, e), rw (e, record_artifact_if_live) refl)
    | inl (info, e) ↦
        let same : (bytes : ℕ) (l : IsLive s.world bytes) → l.info ≡ info =
          λ bytes l. cc (l.found, e) in
        elim (Bool-cases info.is_file) [
          | inr no' ↦ inr (
            λ bytes l. cc (ap (λ (i : FileInfo). i.is_file) (same bytes l), l.regular, no'),
            rw (e, record_artifact_if_live) (rw (no', check_info) refl),
          )
          | inl file' ↦ elim (Bool-cases (info.size == 0)) [
            | inl none' ↦ inr (
              λ bytes l.
                  ground
                    (arith, ap (λ (i : FileInfo). i.size) (same bytes l), l.sized, l.some_bytes),
              rw (e, record_artifact_if_live)
                  (rw (file', check_info) (rw (none', check_info) refl)),
            )
            | inr full ↦
                elim (attempt-cases
                  (files.read_text spec.abs_path (files.stat spec.abs_path s.world).1).0) [
                    | inr (x, e') ↦ inr (
                      λ bytes l. cc (l.readable, e'),
                      rw (e, record_artifact_if_live)
                          (rw (file', check_info) (rw (full, check_info) (rw e' refl))),
                    )
                    | inl (text, e') ↦
                        let read : (bytes : ℕ) (l : IsLive s.world bytes) → l.text ≡ text =
                          λ bytes l. cc (l.readable, e') in
                        elim (attempt-cases (spec.predicate text)) [
                          | inr (x, p) ↦ inr (
                            λ bytes l. cc (ap spec.predicate (read bytes l), l.as_declared, p),
                            rw (e, record_artifact_if_live)
                                (rw (file', check_info)
                                  (rw (full, check_info)
                                    (rw (e', check_info)
                                      (rw (content_raised info text p, emit_if_live) refl)))),
                          )
                          | inl (false, p) ↦ inr (
                            λ bytes l. cc (ap spec.predicate (read bytes l), l.as_declared, p),
                            rw (e, record_artifact_if_live)
                                (rw (file', check_info)
                                  (rw (full, check_info)
                                    (rw (e', check_info)
                                      (rw (content_unmet info text p, emit_if_live) refl)))),
                          )
                          | inl (true, p) ↦ inl (
                            info.size,
                            last_world s.world,
                            record {
                              info = info;
                              found = e;
                              regular = file';
                              sized = refl;
                              some_bytes = ground (arith, full);
                              text = text;
                              readable = e';
                              as_declared = p;
                            },
                            rw (e, record_artifact_if_live)
                                (rw (file', check_info)
                                  (rw (full, check_info)
                                    (rw (e', check_info)
                                      (rw (content_live info text p, emit_if_live) refl)))),
                          )
                        ]
                  ]
          ]
        ]
  ]
