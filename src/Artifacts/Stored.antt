-- ===== src/Artifacts/Stored.antt =====
-- When runtime/src/artifacts/upload.ts stamps an artifact's storage path.
use dream_team.Prelude.{
  ℕ, ◌≤◌, ◌<◌, String, ◌≡◌, ◌≢◌, refl, sym, subst, ◌∙◌, true, false, ◌⊎◌, inl, inr, Option, none,
  some, List, ltb, ltb→lt, arith, Bool-cases,
}
use dream_team.Effects.{
  JsError, Attempt, returns, throws, Result, ok, err, thrown, out_of_fuel, Session,
}
use dream_team.Effects.Outcome.{attempt-cases}
use dream_team.Artifacts.Upload.{UploadDeps, UploadArgs, key_of, content_type_for, stamp, upload}

module _ {W : Type 0} (deps : UploadDeps W) (args : UploadArgs) (s : Session W) where
  abbrev pub read : Attempt (List ℕ) × W
  read = deps.read_bytes args.abs_path s.world

  abbrev pub stored : List ℕ → Attempt (Option String) × W
  stored body =
      deps.storage.upload (key_of args) body (content_type_for args.kind args.mime_type) read.1

  -- The file's bytes are within the cap and stored under the artifact's key.
  pub record IsStored : Type 0 where
    pub within : args.bytes ≤ deps.max_bytes
    pub body : List ℕ
    pub readable : read.0 ≡ returns body
    pub accepted : (stored body).0 ≡ returns none

  -- It threw, and all that it left is this world.
  abbrev pub Threw : W → Result (Unit {0}) × Session W → Type 0
  Threw w (err (thrown e), s') = s' ≡ record s { world = w }
  Threw w (err out_of_fuel, s') = ⊥
  Threw w (ok a, s') = ⊥

  abbrev pub ThrewAt : W → Type 0
  ThrewAt w = Threw w (upload deps args s)

  over : ltb deps.max_bytes args.bytes ≡ true → ThrewAt s.world
  unfolding upload
  over h = rw (h, upload) refl

  unread :
      {e : JsError} → ltb deps.max_bytes args.bytes ≡ false → read.0 ≡ throws e → ThrewAt read.1
  unfolding upload
  unread h r = rw (h, upload) (rw (r, upload) refl)

  stamp_at : List ℕ → Option String → Result (Unit {0}) × Session W
  stamp_at body o = stamp deps args o (record s { world = (stored body).1 })

  unstored :
      (body : List ℕ) {e : JsError}
      → ltb deps.max_bytes args.bytes ≡ false
      → read.0 ≡ returns body
      → (stored body).0 ≡ throws e
      → ThrewAt (stored body).1
  unfolding upload
  unstored body h r u = rw (h, upload) (rw (r, upload) (rw (u, upload) refl))

  stamped :
      (body : List ℕ) (o : Option String)
      → ltb deps.max_bytes args.bytes ≡ false
      → read.0 ≡ returns body
      → (stored body).0 ≡ returns o
      → upload deps args s ≡ stamp_at body o
  unfolding upload stamp_at
  stamped body o h r u = rw (h, upload) (rw (r, upload) (rw (u, upload) refl))

  refused_at :
      (body : List ℕ) (message : String) → Threw (stored body).1 (stamp_at body (some message))
  unfolding stamp_at stamp
  refused_at body message = refl

  accepted_at :
      (body : List ℕ)
      → stamp_at body none
        ≡ deps.set_storage_path args.artifact_id
            (key_of args)
            (record s { world = (stored body).1 })
  unfolding stamp_at stamp
  accepted_at body = refl

  -- The storage path is stamped, under the artifact's id and key, after the bytes are stored under that
  -- key, and only then; over the cap the upload throws before any call, and where the file cannot be read
  -- or the bytes are not stored it throws with no call after that one.
  pub upload-IsStored :
      ((h : IsStored) × (upload deps args s
          ≡ deps.set_storage_path args.artifact_id
              (key_of args)
              (record s { world = (stored h.body).1 })))
      ⊎ (((deps.max_bytes < args.bytes) × ThrewAt s.world)
          ⊎ (((e : JsError) × (read.0 ≡ throws e) × ThrewAt read.1)
              ⊎ ((body : List ℕ) × (read.0 ≡ returns body)
                  × ((stored body).0 ≢ returns none)
                  × ThrewAt (stored body).1)))
  upload-IsStored = elim (Bool-cases (ltb deps.max_bytes args.bytes)) [
    | inl big ↦ inr (inl (ltb→lt _ _ big, over big))
    | inr fits ↦ elim (attempt-cases read.0) [
      | inr (e, r) ↦ inr (inr (inl (e, r, unread fits r)))
      | inl (body, r) ↦ elim (attempt-cases (stored body).0) [
        | inr (e, u) ↦ inr (inr (inr (body, r, (λ h. cc (h, u)), unstored body fits r u)))
        | inl (some message, u) ↦ inr (
            inr (
              inr (
                body,
                r,
                (λ h. cc (h, u)),
                subst (Threw (stored body).1) (sym (stamped body (some message) fits r u))
                    (refused_at body message),
              )))
        | inl (none, u) ↦ inl (
          record { within = ground (arith, fits); body = body; readable = r; accepted = u },
          stamped body none fits r u ∙ accepted_at body,
        )
      ]
    ]
  ]
