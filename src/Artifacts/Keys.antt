-- ===== src/Artifacts/Keys.antt =====
-- The object key under which runtime/src/artifacts/upload.ts stores an artifact.
use Prim.Native.Char.{code}
use dream_team.Prelude.{
  String, ◌≡◌, ◌≢◌, refl, sym, ◌∙◌, Bool, true, ◌&&◌, arith, str_eq, Bool-cases, inl, inr, eq_iff,
}
use dream_team.Paths.{basename}
use dream_team.Artifacts.Upload.{is_safe, sanitize, object_name}

-- Letters, digits, ".", "_" and "-" only.
abbrev pub all_safe : String → Bool
all_safe String.[] = true
all_safe (String.◌∷◌ c s) = is_safe (code c) && all_safe s

underscore-is_safe : is_safe (code "_") ≡ true
unfolding is_safe
underscore-is_safe = refl

artifact-all_safe : all_safe "artifact" ≡ true
unfolding is_safe
artifact-all_safe = refl

sanitize-all_safe : (s : String) → all_safe (sanitize s) ≡ true
unfolding sanitize
sanitize-all_safe String.[] = refl
sanitize-all_safe (String.◌∷◌ c s) = ground (arith, sanitize-all_safe s, underscore-is_safe)

sanitize-eq_self : (s : String) → all_safe s ≡ true → sanitize s ≡ s
unfolding sanitize
sanitize-eq_self String.[] h = refl
sanitize-eq_self (String.◌∷◌ c s) h = ground (arith, sanitize-eq_self s)

-- The last segment of an artifact's object key is not empty, holds no slash and nothing else but
-- letters, digits, ".", "_" and "-", and it is the file's name where that is of this form.
pub object_name-all_safe :
    (path : String)
    → (object_name path ≢ "")
      × (all_safe (object_name path) ≡ true)
      × (basename path ≢ "" → all_safe (basename path) ≡ true → object_name path ≡ basename path)
unfolding object_name
object_name-all_safe path =
    let b = basename path in
    let name = sanitize b in
    elim (Bool-cases (str_eq name "")) [
      | inl gone ↦
          rw (gone, object_name)
            (
              (λ e. cc e),
              artifact-all_safe,
              (λ named safe.
                  absurd (named (sym (sanitize-eq_self b safe) ∙ (eq_iff name "").0 gone))),
            )
      | inr there ↦
          rw (there, object_name)
            (
              (λ e. cc (there, (eq_iff name "").1 e)),
              sanitize-all_safe b,
              λ named safe. sanitize-eq_self b safe,
            )
    ]
