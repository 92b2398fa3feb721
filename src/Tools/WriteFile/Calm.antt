-- ===== src/Tools/WriteFile/Calm.antt =====
-- write_file of runtime/src/tools/write-file.ts returns or throws, and changes only the world.
use dream_team.Prelude.{refl, String, inl, inr, Option, none, some, arith, Option-cases, Bool-cases}
use dream_team.Json.{Json, get}
use dream_team.Gate.Types.{WorkspaceBoundary}
use dream_team.Workspace.{Fs, Resolution, resolved, refused, is_contained}
use dream_team.Paths.{dirname}
use dream_team.Effects.{Attempt}
use dream_team.Effects.Outcome.{attempt-cases}
use dream_team.Effects.Settled.{Calm, Calm-bind, Calm-call}
use dream_team.Tools.Types.{ToolExecContext}
use dream_team.Tools.WriteFile.{
  write_file_execute, write_at, write_resolved, race, check_parent, open_once, with_handle,
  check_opened, check_link, write_checked, write_through, path_text,
}

module _ {W : Type 0} (D : Type 0) where
  module _ (fs : Fs W) where
    check_opened-Calm : (path : String) (b : WorkspaceBoundary) → Calm D (check_opened fs path b)
    unfolding check_opened check_link
    check_opened-Calm path b s = ground arith

    write_checked-Calm :
        (path : String) (content : Json) (b : WorkspaceBoundary) (o : Option String)
        → Calm D (write_checked fs path content b o)
    unfolding write_checked write_through
    write_checked-Calm path content b none s = ground arith
    write_checked-Calm path content b (some d) s = (tt, refl)

    with_handle-Calm :
        (path : String) (content : Json) (b : WorkspaceBoundary)
        → Calm D (with_handle fs path content b)
    unfolding with_handle
    with_handle-Calm path content b =
        Calm-bind D (check_opened fs path b) _ (check_opened-Calm path b) (λ bad.
          Calm-bind D (write_checked fs path content b bad) _
            (write_checked-Calm path content b bad) (λ obs s. (tt, refl)))

    open_once-Calm :
        (path : String) (content : Json) (b : WorkspaceBoundary)
        → Calm D (open_once fs path content b)
    unfolding open_once
    open_once-Calm path content b s = elim (attempt-cases (fs.open_no_follow path s.world).0) [
      | inl (_, e) ↦ rw (e, open_once) (with_handle-Calm path content b _)
      | inr (x, e) ↦ rw (e, open_once) (tt, refl)
    ]

    check_parent-Calm :
        (path : String) (content : Json) (b : WorkspaceBoundary)
        → Calm D (check_parent fs path content b)
    unfolding check_parent
    check_parent-Calm path content b s =
        elim (attempt-cases (fs.realpath (dirname path) s.world).0) [
          | inr (x, e) ↦ rw (e, check_parent) (tt, refl)
          | inl (real, e) ↦ elim (Bool-cases (is_contained real b.workspace_root)) [
            | inl inside ↦
                rw (e, check_parent) (rw (inside, check_parent) (open_once-Calm path content b _))
            | inr outside ↦ rw (e, check_parent) (rw (outside, check_parent) (tt, refl))
          ]
        ]

    race-Calm : (o : Option (W → Attempt (Unit {0}) × W)) → Calm D (race fs o)
    unfolding race
    race-Calm none s = (tt, refl)
    race-Calm (some hook) s = ground arith

    write_at-Calm :
        (found : Resolution) (content : Json) (ctx : ToolExecContext W)
        → Calm D (write_at fs found content ctx)
    unfolding write_at write_resolved
    write_at-Calm (refused reason detail) content ctx s = (tt, refl)
    write_at-Calm (resolved path) content ctx s =
        Calm-bind D (race fs ctx.after_resolve_before_open) _
          (race-Calm ctx.after_resolve_before_open)
          (λ _.
            Calm-call D (fs.mkdir_recursive (dirname path)) _
              (λ _. check_parent-Calm path content ctx.boundary))
          s

    pub write_file_execute-Calm :
        (input : Json) (ctx : ToolExecContext W) → Calm D (write_file_execute fs input ctx)
    unfolding write_file_execute
    write_file_execute-Calm input ctx s = elim (Option-cases (path_text (get input "path"))) [
      | inl missing ↦ rw (missing, write_file_execute) (tt, refl)
      | inr (path, given) ↦ rw (given, write_file_execute) (write_at-Calm _ _ _ _)
    ]
