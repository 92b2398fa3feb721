-- ===== src/Tools/WriteFile/OpenOnce.antt =====
-- When the write_file tool of runtime/src/tools/write-file.ts writes.
use dream_team.Prelude.{
  String, ◌≡◌, ◌≢◌, refl, sym, subst, ◌⊎◌, inl, inr, true, false, Option, none, some, Bool-cases,
  Option-cases,
}
use dream_team.Json.{Json, get}
use dream_team.Gate.Types.{WorkspaceBoundary}
use dream_team.Paths.{dirname}
use dream_team.Workspace.{Fs, Resolution, resolved, refused, is_contained, resolve_workspace}
use dream_team.Effects.Outcome.{attempt-cases}
use dream_team.Effects.{
  Attempt, returns, Result, ok, err, Session, M, resume, attempt, call, pure, ◌>>=◌, ◌>>◌,
}
use dream_team.Tools.Types.{ToolExecContext, ToolObservation}
use dream_team.Tools.WriteFile.{
  check_link, check_opened, write_through, write_checked, with_handle, open_once, check_parent,
  path_text, race, write_resolved, write_at, write_file_execute, content_of,
}

-- A result that claims no success.
abbrev pub NotOk : Result ToolObservation → Type 0
NotOk (ok obs) = obs.ok ≡ false
NotOk (err e) = Unit

module _ {W : Type 0} (fs : Fs W) (ctx : ToolExecContext W) where
  -- The calls of a run of the tool other than the write: those of the resolution, which come first and
  -- are read-only, the race window of the tests, and the calls that look, create the parent, open and
  -- close.
  pub data IsCheck : (W → W) → Type 0 where
    resolving : (p : String) → IsCheck (λ w. (resolve_workspace fs p ctx.boundary w).1)
    racing :
        (hook : W → Attempt (Unit {0}) × W)
        → ctx.after_resolve_before_open ≡ some hook
        → IsCheck (λ w. (hook w).1)
    realpath : (p : String) → IsCheck (λ w. (fs.realpath p w).1)
    mkdir : (p : String) → IsCheck (λ w. (fs.mkdir_recursive p w).1)
    opening : (p : String) → IsCheck (λ w. (fs.open_no_follow p w).1)
    linking : (p : String) → IsCheck (λ w. (fs.is_symbolic_link p w).1)
    closing : IsCheck (λ w. (fs.close_handle w).1)

  -- From one world to the other without a write.
  pub data Unwritten (w₀ : W) : W → Type 0 where
    start : Unwritten w₀ w₀
    next : {w : W} (f : W → W) → IsCheck f → Unwritten w₀ w → Unwritten w₀ (f w)

module _ {W : Type 0} (fs : Fs W) (path : String) (content : Json)
    (boundary : WorkspaceBoundary) where
  -- Every check before the write passed, in this order: the parent's real path is inside the workspace,
  -- the open refused to follow a link, the opened file's real path is inside, and it is no link.
  pub record IsChecked (w₁ w₂ : W) : Type 0 where
    pub parent : String
    pub parent_found : (fs.realpath (dirname path) w₁).0 ≡ returns parent
    pub parent_inside : is_contained parent boundary.workspace_root ≡ true
    pub opening : W
    pub opening_after : opening ≡ (fs.realpath (dirname path) w₁).1
    pub opened : (fs.open_no_follow path opening).0 ≡ returns tt
    pub checking : W
    pub checking_after : checking ≡ (fs.open_no_follow path opening).1
    pub target : String
    pub target_found : (fs.realpath path checking).0 ≡ returns target
    pub target_inside : is_contained target boundary.workspace_root ≡ true
    pub no_link : (fs.is_symbolic_link path (fs.realpath path checking).1).0 ≡ returns false
    pub last : w₂ ≡ (fs.is_symbolic_link path (fs.realpath path checking).1).1

  -- The content was handed to the handle once, after every check, and the handle closed after it;
  -- success is claimed only where the handle took it.
  pub record IsWritten (w₁ : W) (r : Result ToolObservation) (w' : W) : Type 0 where
    pub before : W
    pub checked : IsChecked w₁ before
    pub closed : w' ≡ (fs.close_handle (fs.write_handle content before).1).1
    pub taken : ¬ (NotOk r) → (fs.write_handle content before).0 ≡ returns tt

  write_through-run :
      (s : Session W)
      → (obs : ToolObservation) × (write_through fs path content boundary s
          ≡ (ok obs, record s { world = (fs.write_handle content s.world).1 }))
        × (obs.ok ≢ false → (fs.write_handle content s.world).0 ≡ returns tt)
  unfolding write_through
  write_through-run s = elim (attempt-cases (fs.write_handle content s.world).0) [
    | inl (_, e) ↦ rw e (_, refl, λ _. refl)
    | inr (x, e) ↦ rw e (_, refl, λ n. absurd (n refl))
  ]

  abbrev RefusedOr : (W → Type 0) → (W → Type 0) → Result (Option String) × Session W → Type 0
  RefusedOr P Q (ok none, s') = Q s'.world
  RefusedOr P Q (ok (some d), s') = P s'.world
  RefusedOr P Q (err e, s') = ⊥

  module _ (ctx : ToolExecContext W) (w₀ : W) where
    abbrev Outcome : Result ToolObservation × Session W → Type 0
    Outcome x =
        (Unwritten fs ctx w₀ x.1.world × NotOk x.0)
        ⊎ ((w₁ : W) × Unwritten fs ctx w₀ w₁ × IsWritten w₁ x.0 x.1.world)

    -- What the checks on the opened file leave where they pass.
    pub record Passed (w w' : W) : Type 0 where
      pub target : String
      pub found : (fs.realpath path w).0 ≡ returns target
      pub inside : is_contained target boundary.workspace_root ≡ true
      pub no_link : (fs.is_symbolic_link path (fs.realpath path w).1).0 ≡ returns false
      pub last : w' ≡ (fs.is_symbolic_link path (fs.realpath path w).1).1

    check_link-cases :
        (s : Session W)
        → Unwritten fs ctx w₀ s.world
        → RefusedOr
            (Unwritten fs ctx w₀)
            (λ w'.
              ((fs.is_symbolic_link path s.world).0 ≡ returns false)
              × (w' ≡ (fs.is_symbolic_link path s.world).1))
            (check_link fs path s)
    unfolding check_link
    check_link-cases s u = elim (attempt-cases (fs.is_symbolic_link path s.world).0) [
      | inr (x, e) ↦ rw e (next _ (linking path) u)
      | inl (true, e) ↦ rw e (next _ (linking path) u)
      | inl (false, e) ↦ rw e (e, refl)
    ]

    RefusedOr-mono :
        (Q Q' : W → Type 0) (x : Result (Option String) × Session W)
        → RefusedOr (Unwritten fs ctx w₀) Q x
        → ((w : W) → Q w → Q' w)
        → RefusedOr (Unwritten fs ctx w₀) Q' x
    RefusedOr-mono Q Q' (ok none, s') q k = k s'.world q
    RefusedOr-mono Q Q' (ok (some d), s') q k = q
    RefusedOr-mono Q Q' (err e, s') q k = absurd q

    check_opened-cases :
        (s : Session W)
        → Unwritten fs ctx w₀ s.world
        → RefusedOr (Unwritten fs ctx w₀) (Passed s.world) (check_opened fs path boundary s)
    unfolding check_opened
    check_opened-cases s u = elim (attempt-cases (fs.realpath path s.world).0) [
      | inr (x, e) ↦ rw e (next _ (realpath path) u)
      | inl (target, e) ↦ elim (Bool-cases (is_contained target boundary.workspace_root)) [
        | inr out ↦ rw (e, check_opened) (rw (out, check_opened) (next _ (realpath path) u))
        | inl inside ↦
            let s' : Session W = record s { world = (fs.realpath path s.world).1 } in
            rw (e, check_opened)
              (rw (inside, check_opened)
                (RefusedOr-mono _ (Passed s.world) (check_link fs path s')
                  (check_link-cases s' (next _ (realpath path) u))
                  (λ w h. record {
                    target = target;
                    found = e;
                    inside = inside;
                    no_link = h.0;
                    last = h.1;
                  })))
      ]
    ]

    -- The rest of a run once the checks on the opened file have answered.
    abbrev close_after : Option String → M W ToolObservation
    close_after bad = do
      obs ← write_checked fs path content boundary bad
      attempt fs.close_handle
      pure obs

    close_after-Outcome :
        (w₁ : W)
        → Unwritten fs ctx w₀ w₁
        → (x : Result (Option String) × Session W)
        → RefusedOr (Unwritten fs ctx w₀) (IsChecked w₁) x
        → Outcome (resume x.0 close_after x.1)
    unfolding write_checked
    close_after-Outcome w₁ u (ok none, s') c =
        let (obs, run, taken) = write_through-run s' in
        rw (run, write_checked)
          (inr (w₁, u, record { before = s'.world; checked = c; closed = refl; taken = taken }))
    close_after-Outcome w₁ u (ok (some d), s') c = inl (next _ closing c, refl)
    close_after-Outcome w₁ u (err e, s') c = absurd c

    open_once-Outcome :
        (w₁ : W) (s : Session W) (parent : String)
        → Unwritten fs ctx w₀ w₁
        → (fs.realpath (dirname path) w₁).0 ≡ returns parent
        → is_contained parent boundary.workspace_root ≡ true
        → s.world ≡ (fs.realpath (dirname path) w₁).1
        → Outcome (open_once fs path content boundary s)
    unfolding open_once with_handle
    open_once-Outcome w₁ s parent u found inside after =
        let u' : Unwritten fs ctx w₀ s.world =
          subst (Unwritten fs ctx w₀) (sym after) (next _ (realpath (dirname path)) u) in
        elim (attempt-cases (fs.open_no_follow path s.world).0) [
          | inr (x, e) ↦ rw e (inl (next _ (opening path) u', refl))
          | inl (_, e) ↦
              let s' : Session W = record s { world = (fs.open_no_follow path s.world).1 } in
              rw e (
                close_after-Outcome w₁ u (check_opened fs path boundary s') (
                  RefusedOr-mono (Passed s'.world) (IsChecked w₁) (check_opened fs path boundary s')
                    (check_opened-cases s' (next _ (opening path) u'))
                    (λ w h. record {
                      parent = parent;
                      parent_found = found;
                      parent_inside = inside;
                      opening = s.world;
                      opening_after = after;
                      opened = e;
                      checking = s'.world;
                      checking_after = refl;
                      target = h.target;
                      target_found = h.found;
                      target_inside = h.inside;
                      no_link = h.no_link;
                      last = h.last;
                    })))
        ]

    check_parent-Outcome :
        (s : Session W)
        → Unwritten fs ctx w₀ s.world
        → Outcome (check_parent fs path content boundary s)
    unfolding check_parent
    check_parent-Outcome s u = elim (attempt-cases (fs.realpath (dirname path) s.world).0) [
      | inr (x, e) ↦ rw e (inl (next _ (realpath (dirname path)) u, refl))
      | inl (parent, e) ↦ elim (Bool-cases (is_contained parent boundary.workspace_root)) [
        | inr out ↦
            rw (e, check_parent)
              (rw (out, check_parent) (inl (next _ (realpath (dirname path)) u, refl)))
        | inl inside ↦
            rw (e, check_parent)
              (rw (inside, check_parent)
                (open_once-Outcome s.world
                  (record s { world = (fs.realpath (dirname path) s.world).1 }) parent u e inside
                  refl))
      ]
    ]

module _ {W : Type 0} (fs : Fs W) where
  mkdir-Outcome :
      (ctx : ToolExecContext W) (path : String) (content : Json) (w₀ : W) (s : Session W)
      → Unwritten fs ctx w₀ s.world
      → Outcome fs path content ctx.boundary ctx w₀ (
          (call (fs.mkdir_recursive (dirname path)) >> check_parent fs path content ctx.boundary) s)
  mkdir-Outcome ctx path content w₀ s u =
      elim (attempt-cases (fs.mkdir_recursive (dirname path) s.world).0) [
        | inr (x, e) ↦ rw e (inl (next _ (mkdir (dirname path)) u, tt))
        | inl (_, e) ↦
            let s' : Session W = record s {
              world = (fs.mkdir_recursive (dirname path) s.world).1;
            } in
            rw e (
              check_parent-Outcome fs path content ctx.boundary ctx w₀ s'
                (next _ (mkdir (dirname path)) u))
      ]

  race-Outcome :
      (ctx : ToolExecContext W) (path : String) (content : Json) (w₀ : W) (s : Session W)
      (o : Option (W → Attempt (Unit {0}) × W))
      → ctx.after_resolve_before_open ≡ o
      → Unwritten fs ctx w₀ s.world
      → Outcome fs path content ctx.boundary ctx w₀ (
          (race fs o
              >> (call (fs.mkdir_recursive (dirname path))
                  >> check_parent fs path content ctx.boundary))
            s)
  unfolding race
  race-Outcome ctx path content w₀ s none there u = mkdir-Outcome ctx path content w₀ s u
  race-Outcome ctx path content w₀ s (some hook) there u = elim (attempt-cases (hook s.world).0) [
    | inr (x, e) ↦ rw e (inl (next _ (racing hook there) u, tt))
    | inl (_, e) ↦ rw e (
        mkdir-Outcome ctx path content w₀ (record s { world = (hook s.world).1 })
          (next _ (racing hook there) u))
  ]

  write_resolved-Outcome :
      (ctx : ToolExecContext W) (path : String) (content : Json) (w₀ : W) (s : Session W)
      → Unwritten fs ctx w₀ s.world
      → Outcome fs path content ctx.boundary ctx w₀ (write_resolved fs path content ctx s)
  unfolding write_resolved
  write_resolved-Outcome ctx path content w₀ s u = race-Outcome ctx path content w₀ s _ refl u

  -- The write of the tool, for the path that the request resolves to.
  abbrev pub Writes :
      Json → ToolExecContext W → Session W → Result ToolObservation × Session W → Type 0
  Writes input ctx s x =
      (requested : String) × (path : String) × (path_text (get input "path") ≡ some requested)
      × ((resolve_workspace fs requested ctx.boundary s.world).0 ≡ resolved path)
      × ((w₁ : W) × Unwritten fs ctx s.world w₁
          × IsWritten fs path (content_of input) ctx.boundary w₁ x.0 x.1.world)

  write_at-Writes :
      (input : Json) (ctx : ToolExecContext W) (s : Session W) (requested : String)
      → path_text (get input "path") ≡ some requested
      → (found : Resolution) → (resolve_workspace fs requested ctx.boundary s.world).0 ≡ found
      → (s' : Session W) → Unwritten fs ctx s.world s'.world
      → let x = write_at fs found (content_of input) ctx s' in
        (Unwritten fs ctx s.world x.1.world × NotOk x.0) ⊎ Writes input ctx s x
  unfolding write_at
  write_at-Writes input ctx s requested given (refused reason detail) e s' u = inl (u, refl)
  write_at-Writes input ctx s requested given (resolved path) e s' u =
      elim (write_resolved-Outcome ctx path (content_of input) s.world s' u) [
        | inl un ↦ inl un
        | inr (w₁, before, written) ↦ inr (requested, path, given, e, (w₁, before, written))
      ]

  -- Whatever path, content and file system, a run of write_file either makes no write, and claims no
  -- success, or it hands the content to the handle once, for the path that the request resolves to,
  -- after these checks in a row: the parent's real path is inside the workspace, the open did not follow
  -- a link, the opened file's real path is inside the workspace, and it is no link; then the handle is
  -- closed, and success is claimed only where the handle took the content.
  pub write_file_execute-Writes :
      (input : Json) (ctx : ToolExecContext W) (s : Session W)
      → (Unwritten fs ctx s.world (write_file_execute fs input ctx s).1.world
          × NotOk (write_file_execute fs input ctx s).0)
        ⊎ Writes input ctx s (write_file_execute fs input ctx s)
  unfolding write_file_execute
  write_file_execute-Writes input ctx s = elim (Option-cases (path_text (get input "path"))) [
    | inr (requested, given) ↦
        let s' : Session W = record s {
          world = (resolve_workspace fs requested ctx.boundary s.world).1;
        } in
        let run : write_file_execute fs input ctx s
            ≡ write_at fs (resolve_workspace fs requested ctx.boundary s.world).0 (content_of input)
                ctx s' =
          rw (given, write_file_execute) refl in
        subst (λ x. (Unwritten fs ctx s.world x.1.world × NotOk x.0) ⊎ Writes input ctx s x)
          (sym run)
          (write_at-Writes input ctx s requested given _ refl s'
            (next _ (resolving requested) start))
    | inl missing ↦ rw (missing, write_file_execute) (inl (start, tt))
  ]
