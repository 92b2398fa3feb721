-- ===== src/Workspace/Contained.antt =====
-- What resolveWorkspace of runtime/src/gate/workspace.ts accepts.
use mathlib.Core.List.{reverse, reverse-cons, append_assoc}
use dream_team.Prelude.{
  String, ◌≡◌, ◌≢◌, refl, subst, ap, ◌∙◌, ◌⊎◌, inl, inr, true, false, List, [], ◌∷◌, ◌++◌, arith,
  str_eq, eq_iff, Bool-cases,
}
use dream_team.Paths.{relative, path_of, resolve}
use dream_team.Paths.Below.{segments, Below, relative-cases}
use dream_team.Gate.Types.{WorkspaceBoundary}
use dream_team.Effects.{JsError, Attempt, returns, throws}
use dream_team.Workspace.{
  Fs, resolved, is_contained, is_enoent, not_directory, reattach, probe, realpath_deepest_existing,
  resolve_workspace,
}

-- A path that the containment test accepts is the root or lies below it, segment by segment.
pub is_contained-Below :
    (child root : String) → is_contained child root ≡ true → Below (segments child) (segments root)
unfolding is_contained
is_contained-Below child root e = elim (relative-cases root child) [
  | inl below ↦ below
  | inr (inl out) ↦ cc (rw (out, is_contained) at e)
  | inr (inr out) ↦ elim (Bool-cases (str_eq (relative root child) "")) [
    | inl empty ↦ cc (rw ((eq_iff (relative root child) "").0 empty) at out)
    | inr other ↦ ground (arith, e, out, other)
  ]
]

module _ {W : Type 0} (fs : Fs W) where
  -- A path that is not there: the file system answered ENOENT when it was asked for it, or, where it
  -- went away in between, when it was asked for what it leads to.
  pub record IsGone (path : List String) : Type 0 where
    pub asked_in : W
    pub error : JsError
    pub absent : is_enoent error ≡ true
    pub answered :
        ((fs.realpath (path_of path) asked_in).0 ≡ throws error)
        ⊎ ((real : String) × (between : W) × (fs.realpath (path_of path) asked_in
              ≡ (returns real, between))
            × ((fs.is_directory real between).0 ≡ throws error))

  -- Each of the paths that lead from an ancestor down through the trailing segments is not there.
  abbrev pub AllGone : List String → List String → Type 0
  AllGone ancestor [] = Unit
  AllGone ancestor (s ∷ trailing) = IsGone (s ∷ ancestor) × AllGone (s ∷ ancestor) trailing

  -- The deepest ancestor of a lexical path that exists, as the file system names it, where each path
  -- below it is not there, and the path made of it: itself, or the segments that are missing put below
  -- it, a directory.
  pub record IsCanonical (lexical : List String) (p : String) : Type 0 where
    pub ancestor : List String
    pub trailing : List String
    pub split : reverse trailing ++ ancestor ≡ lexical
    pub deepest : AllGone ancestor trailing
    pub real : String
    pub before : W
    pub after : W
    pub real_ok : fs.realpath (path_of ancestor) before ≡ (returns real, after)
    pub whole : trailing ≡ [] → p ≡ real
    pub attached :
        trailing ≢ []
        → (p ≡ path_of (reverse trailing ++ resolve "/" real))
          × ((w : W) × (fs.is_directory real after ≡ (returns true, w)))

  pair-cases :
      {A : Type 0} (x : Attempt A × W)
      → ((a : A) × (w : W) × (x ≡ (returns a, w))) ⊎ ((e : JsError) × (w : W) × (x ≡ (throws e, w)))
  pair-cases (returns a, w) = inl (a, w, refl)
  pair-cases (throws e, w) = inr (e, w, refl)

  probe-IsCanonical :
      (current trailing : List String) (w : W) {p : String} {w' : W}
      → probe fs current trailing w ≡ (returns p, w')
      → AllGone current trailing
      → IsCanonical (reverse trailing ++ current) p
  unfolding probe reattach
  probe-IsCanonical current [] w e gone = elim (pair-cases (fs.realpath (path_of current) w)) [
    | inl (real, w₁, found) ↦ record {
      ancestor = current;
      trailing = [];
      split = refl;
      deepest = gone;
      real = real;
      before = w;
      after = w₁;
      real_ok = found;
      whole = λ _. cc (rw (found, probe) at e);
      attached = λ n. absurd (n refl);
    }
    | inr (x, w₁, lost) ↦ cc (rw (lost, probe) at e)
  ]
  probe-IsCanonical current (s ∷ trailing) w e gone =
      elim (pair-cases (fs.realpath (path_of current) w)) [
        | inr (x, w₁, lost) ↦ cc (rw (lost, probe) at e)
        | inl (real, w₁, found) ↦ elim (pair-cases (fs.is_directory real w₁)) [
          | inr (x, w₂, lost) ↦ cc (rw (lost, reattach) at (rw found at (rw (found, probe) at e)))
          | inl (false, w₂, file) ↦
              cc (rw (file, reattach) at (rw found at (rw (found, probe) at e)))
          | inl (true, w₂, directory) ↦ record {
            ancestor = current;
            trailing = s ∷ trailing;
            split = refl;
            deepest = gone;
            real = real;
            before = w;
            after = w₁;
            real_ok = found;
            whole = λ n. cc n;
            attached = λ _. (
              cc (rw (directory, reattach) at (rw found at (rw (found, probe) at e))),
              (w₂, directory),
            );
          }
        ]
      ]

  not_directory-enoent : (real : String) → is_enoent (not_directory real) ≡ false
  unfolding is_enoent not_directory
  not_directory-enoent real = refl

  reattach-IsGone :
      (current trailing : List String) (w : W) {real : String} {w₁ : W} {x : JsError} {w' : W}
      → fs.realpath (path_of current) w ≡ (returns real, w₁)
      → reattach fs trailing real w₁ ≡ (throws x, w')
      → is_enoent x ≡ true
      → IsGone current
  unfolding reattach
  reattach-IsGone current [] w found e absent = cc
  reattach-IsGone current (s ∷ trailing) w {real} {w₁} {x} {w'} found e absent =
      elim (pair-cases (fs.is_directory real w₁)) [
        | inl (true, w₂, directory) ↦ cc (rw (directory, reattach) at e)
        | inl (false, w₂, file) ↦
            let other : not_directory real ≡ x = cc (rw (file, reattach) at e) in
            cc (not_directory-enoent real, rw (← other) at absent)
        | inr (y, w₂, lost) ↦
            let same : x ≡ y = cc (rw (lost, reattach) at e) in
            record {
              asked_in = w;
              error = y;
              absent = subst (λ z. is_enoent z ≡ true) same absent;
              answered = inr (real, w₁, found, ap (λ r. r.0) lost);
            }
      ]

  probe-IsGone :
      (current trailing : List String) (w : W) {x : JsError} {w' : W}
      → probe fs current trailing w ≡ (throws x, w')
      → is_enoent x ≡ true
      → IsGone current
  unfolding probe reattach
  probe-IsGone current trailing w {x} {w'} e absent =
      elim (pair-cases (fs.realpath (path_of current) w)) [
        | inr (y, w₁, lost) ↦
            let same : x ≡ y = cc (rw (lost, probe) at e) in
            record {
              asked_in = w;
              error = y;
              absent = subst (λ z. is_enoent z ≡ true) same absent;
              answered = inl (ap (λ r. r.0) lost);
            }
        | inl (real, w₁, found) ↦
            reattach-IsGone current trailing w found (rw found at (rw (found, probe) at e)) absent
      ]

  realpath_deepest_existing-IsCanonical :
      (current trailing : List String) (w : W) {p : String} {w' : W}
      → realpath_deepest_existing fs current trailing w ≡ (returns p, w')
      → AllGone current trailing
      → IsCanonical (reverse trailing ++ current) p
  unfolding realpath_deepest_existing
  realpath_deepest_existing-IsCanonical [] trailing w e gone =
      probe-IsCanonical [] trailing w e gone
  realpath_deepest_existing-IsCanonical (s ∷ parent) trailing w {p} e below =
      elim (pair-cases (probe fs (s ∷ parent) trailing w)) [
        | inl (real, w₁, found) ↦
            let same : real ≡ p = cc (rw (found, realpath_deepest_existing) at e) in
            subst (IsCanonical (reverse trailing ++ s ∷ parent)) same
              (probe-IsCanonical (s ∷ parent) trailing w found below)
        | inr (x, w₁, lost) ↦ elim (Bool-cases (is_enoent x)) [
          | inr other ↦
              cc (
                rw (other, realpath_deepest_existing) at
                  (rw (lost, realpath_deepest_existing) at e))
          | inl gone ↦
              subst (λ l. IsCanonical l p)
                (ap (λ l. l ++ parent) (reverse-cons s trailing)
                  ∙ append_assoc (reverse trailing) (s ∷ []) parent)
                (realpath_deepest_existing-IsCanonical parent (s ∷ trailing) w₁
                  (rw lost at (
                    rw (gone, realpath_deepest_existing) at
                      (rw (lost, realpath_deepest_existing) at e)))
                  (probe-IsGone (s ∷ parent) trailing w lost gone, below))
        ]
      ]

  -- A path that resolves is what the file system makes of the requested one: the real path of its
  -- deepest ancestor that exists, where the file system has answered ENOENT for each path below
  -- that ancestor, with the missing segments below a directory, and it is the workspace root or
  -- lies below it, segment by segment.
  pub resolve_workspace-IsCanonical :
      (requested : String) (boundary : WorkspaceBoundary) (w : W) {p : String} {w' : W}
      → resolve_workspace fs requested boundary w ≡ (resolved p, w')
      → IsCanonical (resolve boundary.workspace_root requested) p
        × Below (segments p) (segments boundary.workspace_root)
  unfolding resolve_workspace
  resolve_workspace-IsCanonical requested boundary w {p} e =
      let root = boundary.workspace_root in
      elim (pair-cases (realpath_deepest_existing fs (resolve root requested) [] w)) [
        | inr (x, w₁, lost) ↦ cc (rw (lost, resolve_workspace) at e)
        | inl (real, w₁, found) ↦ elim (Bool-cases (is_contained real root)) [
          | inr out ↦ cc (rw (out, resolve_workspace) at (rw (found, resolve_workspace) at e))
          | inl inside ↦
              let same : real ≡ p =
                cc (rw (inside, resolve_workspace) at (rw (found, resolve_workspace) at e)) in
              subst
                (λ q. IsCanonical (resolve root requested) q × Below (segments q) (segments root))
                same
                (
                  realpath_deepest_existing-IsCanonical (resolve root requested) [] w found tt,
                  is_contained-Below real root inside,
                )
        ]
      ]
