-- ===== src/Paths/Below.antt =====
-- What `relative` and the containment test of runtime/src/gate/workspace.ts make of the segments of two
-- paths.
use mathlib.Core.List.{reverse}
use text.Mathlib.Text.{starts_with}
use text.Mathlib.TextPositions.{starts_with-append}
use text.Mathlib.TextLemmas.{append_assoc}
use dream_team.Prelude.{
  String, ◌≡◌, refl, sym, subst, ◌⊎◌, inl, inr, true, List, [], ◌∷◌, ◌++◌, join, concat, str_eq,
  eq_iff, Bool-cases,
}
use dream_team.Paths.{walk, relative, up, relative_segments}

-- The segments of an absolute path, from the root.
unfoldable pub segments : String → List String
segments path = reverse (walk [] path)

-- The path is the root, or lies below it.
abbrev pub Below : List String → List String → Type 0
Below child root = (rest : List String) × (child ≡ root ++ rest)

-- A relative path that climbs out.
abbrev Climbs : List String → Type 0
Climbs rel = (rest : List String) × (rel ≡ ".." ∷ rest)

relative_segments-cases :
    (root child : List String) → Below child root ⊎ Climbs (relative_segments root child)
unfolding relative_segments up
relative_segments-cases [] child = inl (child, refl)
relative_segments-cases (s ∷ root) [] = inr (up root, refl)
relative_segments-cases (s ∷ root) (t ∷ child) = elim (Bool-cases (str_eq s t)) [
  | inr other ↦ rw (other, relative_segments) (inr (up root ++ t ∷ child, refl))
  | inl same ↦ elim (relative_segments-cases root child) [
    | inl (rest, e) ↦ inl (rest, cc (e, (eq_iff s t).0 same))
    | inr (rest, e) ↦ rw (same, relative_segments) (inr (rest, e))
  ]
]

-- The text of a path that climbs out.
climbing :
    (rest : List String)
    → (join "/" (".." ∷ rest) ≡ "..") ⊎ (starts_with (join "/" (".." ∷ rest)) "../" ≡ true)
climbing [] = inl refl
climbing (r ∷ rest) =
    let below = concat (join "/" (r ∷ rest) ∷ []) in
    inr (
      subst (λ p. starts_with p "../" ≡ true) (append_assoc ".." "/" below)
        (starts_with-append "../" below))

pub relative-cases :
    (root child : String)
    → Below (segments child) (segments root)
      ⊎ ((relative root child ≡ "..") ⊎ (starts_with (relative root child) "../" ≡ true))
unfolding relative segments
relative-cases root child = elim (relative_segments-cases (segments root) (segments child)) [
  | inl below ↦ inl below
  | inr (rest, e) ↦ inr (
      subst (λ l. (join "/" l ≡ "..") ⊎ (starts_with (join "/" l) "../" ≡ true)) (sym e)
        (climbing rest))
]
