-- ===== src/Gate/Chart.antt =====
-- The org chart and the grant matrix agree: checks of the whole tables, and what they show of every
-- role name.
use dream_team.Prelude.{
  String, ◌≡◌, ◌≢◌, refl, ap, Bool, true, false, not, ◌||◌, ◌&&◌, inl, inr, none, some, List, arith,
  str_eq, eq_iff, includes, all, is_some, Option-cases,
}
use dream_team.Gate.Objects.{lookup, index, has_own, prototype_names, lookup-all, includes-all}
use dream_team.Gate.Types.{RoleGrant, tier_of, cap_eq, spawn}
use dream_team.Gate.Grants.{matrix, role_grant}
use dream_team.Gate.Org.{routing, is_dispatcher, may_route}

abbrev bool_eq : Bool → Bool → Bool
bool_eq true b = b
bool_eq false b = not b

dispatcher_row : String → RoleGrant → Bool
dispatcher_row role g = bool_eq (is_dispatcher role) (is_some (tier_of g spawn))

dispatcher_table : all (λ e. dispatcher_row e.0 e.1) matrix ≡ true
unfolding dispatcher_row matrix is_dispatcher has_own lookup routing tier_of cap_eq
dispatcher_table = refl

prototype_table : all (λ s. not (is_dispatcher s)) prototype_names ≡ true
unfolding prototype_names is_dispatcher has_own lookup routing
prototype_table = refl

-- A role that has a grant is a dispatcher of the org chart exactly when the grant holds SPAWN.
pub is_dispatcher-eq-is_some_spawn :
    (role : String) (g : RoleGrant)
    → role_grant role ≡ some g
    → is_dispatcher role ≡ is_some (tier_of g spawn)
unfolding role_grant index tier_of dispatcher_row
is_dispatcher-eq-is_some_spawn role g e = elim (Option-cases (lookup matrix role)) [
  | inl absent ↦
      ground (arith, includes-all (λ s. not (is_dispatcher s)) prototype_names role prototype_table)
  | inr (h, found) ↦ ground (arith, lookup-all dispatcher_row matrix role dispatcher_table found)
]

charted_row : String → List String → Bool
charted_row spawner allowed = has_own matrix spawner && all (has_own matrix) allowed

charted_table : all (λ e. charted_row e.0 e.1) routing ≡ true
unfolding charted_row routing matrix has_own lookup
charted_table = refl

has_own-role_grant :
    (role : String) → has_own matrix role ≡ true → (g : RoleGrant) × (role_grant role ≡ some g)
unfolding has_own role_grant index
has_own-role_grant role e = elim (Option-cases (lookup matrix role)) [
  | inl absent ↦ absurd (let e₁ = rw (absent, has_own) at e in cc)
  | inr (g, found) ↦ (g, rw (found, role_grant) refl)
]

no_edge :
    (spawner child : String) → lookup routing spawner ≡ none → may_route spawner child ≢ some true
unfolding may_route index
no_edge spawner child absent = ground arith

-- What an edge of the chart is.
edge :
    (spawner child : String)
    → may_route spawner child ≡ some true
    → (allowed : List String) × (lookup routing spawner ≡ some allowed)
      × (includes allowed child ≡ true)
unfolding may_route index
edge spawner child e = elim (Option-cases (lookup routing spawner)) [
  | inl absent ↦ absurd (no_edge spawner child absent e)
  | inr (allowed, found) ↦ (allowed, found, ground arith)
]

-- No other row holds the child.
sole_parent : String → String → String → List String → Bool
sole_parent spawner child other allowed = not (includes allowed child) || str_eq spawner other

sole_parent_row : String → List String → Bool
sole_parent_row spawner allowed =
    all (λ child. all (λ e. sole_parent spawner child e.0 e.1) routing) allowed

sole_parent_table : all (λ e. sole_parent_row e.0 e.1) routing ≡ true
unfolding sole_parent_row sole_parent routing includes
sole_parent_table = refl

-- Each role has at most one dispatcher that may instantiate it.
pub may_route_unique :
    (spawner other child : String)
    → may_route spawner child ≡ some true
    → may_route other child ≡ some true
    → spawner ≡ other
unfolding sole_parent_row sole_parent
may_route_unique spawner other child e f =
    let (allowed, found, listed) = edge spawner child e in
    let (allowed', found', listed') = edge other child f in
    let row = lookup-all sole_parent_row routing spawner sole_parent_table found in
    let at_child =
      includes-all (λ c. all (λ r. sole_parent spawner c r.0 r.1) routing) allowed child row
        listed in
    let at_other = lookup-all (sole_parent spawner child) routing other at_child found' in
    ground (arith, eq_iff spawner other)

-- A dispatcher below another one is a coordinator, and a dispatcher below that there is none.
second_level : String → String → Bool
second_level spawner child = not (is_dispatcher child) || str_eq spawner "central-orchestrator"

second_level_row : String → List String → Bool
second_level_row spawner allowed = all (second_level spawner) allowed

second_level_table : all (λ e. second_level_row e.0 e.1) routing ≡ true
unfolding second_level_row second_level routing is_dispatcher has_own lookup
second_level_table = refl

abbrev pub orchestrator : String
orchestrator = "central-orchestrator"

root_has_no_parent : all (λ e. not (includes e.1 orchestrator)) routing ≡ true
unfolding routing includes
root_has_no_parent = refl

edge-is_dispatcher :
    (spawner child : String) → may_route spawner child ≡ some true → is_dispatcher spawner ≡ true
unfolding is_dispatcher has_own
edge-is_dispatcher spawner child e =
    let (allowed, found, listed) = edge spawner child e in ground arith

edge-second_level :
    (spawner child : String)
    → may_route spawner child ≡ some true
    → second_level spawner child ≡ true
unfolding second_level_row
edge-second_level spawner child e =
    let (allowed, found, listed) = edge spawner child e in
    includes-all (second_level spawner) allowed child
      (lookup-all second_level_row routing spawner second_level_table found) listed

edge-ne-orchestrator :
    (spawner child : String) → may_route spawner child ≡ some true → child ≢ orchestrator
edge-ne-orchestrator spawner child e same =
    let (allowed, found, listed) = edge spawner child e in
    let apart =
      lookup-all (λ _ row. not (includes row orchestrator)) routing spawner root_has_no_parent
        found in
    let there : includes allowed orchestrator ≡ true = rw same at listed in
    cc (there, ap not there, apart)

-- Delegation along the chart goes two steps at most: where a role may route to a second and that one
-- to a third, the first is the central orchestrator and the third routes to nobody.
pub may_route_two_steps :
    (a b c : String)
    → may_route a b ≡ some true
    → may_route b c ≡ some true
    → (a ≡ orchestrator) × (is_dispatcher c ≡ false) × ((d : String) → may_route c d ≢ some true)
unfolding second_level
may_route_two_steps a b c e f =
    let routes = edge-is_dispatcher b c f in
    let leaf : is_dispatcher c ≡ false =
      ground (arith, edge-second_level b c f, eq_iff b orchestrator, edge-ne-orchestrator a b e) in
    (
      ground (arith, edge-second_level a b e, eq_iff a orchestrator),
      leaf,
      λ d g. cc (leaf, edge-is_dispatcher c d g),
    )

-- Both ends of each edge of the org chart have a grant: a dispatcher's own, and one for every role
-- that it may instantiate.
pub may_route-role_grant :
    (spawner child : String)
    → may_route spawner child ≡ some true
    → ((g : RoleGrant) × (role_grant spawner ≡ some g))
      × ((g : RoleGrant) × (role_grant child ≡ some g))
unfolding charted_row
may_route-role_grant spawner child e =
    let (allowed, found, listed) = edge spawner child e in
    let row = lookup-all charted_row routing spawner charted_table found in
    (
      has_own-role_grant spawner (ground arith),
      has_own-role_grant child (includes-all (has_own matrix) allowed child (ground arith) listed),
    )
