-- ===== src/Tests/GateTests.antt =====
-- runtime/src/gate at concrete inputs.
use dream_team.Prelude.{◌≡◌, ◌≢◌, refl, true, false, none, some, [], ◌∷◌, ◌↔◌, String, includes}
use dream_team.Gate.Types.{
  Tier, w, t1, t2, t3, RoleGrant, tier_of, cap_eq, has_standing, approval_key, GateAction,
  GateContext, WorkspaceBoundary,
}
use dream_team.Gate.Objects.{lookup, index}
use dream_team.Gate.Decide.{gate, decide_tier, stricter_tier, is_path_bearing}
use dream_team.Gate.Grants.{matrix, role_grant}
use dream_team.Gate.Intersect.{intersect_grants, narrow_from, narrow, put}
use dream_team.Gate.Org.{routing, is_dispatcher, may_route}
use dream_team.Gate.Policy.{
  IsPermit, IsHard, IsScope, Approved, Either, IsAllowed, HasPath, gate-IsPermit_iff, gate_refusals,
}
use dream_team.Gate.Narrowing.{
  meet, with_grant, tier_of-intersect_grants, gate-intersect_grants, gate-intersect_grants_widens,
}
use dream_team.Gate.Chart.{
  orchestrator, may_route-role_grant, is_dispatcher-eq-is_some_spawn, may_route_unique,
  may_route_two_steps,
}
use dream_team.Prelude.{is_some}
use dream_team.Gate.Types.{spawn}

abbrev boundary : WorkspaceBoundary
boundary = record { workspace_root = "/ws"; read_allowlist = [] }

abbrev write_now : GateAction
write_now = record { capability = w; resolved_path = some "/ws/a"; action_tier = t3 }

-- A write with no resolved path.
abbrev write_nowhere : GateAction
write_nowhere = record { capability = w; resolved_path = none; action_tier = t3 }

abbrev strict : RoleGrant
strict = (w, t1) ∷ []

abbrev soft : RoleGrant
soft = (w, t2) ∷ []

abbrev context : GateContext
context = record {
  role = "code-developer";
  grant = soft;
  approvals = record { standing = w ∷ []; per_action = "W:*" ∷ "W:/ws/a" ∷ [] };
  boundary = boundary;
}

gate-IsPermit_iff_example : IsPermit (gate write_now context) ↔ IsAllowed write_now context
gate-IsPermit_iff_example = gate-IsPermit_iff write_now context

gate_refusals_example :
    (IsScope (gate write_nowhere context) ↔ (tier_of soft w ≡ none))
    × (IsHard (gate write_nowhere context) ↔ (
        (granted : Tier) × (tier_of soft w ≡ some granted)
        × Either t1 t3 granted
        × (¬ (Approved write_nowhere context))))
gate_refusals_example = gate_refusals write_nowhere context

tier_of-intersect_grants_example :
    tier_of (intersect_grants soft strict) w ≡ meet (tier_of soft w) (tier_of strict w)
tier_of-intersect_grants_example = tier_of-intersect_grants soft strict w

with_path : HasPath write_now
with_path _ = λ e. cc e

permitted : IsPermit (gate write_now (with_grant context (intersect_grants soft strict)))
unfolding gate decide_tier stricter_tier tier_of cap_eq intersect_grants narrow_from narrow put
    has_standing approval_key includes
permitted = tt

gate-intersect_grants_example :
    IsPermit (gate write_now (with_grant context soft))
    × IsPermit (gate write_now (with_grant context strict))
gate-intersect_grants_example =
    gate-intersect_grants write_now context soft strict with_path permitted

bears : is_path_bearing w ≡ true
unfolding is_path_bearing
bears = refl

held : (tier_of soft w ≡ some t2) × (tier_of strict w ≡ some t1)
unfolding tier_of cap_eq
held = (refl, refl)

approved : Approved write_nowhere context
unfolding has_standing cap_eq approval_key includes
approved = (refl, refl)

t3_t1 : t3 ≢ t1
t3_t1 = λ e. cc e

gate-intersect_grants_widens_example :
    IsPermit (gate write_nowhere (with_grant context (intersect_grants soft strict)))
    × (¬ (IsPermit (gate write_nowhere (with_grant context soft))))
gate-intersect_grants_widens_example =
    gate-intersect_grants_widens write_nowhere context soft strict bears refl t3_t1 held.0 held.1
      approved

architect_grant : (g : RoleGrant) × (role_grant "build-coordinator" ≡ some g)
unfolding role_grant index lookup matrix
architect_grant = (_, refl)

is_dispatcher-eq-is_some_spawn_example :
    is_dispatcher "build-coordinator" ≡ is_some (tier_of architect_grant.0 spawn)
is_dispatcher-eq-is_some_spawn_example =
    is_dispatcher-eq-is_some_spawn "build-coordinator" architect_grant.0 architect_grant.1

abbrev builder : String
builder = "build-coordinator"

down : may_route orchestrator "build-coordinator" ≡ some true
unfolding may_route index lookup routing includes
down = refl

further : may_route "build-coordinator" "architect" ≡ some true
unfolding may_route index lookup routing includes
further = refl

may_route_unique_example : builder ≡ builder
may_route_unique_example = may_route_unique builder builder "architect" further further

may_route_two_steps_example :
    (orchestrator ≡ orchestrator)
    × (is_dispatcher "architect" ≡ false)
    × ((d : String) → may_route "architect" d ≢ some true)
may_route_two_steps_example =
    may_route_two_steps orchestrator "build-coordinator" "architect" down further

may_route-role_grant_example :
    ((g : RoleGrant) × (role_grant builder ≡ some g))
    × ((g : RoleGrant) × (role_grant "architect" ≡ some g))
may_route-role_grant_example = may_route-role_grant builder "architect" further
