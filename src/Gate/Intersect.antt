-- ===== src/Gate/Intersect.antt =====
-- runtime/src/gate/intersect.ts: the grant of a spawned agent.
use dream_team.Prelude.{none, some, List, [], ◌∷◌, if◌then◌else◌}
use dream_team.Gate.Types.{Tier, Capability, cap_eq, RoleGrant, tier_of}
use dream_team.Gate.Decide.{stricter_tier}

-- `child[cap] = tier`
unfoldable pub put : RoleGrant → Capability → Tier → RoleGrant
put [] c t = (c, t) ∷ []
put ((k, u) ∷ g) c t = let rest = put g c t in if cap_eq k c then (k, t) ∷ g else (k, u) ∷ rest

-- `Object.keys(grant)`
abbrev pub keys : RoleGrant → List Capability
keys [] = []
keys ((k, u) ∷ g) = k ∷ keys g

-- One round of the loop over the requested capabilities.
unfoldable pub narrow : RoleGrant → RoleGrant → Capability → RoleGrant → RoleGrant
narrow parent requested cap child = elim (tier_of requested cap) [
  | none ↦ child
  | some req_tier ↦ elim (tier_of parent cap) [
    | none ↦ child
    | some parent_tier ↦ put child cap (stricter_tier parent_tier req_tier)
  ]
]

unfoldable pub narrow_from : RoleGrant → RoleGrant → List Capability → RoleGrant → RoleGrant
narrow_from parent requested [] child = child
narrow_from parent requested (cap ∷ caps) child =
    narrow_from parent requested caps (narrow parent requested cap child)

unfoldable pub intersect_grants : RoleGrant → RoleGrant → RoleGrant
unfolding narrow_from narrow
intersect_grants parent requested = narrow_from parent requested (keys requested) []
