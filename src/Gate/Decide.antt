-- ===== src/Gate/Decide.antt =====
-- runtime/src/gate/gate.ts: the tier × grant × approval decision.
use dream_team.Prelude.{
  ℕ, String, Bool, true, false, Option, none, some, leb, if◌then◌else◌, concat, includes, ◌&&◌, [],
  ◌∷◌,
}
use dream_team.Gate.Types.{
  Tier, t0, t1, t2, t3, Capability, r, w, del, capability_name, GateAction, GateContext,
  GateDecision, permit, blocked_with_path, blocked_hard, blocked_scope, tier_of, has_standing,
  approval_key,
}

abbrev pub tier_rank : Tier → ℕ
tier_rank t0 = 0
tier_rank t3 = 1
tier_rank t2 = 2
tier_rank t1 = 3

unfoldable pub stricter_tier : Tier → Tier → Tier
stricter_tier a b = if leb (tier_rank b) (tier_rank a) then a else b

unfoldable pub is_path_bearing : Capability → Bool
is_path_bearing w = true
is_path_bearing del = true
is_path_bearing r = true
is_path_bearing _ = false

abbrev pub is_null {ℓ} : {A : Type ℓ} → Option A → Bool
is_null none = true
is_null (some a) = false

unfoldable pub missing_path : Capability → String
missing_path c = concat (
    capability_name c
    ∷ " at T2 requires a workspace-resolved target path; "
    ∷ "request scope inside the assigned workspace path"
    ∷ [])

-- The `switch` on the effective tier.
unfoldable pub decide_tier : Tier → GateAction → GateContext → GateDecision
decide_tier t0 action ctx = permit t0
decide_tier t3 action ctx = permit t3
decide_tier t2 action ctx =
    if is_null action.resolved_path && is_path_bearing action.capability
    then blocked_with_path (missing_path action.capability)
    else permit t2
decide_tier t1 action ctx =
    let has_grant = has_standing ctx.approvals.standing action.capability in
    let has_approval =
      includes ctx.approvals.per_action (approval_key action.capability action.resolved_path) in
    if has_grant && has_approval
    then permit t1
    else blocked_hard (
        concat (
          capability_name action.capability
          ∷ " requires human approval for this action class: "
          ∷ (if has_grant
              then "no per-action human approval"
              else "no standing grant (operator has not enabled this capability for the run)")
          ∷ []))

unfoldable pub gate : GateAction → GateContext → GateDecision
unfolding decide_tier missing_path
gate action ctx = elim (tier_of ctx.grant action.capability) [
  | none ↦ blocked_scope (
      concat (
        "capability "
        ∷ capability_name action.capability
        ∷ " is not in the grant for role "
        ∷ ctx.role
        ∷ []))
  | some granted ↦ decide_tier (stricter_tier action.action_tier granted) action ctx
]
