-- ===== src/Gate/Policy.antt =====
-- What gate.ts decides, against the governance policy stated without an effective tier.
use dream_team.Prelude.{
  ◌≡◌, ◌≢◌, refl, true, ◌↔◌, ◌⊎◌, inl, inr, none, some, arith, includes, Option-cases,
}
use dream_team.Gate.Types.{
  Tier, t0, t1, t2, GateAction, GateContext, GateDecision, permit, blocked_hard, blocked_scope,
  tier_of, has_standing, approval_key,
}
use dream_team.Gate.Decide.{stricter_tier, is_path_bearing, decide_tier, gate}

abbrev pub IsPermit : GateDecision → Type 0
IsPermit (permit t) = Unit
IsPermit _ = ⊥

abbrev pub IsHard : GateDecision → Type 0
IsHard (blocked_hard reason) = Unit
IsHard _ = ⊥

abbrev pub IsScope : GateDecision → Type 0
IsScope (blocked_scope reason) = Unit
IsScope _ = ⊥

abbrev pub Approved : GateAction → GateContext → Type 0
Approved action ctx =
    (has_standing ctx.approvals.standing action.capability ≡ true)
    × (includes ctx.approvals.per_action (approval_key action.capability action.resolved_path)
        ≡ true)

-- One of the two tiers is the one given.
abbrev pub Either : Tier → Tier → Tier → Type 0
Either t a b = (a ≡ t) ⊎ (b ≡ t)

-- A capability that bears a path has a resolved one.
abbrev pub HasPath : GateAction → Type 0
HasPath action = is_path_bearing action.capability ≡ true → action.resolved_path ≢ none

-- The policy at a granted ceiling: a T1 action or ceiling wants a standing grant and a per-action
-- approval; else a T2 one wants a resolved path where the capability bears a path.
abbrev pub Allows : Tier → Tier → GateAction → GateContext → Type 0
Allows a granted action ctx =
    (Either t1 a granted → Approved action ctx)
    × (¬ (Either t1 a granted) → Either t2 a granted → HasPath action)

decide_tier-IsPermit_iff :
    (a g : Tier) (action : GateAction) (ctx : GateContext)
    → IsPermit (decide_tier (stricter_tier a g) action ctx) ↔ Allows a g action ctx
unfolding decide_tier stricter_tier
decide_tier-IsPermit_iff t0 t0 action ctx = ground arith
decide_tier-IsPermit_iff _ _ action ctx = ground arith

-- The whole policy: the capability is granted at a ceiling that allows the action.
pub record IsAllowed (action : GateAction) (ctx : GateContext) : Type 0 where
  pub granted : Tier
  pub in_grant : tier_of ctx.grant action.capability ≡ some granted
  pub allows : Allows action.action_tier granted action ctx

-- The gate permits an action exactly when the policy allows it: the capability is granted; where
-- the action's tier or the granted ceiling is T1, the capability has a standing grant and the
-- action an approval of its own; where neither is T1 and one is T2, a capability that bears a path
-- has a resolved path.
pub gate-IsPermit_iff :
    (action : GateAction) (ctx : GateContext) → IsPermit (gate action ctx) ↔ IsAllowed action ctx
unfolding gate
gate-IsPermit_iff action ctx = elim (Option-cases (tier_of ctx.grant action.capability)) [
  | inl missing ↦ rw (missing, gate) (λ p. absurd p, λ h. cc (missing, h.in_grant))
  | inr (g, granted) ↦
      let (to, from) = decide_tier-IsPermit_iff action.action_tier g action ctx in
      rw (granted, gate)
        (
          λ p. record { granted = g; in_grant = granted; allows = to p },
          λ h. from (let same : h.granted ≡ g = cc (granted, h.in_grant) in rw same at h.allows),
        )
]

abbrev Refusals : Tier → Tier → GateAction → GateContext → GateDecision → Type 0
Refusals a g action ctx d =
    (¬ (IsScope d))
    × (IsHard d → Either t1 a g × (¬ (Approved action ctx)))
    × (Either t1 a g × (¬ (Approved action ctx)) → IsHard d)

decide_tier-Refusals :
    (a g : Tier) (action : GateAction) (ctx : GateContext)
    → Refusals a g action ctx (decide_tier (stricter_tier a g) action ctx)
unfolding decide_tier stricter_tier
decide_tier-Refusals t0 t0 action ctx = ground arith
decide_tier-Refusals _ _ action ctx = ground arith

-- How a refusal is graded: out of scope exactly when the capability is not granted; hard exactly
-- when it is granted, one of the two tiers is T1 and the approvals are not both there.
pub gate_refusals :
    (action : GateAction) (ctx : GateContext)
    → (IsScope (gate action ctx) ↔ (tier_of ctx.grant action.capability ≡ none))
      × (IsHard (gate action ctx) ↔ (
          (granted : Tier) × (tier_of ctx.grant action.capability ≡ some granted)
          × Either t1 action.action_tier granted
          × (¬ (Approved action ctx))))
unfolding gate
gate_refusals action ctx = elim (Option-cases (tier_of ctx.grant action.capability)) [
  | inl missing ↦ rw (missing, gate) ((λ _. refl, λ _. tt), (λ p. absurd p, λ h. cc (h.1)))
  | inr (g, granted) ↦
      let (in_scope, to, from) = decide_tier-Refusals action.action_tier g action ctx in
      rw (granted, gate)
        (
          (λ p. absurd (in_scope p), λ h. cc h),
          (
            λ p. (g, refl, (to p).0, (to p).1),
            λ h. from (let same : h.0 ≡ g = cc (h.1) in rw same at h.2, h.3),
          ),
        )
]
