-- ===== src/Gate/Narrowing.antt =====
-- What an intersected grant holds, and that it never permits what either side would not.
use dream_team.Prelude.{
  ◌≡◌, ◌≢◌, refl, sym, ◌∙◌, Bool, true, inl, inr, Option, none, some, List, [], ◌∷◌, arith,
  Option-cases, if◌then◌else◌, any,
}
use dream_team.Gate.Types.{
  Tier, t0, t1, t2, t3, Capability, cap_eq, cap_eq_iff, RoleGrant, tier_of, GateAction, GateContext,
}
use dream_team.Gate.Decide.{stricter_tier, is_path_bearing, gate}
use dream_team.Gate.Intersect.{put, keys, narrow, narrow_from, intersect_grants}
use dream_team.Gate.Policy.{IsPermit, Allows, Approved, HasPath, Either, gate-IsPermit_iff}

-- The stricter of two tiers, where both are there.
abbrev pub meet : Option Tier → Option Tier → Option Tier
meet (some a) (some b) = some (stricter_tier a b)
meet _ _ = none

tier_of-put :
    (g : RoleGrant) (c d : Capability) (t : Tier)
    → tier_of (put g c t) d ≡ (if cap_eq c d then some t else tier_of g d)
unfolding tier_of put
tier_of-put [] c d t = refl
tier_of-put ((k, u) ∷ g) c d t =
    ground (arith, cap_eq_iff k c, cap_eq_iff k d, cap_eq_iff c d, tier_of-put g c d t)

-- The capability stands among the keys.
abbrev has : List Capability → Capability → Bool
has ks d = any (λ k. cap_eq k d) ks

-- What the loop leaves at a capability: the meet if its key is still to come, else what was there.
settled : Option Tier → Option Tier → Option Tier
settled (some t) old = some t
settled none old = old

tier_of-narrow :
    (parent requested child : RoleGrant) (c d : Capability)
    → tier_of (narrow parent requested c child) d ≡ (
        if cap_eq c d
        then settled (meet (tier_of parent d) (tier_of requested d)) (tier_of child d)
        else tier_of child d)
unfolding narrow settled
tier_of-narrow parent requested child c d = grind (arith, cap_eq_iff c d, tier_of-put child c d)

tier_of-narrow_from :
    (parent requested child : RoleGrant) (ks : List Capability) (d : Capability)
    → tier_of (narrow_from parent requested ks child) d ≡ (
        if has ks d
        then settled (meet (tier_of parent d) (tier_of requested d)) (tier_of child d)
        else tier_of child d)
unfolding narrow_from settled
tier_of-narrow_from parent requested child [] d = refl
tier_of-narrow_from parent requested child (c ∷ ks) d = ground (
  arith,
  tier_of-narrow_from parent requested (narrow parent requested c child) ks d,
  tier_of-narrow parent requested child c d,
)

has-keys :
    (g : RoleGrant) (d : Capability) {t : Tier} → tier_of g d ≡ some t → has (keys g) d ≡ true
unfolding tier_of
has-keys [] d e = cc
has-keys ((k, u) ∷ g) d {t} e = ground (arith, has-keys g d {t = t})

-- The child grant holds a capability exactly where both grants do, at the stricter tier.
pub tier_of-intersect_grants :
    (parent requested : RoleGrant) (c : Capability)
    → tier_of (intersect_grants parent requested) c ≡ meet (tier_of parent c) (tier_of requested c)
unfolding intersect_grants settled tier_of
tier_of-intersect_grants parent requested c = elim (Option-cases (tier_of requested c)) [
  | inl missing ↦ ground (arith, tier_of-narrow_from parent requested [] (keys requested) c)
  | inr (t, held) ↦
      ground (
        arith,
        has-keys requested c held,
        tier_of-narrow_from parent requested [] (keys requested) c,
      )
]

-- A stricter ceiling is T1 where one of the two is.
Either-stricter_tier :
    (t a b : Tier)
    → (Either t1 t a → Either t1 t (stricter_tier a b))
      × (Either t1 t b → Either t1 t (stricter_tier a b))
unfolding stricter_tier
Either-stricter_tier t t1 t0 = ground arith
Either-stricter_tier t t2 t0 = ground arith
Either-stricter_tier t t3 t0 = ground arith
Either-stricter_tier t _ _ = ground arith

-- What a stricter ceiling allows each of the two allows, if the path is resolved: a T1 ceiling asks
-- for approvals and does not look at the path.
Allows-stricter_tier :
    (t a b : Tier) (action : GateAction) (ctx : GateContext)
    → HasPath action
    → Allows t (stricter_tier a b) action ctx
    → Allows t a action ctx × Allows t b action ctx
Allows-stricter_tier t a b action ctx p (h, k) =
    let (left, right) = Either-stricter_tier t a b in
    ((λ e. h (left e), λ _ _. p), (λ e. h (right e), λ _ _. p))

t2_t1 : meet (some t2) (some t1) ≡ some t1
unfolding stricter_tier
t2_t1 = refl

meet-eq-some :
    (o o' : Option Tier) {t : Tier}
    → meet o o' ≡ some t
    → (a b : Tier) × (o ≡ some a) × (o' ≡ some b) × (t ≡ stricter_tier a b)
meet-eq-some (some a) (some b) e = (a, b, refl, refl, cc)
meet-eq-some none b e = cc
meet-eq-some (some a) none e = cc

abbrev pub with_grant : GateContext → RoleGrant → GateContext
with_grant ctx g = record ctx { grant = g }

-- An agent that runs under an intersected grant is permitted no action with a resolved path, or
-- with a capability that bears none, that the parent's grant or the requested one would not permit
-- in the same run.
pub gate-intersect_grants :
    (action : GateAction) (ctx : GateContext) (parent requested : RoleGrant)
    → HasPath action
    → IsPermit (gate action (with_grant ctx (intersect_grants parent requested)))
    → IsPermit (gate action (with_grant ctx parent))
      × IsPermit (gate action (with_grant ctx requested))
gate-intersect_grants action ctx parent requested path p =
    let h = (gate-IsPermit_iff action (with_grant ctx (intersect_grants parent requested))).0 p in
    let (a, b, in_parent, in_requested, same) =
      meet-eq-some (tier_of parent action.capability) (tier_of requested action.capability)
        (sym (tier_of-intersect_grants parent requested action.capability) ∙ h.in_grant) in
    let (by_parent, by_requested) =
      Allows-stricter_tier action.action_tier a b action ctx path (rw same at h.allows) in
    (
      (gate-IsPermit_iff action (with_grant ctx parent)).1
          (record { granted = a; in_grant = in_parent; allows = by_parent }),
      (gate-IsPermit_iff action (with_grant ctx requested)).1
          (record { granted = b; in_grant = in_requested; allows = by_requested }),
    )

-- Without a resolved path the narrowed grant may permit more: where the parent holds a capability
-- that bears a path at T2 and the request asks for it at T1, an action with both approvals and no
-- resolved path is permitted under the intersection and refused under the parent's grant.
pub gate-intersect_grants_widens :
    (action : GateAction) (ctx : GateContext) (parent requested : RoleGrant)
    → is_path_bearing action.capability ≡ true
    → action.resolved_path ≡ none
    → action.action_tier ≢ t1
    → tier_of parent action.capability ≡ some t2
    → tier_of requested action.capability ≡ some t1
    → Approved action ctx
    → IsPermit (gate action (with_grant ctx (intersect_grants parent requested)))
      × (¬ (IsPermit (gate action (with_grant ctx parent))))
gate-intersect_grants_widens action ctx parent requested bears unresolved soft p r ok = (
  (gate-IsPermit_iff action (with_grant ctx (intersect_grants parent requested))).1 (record {
    granted = t1;
    in_grant = tier_of-intersect_grants parent requested action.capability ∙ (rw (p, r) (t2_t1));
    allows = (λ _. ok, λ n _. absurd (n (inr refl)));
  }),
  λ q.
      let h = (gate-IsPermit_iff action (with_grant ctx parent)).0 q in
      let same : h.granted ≡ t2 = cc (h.in_grant, p) in
      h.allows.1 (λ e. ground arith) (inr same) bears unresolved,
)
