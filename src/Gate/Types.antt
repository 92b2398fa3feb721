-- ===== src/Gate/Types.antt =====
-- runtime/src/gate/types.ts: tiers, capabilities, grants, approvals and decisions.
-- `RoleGrant` is a `Partial<Record<Capability, Tier>>`: the list of its own properties in the order
-- of `Object.keys`; a capability that the list lacks is `undefined`.
use dream_team.Prelude.{
  ℕ, String, ◌≡◌, refl, Bool, true, false, ◌↔◌, Option, none, some, List, [], ◌∷◌, ◌==◌,
  if◌then◌else◌, concat, or_else, ap, ==_iff, get_elem?,
}

pub data Tier : Type 0 where
  t0 t1 t2 t3 : Tier

pub data Capability : Type 0 where
  mdl r w del sh netr netw conr conw sec dep spend comm spawn plan ho : Capability

abbrev pub tier_name : Tier → String
tier_name t0 = "T0"
tier_name t1 = "T1"
tier_name t2 = "T2"
tier_name t3 = "T3"

-- The capability codes, as they stand in texts.
abbrev pub capability_name : Capability → String
capability_name mdl = "MDL"
capability_name r = "R"
capability_name w = "W"
capability_name del = "DEL"
capability_name sh = "SH"
capability_name netr = "NETr"
capability_name netw = "NETw"
capability_name conr = "CONr"
capability_name conw = "CONw"
capability_name sec = "SEC"
capability_name dep = "DEP"
capability_name spend = "SPEND"
capability_name comm = "COMM"
capability_name spawn = "SPAWN"
capability_name plan = "PLAN"
capability_name ho = "HO"

-- A number for each capability, by which two are compared.
abbrev capability_index : Capability → ℕ
capability_index mdl = 0
capability_index r = 1
capability_index w = 2
capability_index del = 3
capability_index sh = 4
capability_index netr = 5
capability_index netw = 6
capability_index conr = 7
capability_index conw = 8
capability_index sec = 9
capability_index dep = 10
capability_index spend = 11
capability_index comm = 12
capability_index spawn = 13
capability_index plan = 14
capability_index ho = 15

-- Every capability, at its index.
abbrev pub capabilities : List Capability
capabilities =
    mdl ∷ r ∷ w ∷ del ∷ sh ∷ netr ∷ netw ∷ conr ∷ conw ∷ sec ∷ dep ∷ spend ∷ comm ∷ spawn ∷ plan
    ∷ ho ∷ []

unfoldable pub cap_eq : Capability → Capability → Bool
cap_eq a b = capability_index a == capability_index b

at_index : (c : Capability) → get_elem? capabilities (capability_index c) ≡ some c
at_index mdl = refl
at_index r = refl
at_index w = refl
at_index del = refl
at_index sh = refl
at_index netr = refl
at_index netw = refl
at_index conr = refl
at_index conw = refl
at_index sec = refl
at_index dep = refl
at_index spend = refl
at_index comm = refl
at_index spawn = refl
at_index plan = refl
at_index ho = refl

index-injective : (a b : Capability) → capability_index a ≡ capability_index b → a ≡ b
index-injective a b h = cc (at_index a, at_index b, ap (get_elem? capabilities) h)

pub cap_eq_iff : (a b : Capability) → (cap_eq a b ≡ true) ↔ (a ≡ b)
unfolding cap_eq
cap_eq_iff a b =
    (λ h. index-injective a b ((==_iff _ _).0 h), λ h. (==_iff _ _).1 (ap capability_index h))

pub cap_eq_refl : (c : Capability) → cap_eq c c ≡ true
cap_eq_refl c = (cap_eq_iff c c).1 refl

pub data GateDecision : Type 0 where
  permit : Tier → GateDecision
  blocked_with_path : (missing : String) → GateDecision
  blocked_hard : (reason : String) → GateDecision
  blocked_scope : (reason : String) → GateDecision

pub record GateAction : Type 0 where
  pub capability : Capability
  pub resolved_path : Option String
  pub action_tier : Tier

abbrev pub RoleGrant : Type 0
RoleGrant = List (Capability × Tier)

-- `grant[capability]`
unfoldable pub tier_of : RoleGrant → Capability → Option Tier
tier_of [] c = none
tier_of ((k, t) ∷ g) c = if cap_eq k c then some t else tier_of g c

pub record ApprovalSet : Type 0 where
  pub standing : List Capability
  pub per_action : List String

unfoldable pub has_standing : List Capability → Capability → Bool
has_standing [] c = false
has_standing (k ∷ ks) c = if cap_eq k c then true else has_standing ks c

pub record WorkspaceBoundary : Type 0 where
  pub workspace_root : String
  pub read_allowlist : List String

pub record GateContext : Type 0 where
  pub role : String
  pub grant : RoleGrant
  pub approvals : ApprovalSet
  pub boundary : WorkspaceBoundary

unfoldable pub approval_key : Capability → Option String → String
approval_key c path = concat (capability_name c ∷ ":" ∷ or_else path "*" ∷ [])
