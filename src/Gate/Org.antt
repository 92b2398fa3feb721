-- ===== src/Gate/Org.antt =====
-- runtime/src/gate/org.ts: which roles each dispatcher may instantiate.
use dream_team.Prelude.{String, Bool, false, Option, none, some, List, [], ◌∷◌, includes}
use dream_team.Gate.Objects.{index, has_own, missing, own, inherited}

unfoldable pub routing : List (String × List String)
routing =
    (
      "central-orchestrator",
      "research-coordinator" ∷ "build-coordinator" ∷ "operate-coordinator"
          ∷ "distribution-coordinator" ∷ "learning-coordinator" ∷ "distribution-packager" ∷ [],
    )
    ∷ (
      "research-coordinator",
      "research-analyst" ∷ "market-intelligence" ∷ "idea-generator" ∷ "knowledge-librarian" ∷ [],
    )
    ∷ (
      "build-coordinator",
      "architect" ∷ "ux-designer" ∷ "code-developer" ∷ "qa-testing" ∷ "truth-agent" ∷ [],
    )
    ∷ (
      "operate-coordinator",
      "devops" ∷ "data-pipeline" ∷ "security" ∷ "performance-optimization" ∷ [],
    )
    ∷ (
      "distribution-coordinator",
      "marketing-strategy" ∷ "content-creation" ∷ "sales-enablement" ∷ "community-manager" ∷ [],
    )
    ∷ (
      "learning-coordinator",
      "analytics" ∷ "customer-insight" ∷ "experimentation" ∷ "strategy-advisor" ∷ [],
    )
    ∷ []

unfoldable pub is_dispatcher : String → Bool
is_dispatcher role = has_own routing role

-- `none` is the TypeError of calling `includes` on an inherited property that has no such method.
unfoldable pub may_route : String → String → Option Bool
may_route spawner child = elim (index routing spawner) [
  | missing ↦ some false
  | own allowed ↦ some (includes allowed child)
  | inherited ↦ none
]
