-- ===== src/Gate/Grants.antt =====
-- runtime/src/gate/grants.ts: the capability grant matrix and its look-up.
use dream_team.Prelude.{String, Option, none, some, List, [], ◌∷◌}
use dream_team.Gate.Objects.{index, missing, own, inherited}
use dream_team.Gate.Types.{
  RoleGrant, t0, t1, t2, t3, mdl, r, w, del, sh, netr, netw, conr, conw, sec, dep, spend, comm,
  spawn, plan, ho,
}

unfoldable pub matrix : List (String × RoleGrant)
matrix =
    ("central-orchestrator", (mdl, t0) ∷ (r, t0) ∷ (plan, t0) ∷ (spawn, t2) ∷ (ho, t2) ∷ [])
    ∷ ("research-coordinator", (mdl, t0) ∷ (r, t0) ∷ (plan, t0) ∷ (spawn, t2) ∷ (ho, t2) ∷ [])
    ∷ ("build-coordinator", (mdl, t0) ∷ (r, t0) ∷ (plan, t0) ∷ (spawn, t2) ∷ (ho, t2) ∷ [])
    ∷ ("operate-coordinator", (mdl, t0) ∷ (r, t0) ∷ (plan, t0) ∷ (spawn, t2) ∷ (ho, t2) ∷ [])
    ∷ ("distribution-coordinator", (mdl, t0) ∷ (r, t0) ∷ (plan, t0) ∷ (spawn, t2) ∷ (ho, t2) ∷ [])
    ∷ ("learning-coordinator", (mdl, t0) ∷ (r, t0) ∷ (plan, t0) ∷ (spawn, t2) ∷ (ho, t2) ∷ [])
    ∷ ("research-analyst", (mdl, t0) ∷ (r, t0) ∷ (plan, t0) ∷ (w, t3) ∷ (netr, t2) ∷ (ho, t3) ∷ [])
    ∷ (
      "market-intelligence",
      (mdl, t0) ∷ (r, t0) ∷ (plan, t0) ∷ (w, t3) ∷ (netr, t2) ∷ (ho, t3) ∷ [],
    )
    ∷ ("idea-generator", (mdl, t0) ∷ (r, t0) ∷ (plan, t0) ∷ (w, t3) ∷ (ho, t3) ∷ [])
    ∷ (
      "knowledge-librarian",
      (mdl, t0) ∷ (r, t0) ∷ (plan, t0) ∷ (w, t3) ∷ (netr, t2) ∷ (ho, t3) ∷ [],
    )
    ∷ ("architect", (mdl, t0) ∷ (r, t0) ∷ (plan, t0) ∷ (w, t3) ∷ (netr, t2) ∷ (ho, t3) ∷ [])
    ∷ ("ux-designer", (mdl, t0) ∷ (r, t0) ∷ (plan, t0) ∷ (w, t3) ∷ (netr, t2) ∷ (ho, t3) ∷ [])
    ∷ (
      "code-developer",
      (mdl, t0)
          ∷ (r, t0)
          ∷ (plan, t0)
          ∷ (w, t3)
          ∷ (del, t2)
          ∷ (sh, t2)
          ∷ (netr, t2)
          ∷ (ho, t3)
          ∷ [],
    )
    ∷ ("qa-testing", (mdl, t0) ∷ (r, t0) ∷ (plan, t0) ∷ (sh, t2) ∷ (ho, t3) ∷ [])
    ∷ ("truth-agent", (mdl, t0) ∷ (r, t0) ∷ (plan, t0) ∷ (w, t3) ∷ (ho, t3) ∷ [])
    ∷ (
      "devops",
      (mdl, t0)
          ∷ (r, t0)
          ∷ (plan, t0)
          ∷ (w, t3)
          ∷ (del, t2)
          ∷ (sh, t2)
          ∷ (netr, t2)
          ∷ (netw, t2)
          ∷ (conr, t2)
          ∷ (conw, t1)
          ∷ (sec, t1)
          ∷ (dep, t1)
          ∷ (spend, t1)
          ∷ (ho, t3)
          ∷ [],
    )
    ∷ (
      "data-pipeline",
      (mdl, t0)
          ∷ (r, t0)
          ∷ (plan, t0)
          ∷ (w, t3)
          ∷ (del, t2)
          ∷ (sh, t2)
          ∷ (netr, t2)
          ∷ (netw, t2)
          ∷ (conr, t2)
          ∷ (conw, t1)
          ∷ (sec, t2)
          ∷ (dep, t2)
          ∷ (spend, t2)
          ∷ (ho, t3)
          ∷ [],
    )
    ∷ (
      "security",
      (mdl, t0)
          ∷ (r, t0)
          ∷ (plan, t0)
          ∷ (w, t3)
          ∷ (sh, t2)
          ∷ (netr, t2)
          ∷ (conr, t2)
          ∷ (sec, t1)
          ∷ (ho, t3)
          ∷ [],
    )
    ∷ (
      "performance-optimization",
      (mdl, t0)
          ∷ (r, t0)
          ∷ (plan, t0)
          ∷ (w, t3)
          ∷ (sh, t2)
          ∷ (netr, t2)
          ∷ (conr, t2)
          ∷ (spend, t2)
          ∷ (ho, t3)
          ∷ [],
    )
    ∷ (
      "marketing-strategy",
      (mdl, t0) ∷ (r, t0) ∷ (plan, t0) ∷ (w, t3) ∷ (netr, t2) ∷ (ho, t3) ∷ [],
    )
    ∷ ("content-creation", (mdl, t0) ∷ (r, t0) ∷ (plan, t0) ∷ (w, t3) ∷ (netr, t2) ∷ (ho, t3) ∷ [])
    ∷ ("sales-enablement", (mdl, t0) ∷ (r, t0) ∷ (plan, t0) ∷ (w, t3) ∷ (netr, t2) ∷ (ho, t3) ∷ [])
    ∷ (
      "community-manager",
      (mdl, t0)
          ∷ (r, t0)
          ∷ (plan, t0)
          ∷ (w, t3)
          ∷ (netr, t2)
          ∷ (netw, t2)
          ∷ (conr, t2)
          ∷ (conw, t1)
          ∷ (comm, t1)
          ∷ (ho, t3)
          ∷ [],
    )
    ∷ ("analytics", (mdl, t0) ∷ (r, t0) ∷ (plan, t0) ∷ (w, t3) ∷ (conr, t2) ∷ (ho, t2) ∷ [])
    ∷ ("customer-insight", (mdl, t0) ∷ (r, t0) ∷ (plan, t0) ∷ (w, t3) ∷ (netr, t2) ∷ (ho, t2) ∷ [])
    ∷ ("experimentation", (mdl, t0) ∷ (r, t0) ∷ (plan, t0) ∷ (w, t3) ∷ (conr, t2) ∷ (ho, t2) ∷ [])
    ∷ ("strategy-advisor", (mdl, t0) ∷ (r, t0) ∷ (plan, t0) ∷ (w, t3) ∷ (ho, t2) ∷ [])
    ∷ (
      "distribution-packager",
      (mdl, t0) ∷ (r, t0) ∷ (plan, t0) ∷ (w, t3) ∷ (sh, t2) ∷ (ho, t3) ∷ [],
    )
    ∷ []

-- An inherited property of the table is a function or an object with no property that is named
-- like a capability: as a grant it holds nothing, and it is not `undefined`.
unfoldable pub role_grant : String → Option RoleGrant
role_grant role = elim (index matrix role) [
  | missing ↦ none
  | own grant ↦ some grant
  | inherited ↦ some []
]
