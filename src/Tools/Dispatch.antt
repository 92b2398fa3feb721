-- ===== src/Tools/Dispatch.antt =====
-- What the spawn tool of runtime/src/tools/spawn.ts lets run.
use dream_team.Prelude.{
  ◌+◌, ◌≤◌, ◌<◌, String, ◌≡◌, ◌≢◌, refl, ◌⊎◌, inl, inr, true, false, none, some, [], arith, ltb,
  leb, leb-false→lt, Bool-cases, Option-cases,
}
use dream_team.Json.{Json, get}
use dream_team.Gate.Types.{RoleGrant}
use dream_team.Gate.Objects.{has_own, index}
use dream_team.Gate.Grants.{role_grant}
use dream_team.Gate.Intersect.{intersect_grants}
use dream_team.Gate.Org.{is_dispatcher, may_route}
use dream_team.Effects.{Session, M, ok, pure, ◌>>=◌}
use dream_team.Tools.Types.{ToolObservation, ToolExecContext, SpawnContext, SpawnChildInput, fail}
use dream_team.Tools.Spawn.{
  max_spawn_depth, max_orchestration_iterations, grants, off_chart, text_in, child_grant, spawned,
  launch, confer, admit, dispatch_child, spawn_execute,
}

-- A dispatcher's row is there, so the look-up answers.
may_route-ne-none :
    (spawner child : String) → is_dispatcher spawner ≡ true → may_route spawner child ≢ none
unfolding may_route is_dispatcher has_own index
may_route-ne-none spawner child d = ground arith

child_grant-cases :
    (spawner role : String) (g requested : RoleGrant)
    → ((grant : RoleGrant) × (child_grant spawner g role requested ≡ grants grant)
        × (is_dispatcher spawner ≡ true
            → (may_route spawner role ≡ some true) × (grant ≡ requested))
        × (is_dispatcher spawner ≡ false → grant ≡ intersect_grants g requested))
      ⊎ (child_grant spawner g role requested ≡ off_chart)
unfolding child_grant
child_grant-cases spawner role g requested = elim (Bool-cases (is_dispatcher spawner)) [
  | inr other ↦
      inl
        (intersect_grants g requested, rw (other, child_grant) refl, λ d. cc (d, other), λ _. refl)
  | inl d ↦ elim (Option-cases (may_route spawner role)) [
    | inl none' ↦ absurd (may_route-ne-none spawner role d none')
    | inr (true, there) ↦ inl (
      requested,
      rw (d, child_grant) (rw (there, child_grant) refl),
      λ _. (there, refl),
      λ n. cc (d, n),
    )
    | inr (false, off) ↦ inr (rw (d, child_grant) (rw (off, child_grant) refl))
  ]
]

module _ {W : Type 0} where
  -- What the child is given: a grant of its own role, and both counters one up and below their caps.
  pub record IsDispatch (sp : SpawnContext W) (child : SpawnChildInput) : Type 0 where
    pub requested : RoleGrant
    pub known : role_grant child.role ≡ some requested
    pub deeper : child.depth ≡ sp.depth + 1
    pub counted : child.orch_count ≡ sp.orch_count + 1
    pub shallow : child.depth ≤ max_spawn_depth
    pub below_cap : child.orch_count < max_orchestration_iterations
    pub on_chart :
        is_dispatcher sp.spawner_role ≡ true
        → (may_route sp.spawner_role child.role ≡ some true) × (child.grant ≡ requested)
    pub narrowed :
        is_dispatcher sp.spawner_role ≡ false
        → child.grant ≡ intersect_grants sp.spawner_grant requested

  -- The run of a child, with the report put into the observation.
  abbrev pub runs : SpawnContext W → SpawnChildInput → M W ToolObservation
  runs sp child = sp.run_child child >>= λ summary. pure (spawned summary child.grant)

  abbrev pub RunsOrRefuses :
      M W ToolObservation → SpawnContext W → String → String → Session W → Type 0
  RunsOrRefuses m sp role brief s =
      ((child : SpawnChildInput) × IsDispatch sp child
        × (child.role ≡ role)
        × (child.brief ≡ brief)
        × (m s ≡ runs sp child s))
      ⊎ ((detail : String) × (m s ≡ (ok (fail detail), s)))

  confer-cases :
      (sp : SpawnContext W) (role brief : String) (grant : RoleGrant) (s : Session W)
      → (confer sp role brief (grants grant) s
          ≡ runs sp
              (record {
                role = role;
                grant = grant;
                brief = brief;
                depth = sp.depth + 1;
                orch_count = sp.orch_count + 1;
              })
              s)
        × ((detail : String) × (confer sp role brief off_chart s ≡ (ok (fail detail), s)))
  unfolding confer launch
  confer-cases sp role brief grant s = (refl, (_, refl))

  admit-cases :
      (sp : SpawnContext W) (role brief : String) (requested : RoleGrant) (s : Session W)
      → role_grant role ≡ some requested
      → RunsOrRefuses (admit sp role brief requested) sp role brief s
  unfolding admit
  admit-cases sp role brief requested s known =
      elim (Bool-cases (ltb max_spawn_depth (sp.depth + 1))) [
        | inl deep ↦ rw (deep, admit) (inr (_, refl))
        | inr shallow ↦ elim (Bool-cases (leb max_orchestration_iterations (sp.orch_count + 1))) [
          | inl capped ↦
              rw (shallow, admit)
                (rw (capped, admit) (inr ("orchestration iteration limit reached", refl)))
          | inr free ↦ elim (child_grant-cases sp.spawner_role role sp.spawner_grant requested) [
            | inl (grant, conferred, chart, narrow) ↦
                rw (shallow, admit)
                  (rw (free, admit)
                    (rw conferred (
                      inl (
                        record {
                          role = role;
                          grant = grant;
                          brief = brief;
                          depth = sp.depth + 1;
                          orch_count = sp.orch_count + 1;
                        },
                        record {
                          requested = requested;
                          known = known;
                          deeper = refl;
                          counted = refl;
                          shallow = ground arith;
                          below_cap = leb-false→lt _ _ free;
                          on_chart = chart;
                          narrowed = narrow;
                        },
                        refl,
                        refl,
                        (confer-cases sp role brief grant s).0,
                      ))))
            | inr off ↦
                rw (shallow, admit)
                  (rw (free, admit) (rw off (inr ((confer-cases sp role brief [] s).1))))
          ]
        ]
      ]

  dispatch_child-cases :
      (sp : SpawnContext W) (role brief : String) (s : Session W)
      → RunsOrRefuses (dispatch_child sp role brief) sp role brief s
  unfolding dispatch_child
  dispatch_child-cases sp role brief s = elim (Option-cases (role_grant role)) [
    | inl unknown ↦ rw (unknown, dispatch_child) (inr (_, refl))
    | inr (requested, known) ↦
        rw (known, dispatch_child) (admit-cases sp role brief requested s known)
  ]

  -- Whatever the model asks of the spawn tool, either exactly one child runs, for the role and the
  -- brief of the input, and what the tool does is that run followed by its report, or the tool answers
  -- with an error and changes nothing; it never throws on its own. A child runs only for a role with a
  -- grant, at a depth of at most 3 and an orchestration count below 15, each one above the spawner's; a
  -- dispatcher's child is one of its children on the chart and has the grant of its own role, any other
  -- spawner's child has the intersection of the two grants.
  pub spawn_execute-IsDispatch :
      (input : Json) (ctx : ToolExecContext W) (s : Session W)
      → ((sp : SpawnContext W) × (child : SpawnChildInput) × (ctx.spawn ≡ some sp)
          × IsDispatch sp child
          × (text_in (get input "role") ≡ some child.role)
          × (text_in (get input "brief") ≡ some child.brief)
          × (spawn_execute input ctx s ≡ runs sp child s))
        ⊎ ((detail : String) × (spawn_execute input ctx s ≡ (ok (fail detail), s)))
  unfolding spawn_execute
  spawn_execute-IsDispatch input ctx s = elim (Option-cases ctx.spawn) [
    | inl absent ↦ rw (absent, spawn_execute) (inr ("spawn is not available in this run", refl))
    | inr (sp, there) ↦ elim (Option-cases (text_in (get input "role"))) [
      | inl blank ↦
          rw (there, spawn_execute)
            (rw (blank, spawn_execute) (inr ("spawn requires a role", refl)))
      | inr (role, named) ↦ elim (Option-cases (text_in (get input "brief"))) [
        | inl blank ↦
            rw (there, spawn_execute)
              (rw (named, spawn_execute)
                (rw (blank, spawn_execute) (inr ("spawn requires a brief", refl))))
        | inr (brief, given) ↦ elim (dispatch_child-cases sp role brief s) [
          | inl (child, dispatch, same_role, same_brief, run) ↦ inl (
            sp,
            child,
            there,
            dispatch,
            cc (named, same_role),
            cc (given, same_brief),
            rw (there, spawn_execute) (rw (named, spawn_execute) (rw (given, spawn_execute) run)),
          )
          | inr (detail, refused) ↦ inr (
            detail,
            rw (there, spawn_execute)
                (rw (named, spawn_execute) (rw (given, spawn_execute) refused)),
          )
        ]
      ]
    ]
  ]

  dispatch_child-runs :
      (sp : SpawnContext W) (child : SpawnChildInput) (s : Session W)
      → IsDispatch sp child
      → dispatch_child sp child.role child.brief s ≡ runs sp child s
  unfolding dispatch_child admit child_grant confer launch
  dispatch_child-runs sp child s h =
      ground (arith, h.known, h.deeper, h.counted, h.shallow, h.below_cap, h.on_chart, h.narrowed)

  -- Conversely, every child that meets these conditions and that the input names is run: what the
  -- tool does is its run followed by its report.
  pub spawn_execute-runs :
      (input : Json) (ctx : ToolExecContext W) (sp : SpawnContext W) (child : SpawnChildInput)
      (s : Session W)
      → ctx.spawn ≡ some sp
      → text_in (get input "role") ≡ some child.role
      → text_in (get input "brief") ≡ some child.brief
      → IsDispatch sp child
      → spawn_execute input ctx s ≡ runs sp child s
  unfolding spawn_execute
  spawn_execute-runs input ctx sp child s there named given h =
      rw (there, spawn_execute)
        (rw (named, spawn_execute) (rw (given, spawn_execute) (dispatch_child-runs sp child s h)))
