-- ===== src/Start/Tree.antt =====
-- The tree of runs that startRun of runtime/src/index.ts dispatches ends.
use dream_team.Prelude.{
  ℕ, zero, suc, ◌+◌, ◌≤◌, ◌<◌, String, ◌≡◌, sym, subst, inl, inr, some, List, [], ◌∷◌, All, arith,
  Option-cases, Bool-cases,
}
use dream_team.Trace.{TraceEvent}
use dream_team.Artifacts.Record.{
  Files, ArtifactSpec, RecordContext, check_info, check_liveness, emit_if_live,
  record_artifact_if_live,
}
use dream_team.Sinks.{WriteFailure, flush}
use dream_team.Effects.{Result, ok, err, thrown, out_of_fuel, Session, M, pure, ◌>>◌}
use dream_team.Effects.Outcome.{Holds, Holds-resume, After-mono, attempt-cases}
use dream_team.Effects.Settled.{Settles, Settles-bind, Settles-call}
use dream_team.Tools.Types.{
  ConfinementProvider, SpawnContext, SpawnChildInput, software_confinement,
}
use dream_team.Tools.Spawn.{max_spawn_depth}
use dream_team.Tools.Registry.{Host, tools_for_role}
use dream_team.Tools.Registry.Lasting.{tools_for_role-Lasts}
use dream_team.Loop.Types.{RunLoopOptions, RunResult}
use dream_team.Loop.Run.{spawn_context}
use dream_team.Loop.Step.{run_loop}
use dream_team.Loop.Calls.{Lasts, ChildrenLast, RunLasts}
use dream_team.Loop.History.{Ends}
use dream_team.Loop.Results.{run_loop-Ends}
use dream_team.Connectors.{Vault}
use dream_team.Prompts.{system_for_role}
use dream_team.Start.Gated.{start_run-IsMember}
use dream_team.Start.Persist.{Failures, check_flush}
use dream_team.Start.{
  StartRunInput, StartRunDeps, record_write, record_writes, record_if_done, is_done, written_path,
  child_options, child_run, run_child, root_options, governed, confine_root, fresh_run,
  check_flushes, written_through, dispatch_run, start_run, spawn_levels, summary_of,
}

ChildrenLast-some :
    {W : Type 0} (D : Type 0) (sp : SpawnContext W)
    → ((child : SpawnChildInput)
        → child.depth ≡ sp.depth + 1
        → child.depth ≤ max_spawn_depth
        → Settles D (sp.run_child child))
    → ChildrenLast D (some sp)
ChildrenLast-some D sp h sp' e child s deeper shallow =
    let same : sp ≡ sp' = cc e in (rw same at h) child deeper shallow s

Holds-anywhere :
    {W A : Type 0} (D : Type 0) (r : Result A) (s s' : Session W)
    → Holds D (λ _ _. Unit) r s
    → Holds D (λ _ _. Unit) r s'
Holds-anywhere D (ok a) s s' h = tt
Holds-anywhere D (err (thrown e)) s s' h = tt
Holds-anywhere D (err out_of_fuel) s s' h = h

module _ {W : Type 0} (files : Files W) where
  record_artifact_if_live-Settles :
      (spec : ArtifactSpec) (ctx : RecordContext)
      → Settles ⊥ (record_artifact_if_live files spec ctx)
  unfolding record_artifact_if_live check_liveness check_info emit_if_live
  record_artifact_if_live-Settles spec ctx =
      Settles-bind ⊥ (check_liveness files spec) (emit_if_live files spec ctx) (λ s. ground arith)
        (λ result s. ground arith)

module _ {W : Type 0} (host : Host W) (files : Files W) (vault : Vault W) (input : StartRunInput)
    (deps : StartRunDeps W) where
  record_write-Settles :
      (role : String) (event : TraceEvent)
      → Settles ⊥ (record_write host files vault input deps role event)
  unfolding record_write
  record_write-Settles role event s = elim (Option-cases (written_path event)) [
    | inl m ↦ rw (m, record_write) tt
    | inr (path, m) ↦
        rw (m, record_write)
          (Settles-bind ⊥ _ (λ _. pure tt) (record_artifact_if_live-Settles files _ _) (λ _ s. tt)
            s)
  ]

  record_writes-Settles :
      (events : List TraceEvent) (role : String)
      → Settles ⊥ (record_writes host files vault input deps events role)
  unfolding record_writes
  record_writes-Settles [] role s = tt
  record_writes-Settles (event ∷ events) role s =
      Settles-bind ⊥ _ (λ _. record_writes host files vault input deps events role)
        (record_write-Settles role event) (λ _. record_writes-Settles events role) s

  record_if_done-Settles :
      (result : RunResult) (role : String)
      → Settles ⊥ (record_if_done host files vault input deps result role)
  unfolding record_if_done
  record_if_done-Settles result role s = elim (Bool-cases (is_done result.state)) [
    | inl d ↦ rw (d, record_if_done) (record_writes-Settles result.trace_events role s)
    | inr n ↦ rw (n, record_if_done) tt
  ]

  run_loop-Settles :
      (opts : RunLoopOptions W) → RunLasts ⊥ host.fs opts → Settles ⊥ (run_loop host.fs opts)
  run_loop-Settles opts lasts s =
      After-mono ⊥ (λ r s'. Ends opts.role r.state r s') (λ _ _. Unit) (run_loop host.fs opts) s
        (run_loop-Ends host.fs opts lasts s) (λ _ _ _. tt)

  module _ (confinement : ConfinementProvider W) where
    -- As many levels as the depth cap leaves are enough.
    pub run_child-Settles :
        (levels : ℕ) (child : SpawnChildInput)
        → child.depth ≤ max_spawn_depth
        → max_spawn_depth < levels + child.depth
        → Settles ⊥ (run_child host files vault input deps levels confinement child)
    unfolding run_child child_run child_options spawn_context
    run_child-Settles zero child shallow enough s = absurd (omega arith)
    run_child-Settles (suc levels) child shallow enough s =
        let below = run_child host files vault input deps levels confinement in
        elim (attempt-cases (tools_for_role host child.role)) [
          | inr (x, e) ↦ rw (e, child_run) tt
          | inl (tools, e) ↦ elim (attempt-cases (system_for_role child.role child.brief)) [
            | inr (x, e') ↦ rw (e, child_run) (rw (e', child_run) tt)
            | inl (system, e') ↦
                let opts =
                  child_options host files vault input deps confinement below child tools system in
                rw (e, child_run)
                  (rw (e', child_run)
                    (Settles-bind ⊥ (run_loop host.fs opts)
                      (λ r.
                        record_if_done host files vault input deps r child.role
                        >> pure (summary_of child r))
                      (run_loop-Settles opts (
                        tools_for_role-Lasts ⊥ host child.role tools e,
                        ChildrenLast-some ⊥ _ (λ c deeper shallow'.
                            run_child-Settles levels c shallow' (omega arith)),
                      ))
                      (λ r.
                        Settles-bind ⊥ _ (λ _. pure _) (record_if_done-Settles r child.role)
                          (λ _ s. tt))
                      s))
          ]
        ]

  governed-Settles :
      (confinement : ConfinementProvider W)
      → All (Lasts ⊥) deps.tools
      → Settles ⊥ (governed host files vault input deps confinement)
  unfolding governed root_options spawn_context
  governed-Settles confinement lasts =
      let below = run_child host files vault input deps spawn_levels confinement in
      let opts = root_options host files vault input deps confinement below in
      Settles-bind ⊥ (run_loop host.fs opts)
        (λ r. record_if_done host files vault input deps r input.role >> pure r)
        (run_loop-Settles opts (
          lasts,
          ChildrenLast-some ⊥ _ (λ c deeper shallow.
              run_child-Settles confinement spawn_levels c shallow (omega arith)),
        ))
        (λ r. Settles-bind ⊥ _ (λ _. pure r) (record_if_done-Settles r input.role) (λ _ s. tt))

  check_flush-Settles :
      (what unit : String) (failed : List WriteFailure)
      → Settles {W = W} ⊥ (check_flush what unit failed)
  unfolding check_flush flush
  check_flush-Settles what unit [] s = tt
  check_flush-Settles what unit (f ∷ fs) s = tt

  check_flushes-Settles :
      (failures : Failures) → Settles ⊥ (check_flushes host files vault input deps failures)
  unfolding check_flushes
  check_flushes-Settles failures =
      Settles-bind ⊥ _ (λ _. check_flush "packet" "packet" failures.packets)
        (Settles-bind ⊥ (check_flush "trace" "event" failures.trace)
          (λ _. check_flush "artifact" "record" failures.artifacts)
          (check_flush-Settles _ _ failures.trace)
          (λ _. check_flush-Settles _ _ failures.artifacts))
        (λ _. check_flush-Settles _ _ failures.packets)

  written_through-Settles :
      (run : M W RunResult)
      → Settles ⊥ run
      → Settles ⊥ (written_through host files vault input deps run)
  unfolding written_through
  written_through-Settles run h s =
      Holds-resume ⊥ (λ _ _. Unit) (λ _ _. Unit) _ (run s).0 _
        (Holds-anywhere ⊥ (run s).0 (run s).1 _ (h s))
        (λ r s' _. Settles-bind ⊥ _ (λ _. pure r) (check_flushes-Settles _) (λ _ s''. tt) s')

  confine_root-Settles : Settles ⊥ (confine_root host files vault input deps)
  unfolding confine_root
  confine_root-Settles s = elim (Option-cases deps.confinement) [
    | inl m ↦
        rw (m, confine_root)
          (Settles-call ⊥ (host.fs.realpath input.workspace_root)
            (λ root. pure (software_confinement root)) (λ root s'. tt) s)
    | inr (c, m) ↦ rw (m, confine_root) tt
  ]

  dispatch_run-Settles :
      All (Lasts ⊥) deps.tools → Settles ⊥ (dispatch_run host files vault input deps)
  unfolding dispatch_run fresh_run
  dispatch_run-Settles lasts s =
      Settles-bind ⊥ (confine_root host files vault input deps)
        (λ c. written_through host files vault input deps (governed host files vault input deps c))
        confine_root-Settles
        (λ c.
          written_through-Settles (governed host files vault input deps c)
            (governed-Settles c lasts))
        _

  -- If the tools that the top run is given return or throw where child runs do, so does startRun with
  -- its whole tree of sub-agent runs: three levels of children are enough.
  pub start_run-Settles :
      All (Lasts ⊥) deps.tools → Settles ⊥ (start_run host files vault input deps)
  start_run-Settles lasts s = elim (start_run-IsMember host files vault input deps s) [
    | inl (member, run) ↦
        subst (λ r. Holds ⊥ (λ _ _. Unit) r.0 r.1) (sym run) (dispatch_run-Settles lasts _)
    | inr (stranger, (e, run)) ↦ subst (λ r. Holds ⊥ (λ _ _. Unit) r.0 r.1) (sym run) tt
  ]
