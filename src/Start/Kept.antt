-- ===== src/Start/Kept.antt =====
-- What the tree of runs that startRun of runtime/src/index.ts governs hands to its emitters.
use dream_team.Prelude.{
  ℕ, zero, suc, ◌<◌, String, ◌≡◌, refl, sym, subst, inl, inr, some, List, [], ◌∷◌, All,
  Option-cases, Bool-cases, arith,
}
use dream_team.Trace.{TraceEvent}
use dream_team.Artifacts.Types.{ArtifactRecord}
use dream_team.Artifacts.Record.{
  Files, ArtifactSpec, RecordContext, LivenessResult, live, dead, live_record,
  record_artifact_if_live,
}
use dream_team.Artifacts.Live.{Unrecorded, record_artifact_if_live-IsLive}
use dream_team.Effects.{Result, ok, err, Session, pure, ◌>>◌}
use dream_team.Effects.Outcome.{attempt-cases}
use dream_team.Effects.Later.{Prefix-refl, IsLater, IsLater-refl, IsLater-world, Keeps, Keeps-bind}
use dream_team.Tools.Types.{ConfinementProvider, SpawnContext, SpawnChildInput}
use dream_team.Tools.Registry.{Host, tools_for_role}
use dream_team.Tools.Registry.Kept.{tools_for_role-Keeps}
use dream_team.Loop.Types.{RunResult}
use dream_team.Loop.Run.{spawn_context}
use dream_team.Loop.Step.{run_loop}
use dream_team.Loop.Kept.{ToolKeeps, ChildrenKeep, run_loop-Keeps}
use dream_team.Connectors.{Vault}
use dream_team.Prompts.{system_for_role}
use dream_team.Start.{
  StartRunInput, StartRunDeps, record_write, record_writes, record_if_done, is_done, written_path,
  child_options, child_run, run_child, root_options, governed, spawn_levels, summary_of, spec_for,
  record_context, kind_for_path,
}

ChildrenKeep-some :
    {W : Type 0} (P : ArtifactRecord → Type 0) (sp : SpawnContext W)
    → ((child : SpawnChildInput) → Keeps P (sp.run_child child))
    → ChildrenKeep P (some sp)
ChildrenKeep-some P sp h sp' e child = let same : sp ≡ sp' = cc e in (rw same at h) child

module _ {W : Type 0} (files : Files W) (spec : ArtifactSpec) (P : ArtifactRecord → Type 0) where
  Unrecorded-IsLater :
      (s : Session W) (x : Result LivenessResult × Session W)
      → Unrecorded files spec s x
      → IsLater P s x.1
  Unrecorded-IsLater s (ok (dead reason detail), s') e = rw e (IsLater-world P s s'.world)
  Unrecorded-IsLater s (ok (live bytes), s') e = absurd e
  Unrecorded-IsLater s (err x, s') e = absurd e

  record_artifact_if_live-Keeps :
      (ctx : RecordContext)
      → ((bytes : ℕ) → 0 < bytes → P (live_record spec ctx bytes))
      → Keeps P (record_artifact_if_live files spec ctx)
  record_artifact_if_live-Keeps ctx h s = elim (record_artifact_if_live-IsLive files spec ctx s) [
    | inl (bytes, w, is_live, run) ↦
        subst (λ r. IsLater P s r.1) (sym run)
          (record {
            spend = omega arith;
            trace = Prefix-refl s.trace;
            packets = Prefix-refl s.packets;
            artifacts = (live_record spec ctx bytes ∷ [], refl, (h bytes is_live.some_bytes, tt));
          })
    | inr (_, e) ↦ Unrecorded-IsLater s (record_artifact_if_live files spec ctx s) e
  ]

-- A record of the run: under its workspace and ticket, of the kind that the path says, not empty.
pub record IsOfRun (input : StartRunInput) (a : ArtifactRecord) : Type 0 where
  pub workspace : a.workspace_id ≡ input.workspace_id
  pub ticket : a.ticket_id ≡ some input.ticket_id
  pub kind : a.kind ≡ kind_for_path a.abs_path
  pub some_bytes : 0 < a.bytes

module _ {W : Type 0} (host : Host W) (files : Files W) (vault : Vault W) (input : StartRunInput)
    (deps : StartRunDeps W) where
  live_record-IsOfRun :
      (role path : String) (bytes : ℕ)
      → 0 < bytes
      → IsOfRun input (
          live_record
            (spec_for host files vault input deps path)
            (record_context host files vault input deps role)
            bytes)
  unfolding live_record spec_for
  live_record-IsOfRun role path bytes h = record {
    workspace = refl;
    ticket = refl;
    kind = refl;
    some_bytes = h;
  }

  record_write-Keeps :
      (role : String) (event : TraceEvent)
      → Keeps (IsOfRun input) (record_write host files vault input deps role event)
  unfolding record_write
  record_write-Keeps role event s = elim (Option-cases (written_path event)) [
    | inl m ↦ rw (m, record_write) (IsLater-refl _ s)
    | inr (path, m) ↦
        rw (m, record_write)
          (Keeps-bind (IsOfRun input)
            (record_artifact_if_live files (spec_for host files vault input deps path)
              (record_context host files vault input deps role))
            (λ _. pure tt)
            (record_artifact_if_live-Keeps files _ (IsOfRun input) _
              (live_record-IsOfRun role path))
            (λ _ s'. IsLater-refl _ s') s)
  ]

  record_writes-Keeps :
      (events : List TraceEvent) (role : String)
      → Keeps (IsOfRun input) (record_writes host files vault input deps events role)
  unfolding record_writes
  record_writes-Keeps [] role s = IsLater-refl _ s
  record_writes-Keeps (event ∷ events) role s =
      Keeps-bind (IsOfRun input) (record_write host files vault input deps role event)
        (λ _. record_writes host files vault input deps events role) (record_write-Keeps role event)
        (λ _. record_writes-Keeps events role) s

  record_if_done-Keeps :
      (result : RunResult) (role : String)
      → Keeps (IsOfRun input) (record_if_done host files vault input deps result role)
  unfolding record_if_done
  record_if_done-Keeps result role s = elim (Bool-cases (is_done result.state)) [
    | inl d ↦ rw (d, record_if_done) (record_writes-Keeps result.trace_events role s)
    | inr n ↦ rw (n, record_if_done) (IsLater-refl _ s)
  ]

  run_child-Keeps :
      (confinement : ConfinementProvider W) (levels : ℕ) (child : SpawnChildInput)
      → Keeps (IsOfRun input) (run_child host files vault input deps levels confinement child)
  unfolding run_child child_run child_options spawn_context
  run_child-Keeps confinement zero child s = IsLater-refl _ s
  run_child-Keeps confinement (suc levels) child s =
      let below = run_child host files vault input deps levels confinement in
      elim (attempt-cases (tools_for_role host child.role)) [
        | inr (x, e) ↦ rw (e, child_run) (IsLater-refl _ s)
        | inl (tools, e) ↦ elim (attempt-cases (system_for_role child.role child.brief)) [
          | inr (x, e') ↦ rw (e, child_run) (rw (e', child_run) (IsLater-refl _ s))
          | inl (system, e') ↦
              let opts =
                child_options host files vault input deps confinement below child tools system in
              rw (e, child_run)
                (rw (e', child_run)
                  (Keeps-bind (IsOfRun input) (run_loop host.fs opts)
                    (λ r.
                      record_if_done host files vault input deps r child.role
                      >> pure (summary_of child r))
                    (run_loop-Keeps (IsOfRun input) host.fs opts
                      (tools_for_role-Keeps (IsOfRun input) host child.role tools e)
                      (ChildrenKeep-some (IsOfRun input) _ (run_child-Keeps confinement levels)))
                    (λ r.
                      Keeps-bind (IsOfRun input)
                        (record_if_done host files vault input deps r child.role)
                        (λ _. pure (summary_of child r)) (record_if_done-Keeps r child.role)
                        (λ _ s'. IsLater-refl _ s'))
                    s))
        ]
      ]

  -- If the tools of the top run only add to the run's records where child runs do, so does the whole
  -- tree of runs, whatever it comes to: the trace, the failure packets and the artifact records that
  -- were handed over before stand in front, and the tree has spent no less. Each artifact record that
  -- came is of the run: under the run's workspace and ticket, of the kind that its path says, and not
  -- empty.
  pub governed-IsLater :
      (confinement : ConfinementProvider W) (s : Session W)
      → All (ToolKeeps (IsOfRun input)) deps.tools
      → IsLater (IsOfRun input) s (governed host files vault input deps confinement s).1
  unfolding governed root_options spawn_context
  governed-IsLater confinement s keeps =
      let below = run_child host files vault input deps spawn_levels confinement in
      let opts = root_options host files vault input deps confinement below in
      Keeps-bind (IsOfRun input) (run_loop host.fs opts)
        (λ r. record_if_done host files vault input deps r input.role >> pure r)
        (run_loop-Keeps (IsOfRun input) host.fs opts keeps
          (ChildrenKeep-some (IsOfRun input) _ (run_child-Keeps confinement spawn_levels)))
        (λ r.
          Keeps-bind (IsOfRun input) (record_if_done host files vault input deps r input.role)
            (λ _. pure r) (record_if_done-Keeps r input.role) (λ _ s'. IsLater-refl _ s'))
        s
