-- ===== src/Loop/Kept.antt =====
-- The loop of runtime/src/loop/run-loop.ts only adds to the run's records where its tools do.
use dream_team.Prelude.{
  ℕ, zero, suc, String, ◌≡◌, refl, inl, inr, true, not, ◌&&◌, Option, none, some, List, [], ◌∷◌,
  All, arith, leb, Bool, ◌-◌, Option-cases, Bool-cases,
}
use dream_team.Json.{Json}
use dream_team.Gate.Types.{GateDecision, permit, WorkspaceBoundary}
use dream_team.Gate.Decide.{gate}
use dream_team.Gate.Objects.{lookup}
use dream_team.Artifacts.Types.{ArtifactRecord}
use dream_team.Workspace.{Fs}
use dream_team.Effects.{◌>>=◌, ◌>>◌, pure, call, emit_trace, warn, M}
use dream_team.Effects.Later.{
  IsLater-refl, IsLater-world, Keeps, Keeps-bind, emit_trace-Keeps, Prefix-refl, Grown-refl,
  warn-Keeps,
}
use dream_team.Tools.Types.{ToolDef, SpawnContext, SpawnChildInput, ToolExecContext}
use dream_team.Loop.Types.{
  ToolUseBlock, RunLoopOptions, CreateMessageResponse, StopReason, end_turn, tool_use, pause_turn,
  max_tokens, RunResult, RunCost, ModelUsage,
}
use dream_team.Loop.Handle.{
  HandleDeps, tool_named, input_of, path_in, refuse, blocked_observation, exec_context, action_of,
  resolve_path, decide_and_run, handle_tool_use,
}
use dream_team.Loop.Events.{iteration_signature}
use dream_team.Loop.Halt.{HaltArgs, halt, halt_event}
use dream_team.Loop.Run.{
  Batch, LoopState, Next, again, return, handle_deps, spawn_context, event_of, add_call, run_calls,
  tool_uses, same_as, spend, hard_stop_usd, soft_warn_usd, max_orchestration_iterations,
}
use dream_team.Loop.Cost.{accumulate_cost, model_id, price_usd}
use dream_team.Loop.Calls.{tool_named-All}
use dream_team.Loop.Step.{
  finish, soft_warn, after_batch, dispatch, after_usage, round, step, proceed, iterate, run_loop,
  request_of, initial,
}

module _ {W : Type 0} (P : ArtifactRecord → Type 0) where
  abbrev pub ChildrenKeep : Option (SpawnContext W) → Type 0
  ChildrenKeep o =
      (sp : SpawnContext W) → o ≡ some sp → (child : SpawnChildInput) → Keeps P (sp.run_child child)

  -- Whatever it is given, the tool only adds to the run's records where child runs do.
  abbrev pub ToolKeeps : ToolDef W → Type 0
  ToolKeeps t =
      (input : Json) (ctx : ToolExecContext W)
      → ChildrenKeep ctx.spawn
      → Keeps P (t.execute input ctx)

  module _ (fs : Fs W) where
    resolve_path-Keeps : (o : Option String) (b : WorkspaceBoundary) → Keeps P (resolve_path fs o b)
    unfolding resolve_path
    resolve_path-Keeps none b s = IsLater-refl P s
    resolve_path-Keeps (some p) b s = IsLater-world P s _

    refuse-Keeps : (d : GateDecision) (o : Option String) → Keeps {W = W} P (refuse d o)
    unfolding refuse blocked_observation
    refuse-Keeps (permit t) o s = IsLater-refl P s
    refuse-Keeps _ o s = IsLater-refl P s

    decide_and_run-Keeps :
        (t : ToolDef W) (input : Json) (deps : HandleDeps W) (o : Option String) (d : GateDecision)
        → ToolKeeps t
        → ChildrenKeep deps.spawn
        → Keeps P (decide_and_run fs t input deps o d)
    unfolding decide_and_run
    decide_and_run-Keeps t input deps o (permit tier) keeps below s =
        Keeps-bind P (t.execute input (exec_context deps)) _ (keeps input (exec_context deps) below)
          (λ obs s'. IsLater-refl P s') s
    decide_and_run-Keeps t input deps o d keeps below s = refuse-Keeps d o s

    handle_tool_use-Keeps :
        (call : ToolUseBlock) (deps : HandleDeps W)
        → All ToolKeeps deps.tools
        → ChildrenKeep deps.spawn
        → Keeps P (handle_tool_use fs call deps)
    unfolding handle_tool_use
    handle_tool_use-Keeps call deps keeps below s =
        elim (Option-cases (tool_named deps.tools call.name)) [
          | inl absent ↦ rw (absent, handle_tool_use) (refuse-Keeps _ _ s)
          | inr (t, found) ↦
              rw (found, handle_tool_use)
                (Keeps-bind P
                  (resolve_path fs (path_in (input_of call.input) t.path_arg) deps.boundary)
                  (λ path.
                    decide_and_run fs t (input_of call.input) deps path
                      (gate (action_of t path) deps.ctx))
                  (resolve_path-Keeps _ deps.boundary)
                  (λ path.
                    decide_and_run-Keeps t _ deps path _
                      (tool_named-All ToolKeeps deps.tools call.name t keeps found) below)
                  s)
        ]

    module _ (opts : RunLoopOptions W) (keeps : All ToolKeeps opts.tools)
        (below : ChildrenKeep (spawn_context fs opts)) where
      run_calls-Keeps :
          (iteration : ℕ) (calls : List ToolUseBlock) (batch : Batch)
          → Keeps P (run_calls fs opts iteration calls batch)
      unfolding run_calls handle_deps
      run_calls-Keeps iteration [] batch s = IsLater-refl P s
      run_calls-Keeps iteration (c ∷ rest) batch s =
          Keeps-bind P (handle_tool_use fs c (handle_deps fs opts))
            (λ h.
              emit_trace (event_of fs opts iteration c h)
              >> run_calls fs opts iteration rest (add_call fs opts iteration c h batch))
            (handle_tool_use-Keeps c (handle_deps fs opts) keeps below)
            (λ h.
              Keeps-bind P (emit_trace (event_of fs opts iteration c h))
                (λ _. run_calls fs opts iteration rest (add_call fs opts iteration c h batch))
                (emit_trace-Keeps P (event_of fs opts iteration c h))
                (λ _. run_calls-Keeps iteration rest (add_call fs opts iteration c h batch)))
            s

      halt-Keeps : (args : HaltArgs) → Keeps P (halt opts args)
      unfolding halt
      halt-Keeps args s = record {
        spend = omega arith;
        trace = (halt_event opts.role args ∷ [], refl);
        packets = (_, refl);
        artifacts = Grown-refl P s.artifacts;
      }

      finish-Keeps : (st : LoopState) (args : HaltArgs) → Keeps P (finish fs opts st args)
      unfolding finish
      finish-Keeps st args =
          Keeps-bind P (halt opts args) _ (halt-Keeps args) (λ r s. IsLater-refl P s)

      after_batch-Keeps : (st : LoopState) (batch : Batch) → Keeps P (after_batch fs opts st batch)
      unfolding after_batch
      after_batch-Keeps st batch s =
          elim (Bool-cases (same_as st.prev_signature (iteration_signature batch.events))) [
            | inl same ↦ rw (same, after_batch) (finish-Keeps _ _ s)
            | inr other ↦ rw (other, after_batch) (IsLater-refl P s)
          ]

      dispatch-Keeps :
          (response : CreateMessageResponse) (reason : StopReason) (st : LoopState)
          → Keeps P (dispatch fs opts response reason st)
      unfolding dispatch
      dispatch-Keeps response end_turn st s = IsLater-refl P s
      dispatch-Keeps response tool_use st s =
          Keeps-bind P (run_calls fs opts st.iteration (tool_uses response.content) _) _
            (run_calls-Keeps st.iteration (tool_uses response.content) _)
            (λ batch. after_batch-Keeps st batch) s
      dispatch-Keeps response max_tokens st s = finish-Keeps st _ s
      dispatch-Keeps response pause_turn st s = IsLater-refl P s

      after_usage-Keeps :
          (response : CreateMessageResponse) (spent : ℕ) (st : LoopState)
          → Keeps P (after_usage fs opts response spent st)
      unfolding after_usage
      after_usage-Keeps response spent st s = elim (Bool-cases (leb hard_stop_usd spent)) [
        | inl over ↦ rw (over, after_usage) (finish-Keeps _ _ s)
        | inr under ↦ rw (under, after_usage) (dispatch-Keeps response response.stop_reason _ s)
      ]

      spend-Keeps : (delta : ℕ) → Keeps {W = W} P (spend delta)
      spend-Keeps delta s = record {
        spend = omega arith;
        trace = Prefix-refl s.trace;
        packets = Prefix-refl s.packets;
        artifacts = Grown-refl P s.artifacts;
      }

      soft_warn-Keeps : (spent : ℕ) (warned : Bool) → Keeps P (soft_warn fs opts spent warned)
      unfolding soft_warn
      soft_warn-Keeps spent warned s = elim (Bool-cases (not warned && leb soft_warn_usd spent)) [
        | inl due ↦
            rw (due, soft_warn)
              (Keeps-bind P (warn _) (λ _. pure true) (warn-Keeps P _) (λ _ s'. IsLater-refl P s')
                s)
        | inr quiet ↦ rw (quiet, soft_warn) (IsLater-refl P s)
      ]

      accumulate_cost-Keeps :
          (cost : RunCost) (usage : ModelUsage)
          → Keeps {W = W} P (accumulate_cost cost usage model_id)
      unfolding accumulate_cost price_usd lookup
      accumulate_cost-Keeps cost usage s = IsLater-refl P s

      -- The round from the usage on.
      priced-Keeps :
          (st : LoopState) (response : CreateMessageResponse) (cost : RunCost)
          → Keeps P (
              spend (cost.cost_usd - st.cost.cost_usd) >>= λ spent.
              soft_warn fs opts spent st.soft_warned >>= λ warned.
              after_usage fs opts response spent (record st { cost = cost; soft_warned = warned }))
      priced-Keeps st response cost =
          Keeps-bind P (spend (cost.cost_usd - st.cost.cost_usd))
            (λ spent. soft_warn fs opts spent st.soft_warned >>= λ warned.
              after_usage fs opts response spent (record st { cost = cost; soft_warned = warned }))
            (spend-Keeps (cost.cost_usd - st.cost.cost_usd))
            (λ spent.
              Keeps-bind P (soft_warn fs opts spent st.soft_warned)
                (λ warned.
                  after_usage fs opts response spent
                    (record st { cost = cost; soft_warned = warned }))
                (soft_warn-Keeps spent st.soft_warned)
                (λ warned.
                  after_usage-Keeps response spent
                    (record st { cost = cost; soft_warned = warned })))

      round-Keeps : (st : LoopState) → Keeps P (round fs opts st)
      unfolding round
      round-Keeps st =
          Keeps-bind P (call (opts.model_client.create_message (request_of fs opts st))) _
            (λ s. IsLater-world P s _)
            (λ response.
              Keeps-bind P (accumulate_cost st.cost response.usage model_id) _
                (accumulate_cost-Keeps st.cost response.usage) (priced-Keeps st response))

      step-Keeps : (st : LoopState) → Keeps P (step fs opts st)
      unfolding step
      step-Keeps st s = elim (Bool-cases (leb max_orchestration_iterations st.iteration)) [
        | inl capped ↦ rw (capped, step) (finish-Keeps _ _ s)
        | inr below_cap ↦ rw (below_cap, step) (round-Keeps st s)
      ]

      proceed-Keeps :
          (loop : LoopState → M W RunResult) (next : Next)
          → ((st : LoopState) → Keeps P (loop st))
          → Keeps P (proceed fs opts loop next)
      unfolding proceed
      proceed-Keeps loop (again st) h s = h st s
      proceed-Keeps loop (return r) h s = IsLater-refl P s

      iterate-Keeps : (fuel : ℕ) (st : LoopState) → Keeps P (iterate fs opts fuel st)
      unfolding iterate
      iterate-Keeps zero st s = IsLater-refl P s
      iterate-Keeps (suc fuel) st s =
          Keeps-bind P (step fs opts st) (proceed fs opts (iterate fs opts fuel)) (step-Keeps st)
            (λ next. proceed-Keeps (iterate fs opts fuel) next (iterate-Keeps fuel)) s

      -- If its tools and its child runs only add to the run's records, so does a run of the loop.
      pub run_loop-Keeps : Keeps P (run_loop fs opts)
      unfolding run_loop
      run_loop-Keeps = iterate-Keeps (suc max_orchestration_iterations) (initial fs opts)
