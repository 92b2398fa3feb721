-- ===== src/Loop/Rounds.antt =====
-- Each round of runLoop in runtime/src/loop/run-loop.ts keeps the invariant or ends the run as the
-- contracts ask.
use dream_team.Prelude.{
  ◌+◌, ◌-◌, ◌<◌, ◌≡◌, refl, ap, subst, Bool, not, ◌&&◌, some, List, [], ◌∷◌, ◌++◌, length,
  length-append, arith, leb, leb→le, leb-false→lt, Bool-cases, inl, inr,
}
use dream_team.Packets.Types.{timeout, scope_exceeded, execution_error}
use dream_team.Workspace.{Fs}
use dream_team.Effects.{Session, pure, call}
use dream_team.Effects.Outcome.{After, After-bind, After-if, After-call}
use dream_team.Loop.Types.{
  StopReason, end_turn, tool_use, pause_turn, max_tokens, CreateMessageResponse,
  terminated_iteration_cap, terminated_loop_detected, terminated_budget, terminated_max_tokens,
  RunLoopOptions, ContentBlock, LoopMessage,
}
use dream_team.Loop.Halt.{halt_event}
use dream_team.Loop.Run.{
  max_orchestration_iterations, hard_stop_usd, LoopState, again, Batch, tool_uses, run_calls,
  soft_warn_usd, same_as,
}
use dream_team.Loop.Calls.{RunLasts, executed, executed-append, Extends, run_calls-Extends}
use dream_team.Loop.History.{
  Transcript, exchange, answered, unanswered, IsSound, IsStep, assistant_turn, results_turn,
}
use dream_team.Loop.Cost.{accumulate_cost, add_cost}
use dream_team.Loop.Events.{iteration_signature}
use dream_team.Loop.Step.{
  halt_args, finish, request_of, soft_warn, after_batch, dispatch, after_usage, round, step,
  loop_detected_detail, max_tokens_detail, budget_detail, iteration_limit_detail,
}
use dream_team.Loop.Halted.{halted-IsHalted, finish-IsResult, same_as-false, same_as-true}

module _ {W : Type 0} (D : Type 0) (fs : Fs W) (opts : RunLoopOptions W) where
  module _ (st₀ : LoopState) where
    after_batch-IsStep :
        (st : LoopState) (content : List ContentBlock) (ms : List LoopMessage) (batch : Batch)
        (s : Session W)
        → (sound : IsSound opts (record st { messages = ms }))
        → st.messages ≡ ms ++ assistant_turn content ∷ []
        → st.iteration < max_orchestration_iterations
        → st.iteration ≡ st₀.iteration
        → st.prev_signature ≡ st₀.prev_signature
        → st.trace_events ≡ st₀.trace_events
        → Extends (tool_uses content) (record { plan = st.plan; events = []; results = [] }) batch
        → After D (IsStep opts st₀) (after_batch fs opts st batch) s
    unfolding after_batch
    after_batch-IsStep st content ms batch s sound turn below same kept told ext =
        let signature = iteration_signature batch.events in
        let next : LoopState = record st {
          messages = st.messages ++ results_turn batch.results ∷ [];
          trace_events = st.trace_events ++ batch.events;
          plan = batch.plan;
        } in
        let calls = sound.calls + length (tool_uses content) in
        let history : Transcript opts.messages next.messages calls =
          exchange sound.history content batch.results ext.results
            (ap (λ l. l ++ results_turn batch.results ∷ []) turn) refl in
        let counted : executed next.trace_events ≡ calls =
          omega (arith, executed-append st.trace_events batch.events, ext.events, sound.counted) in
        let plain : length next.trace_events ≡ calls =
          omega (arith, length-append st.trace_events batch.events, ext.all_events, sound.plain) in
        After-if D (IsStep opts st₀) (same_as st.prev_signature signature)
          (finish fs opts next
            (halt_args terminated_loop_detected timeout loop_detected_detail next))
          (pure (
            again
              (record next { prev_signature = some signature; iteration = next.iteration + 1 })))
          s
          (λ repeat.
            finish-IsResult D fs opts st₀ next terminated_loop_detected timeout loop_detected_detail
              s calls (answered history) counted (omega arith)
              (halted-IsHalted D fs opts
                (halt_args terminated_loop_detected timeout loop_detected_detail next) s)
              (λ _. (
                batch.events,
                halt_event opts.role
                    (halt_args terminated_loop_detected timeout loop_detected_detail next),
                ap
                    (λ l.
                      (l ++ batch.events)
                      ++ halt_event opts.role
                          (halt_args terminated_loop_detected timeout loop_detected_detail next)
                        ∷ [])
                    told,
                rw (← kept) (same_as-true st.prev_signature signature repeat),
              )))
          (λ fresh. (
            record {
              calls = calls;
              history = history;
              counted = counted;
              plain = plain;
              bounded = omega arith;
            },
            omega arith,
            (
              batch.events,
              ap (λ l. l ++ batch.events) told,
              refl,
              rw (← kept) (same_as-false st.prev_signature signature fresh),
            ),
          ))

    dispatch-IsStep :
        (lasts : RunLasts D fs opts) (response : CreateMessageResponse) (reason : StopReason)
        (st : LoopState) (ms : List LoopMessage) (s : Session W)
        → (sound : IsSound opts (record st { messages = ms }))
        → st.messages ≡ ms ++ assistant_turn response.content ∷ []
        → st.iteration < max_orchestration_iterations
        → st.iteration ≡ st₀.iteration
        → st.prev_signature ≡ st₀.prev_signature
        → st.trace_events ≡ st₀.trace_events
        → s.tree_spend < hard_stop_usd
        → After D (IsStep opts st₀) (dispatch fs opts response reason st) s
    unfolding dispatch
    dispatch-IsStep lasts response end_turn st ms s sound turn below same kept told room = (
      record {
        calls = sound.calls;
        history = unanswered ms sound.history response.content turn;
        counted = sound.counted;
        bounded = sound.bounded;
        ends = (refl, room);
      },
      λ e. cc e,
    )
    dispatch-IsStep lasts response tool_use st ms s sound turn below same kept told room =
        let start : Batch = record { plan = st.plan; events = []; results = [] } in
        After-bind D (IsStep opts st₀) (λ batch _. Extends (tool_uses response.content) start batch)
          (run_calls fs opts st.iteration (tool_uses response.content) start)
          (after_batch fs opts st) s
          (run_calls-Extends D fs opts st.iteration lasts (tool_uses response.content) start s)
          (λ batch s' ext.
            after_batch-IsStep st response.content ms batch s' sound turn below same kept told ext)
    dispatch-IsStep lasts response max_tokens st ms s sound turn below same kept told room =
        let args = halt_args terminated_max_tokens execution_error max_tokens_detail st in
        finish-IsResult D fs opts st₀ st terminated_max_tokens execution_error max_tokens_detail s
          sound.calls (unanswered ms sound.history response.content turn) sound.counted
          sound.bounded (halted-IsHalted D fs opts args s, room) (λ e. cc e)
    dispatch-IsStep lasts response pause_turn st ms s sound turn below same kept told room = tt

    after_usage-IsStep :
        (lasts : RunLasts D fs opts) (response : CreateMessageResponse) (st : LoopState)
        (s : Session W)
        → (sound : IsSound opts st) → st.iteration < max_orchestration_iterations
        → st.iteration ≡ st₀.iteration
        → st.prev_signature ≡ st₀.prev_signature
        → st.trace_events ≡ st₀.trace_events
        → After D (IsStep opts st₀) (after_usage fs opts response s.tree_spend st) s
    unfolding after_usage
    after_usage-IsStep lasts response st s sound below same kept told =
        let detail = budget_detail s.tree_spend in
        let args = halt_args terminated_budget scope_exceeded detail st in
        After-if D (IsStep opts st₀) (leb hard_stop_usd s.tree_spend) (finish fs opts st args)
          (dispatch fs opts response response.stop_reason
            (record st { messages = st.messages ++ assistant_turn response.content ∷ [] }))
          s
          (λ over.
            finish-IsResult D fs opts st₀ st terminated_budget scope_exceeded detail s sound.calls
              (answered sound.history) sound.counted sound.bounded
              (halted-IsHalted D fs opts args s, leb→le hard_stop_usd s.tree_spend over)
              (λ e. cc e))
          (λ within.
            dispatch-IsStep lasts response response.stop_reason
              (record st { messages = st.messages ++ assistant_turn response.content ∷ [] })
              st.messages s sound refl below same kept told
              (leb-false→lt hard_stop_usd s.tree_spend within))

  soft_warn-spent :
      (warned : Bool) (s : Session W)
      → After D (λ _ s'. s'.tree_spend ≡ s.tree_spend) (soft_warn fs opts s.tree_spend warned) s
  unfolding soft_warn
  soft_warn-spent warned s = elim (Bool-cases (not warned && leb soft_warn_usd s.tree_spend)) [
    | inl warn ↦ rw (warn, soft_warn) refl
    | inr calm ↦ rw (calm, soft_warn) refl
  ]

  round-IsStep :
      (lasts : RunLasts D fs opts) (st : LoopState) (s : Session W)
      → IsSound opts st
      → st.iteration < max_orchestration_iterations
      → After D (IsStep opts st) (round fs opts st) s
  unfolding round accumulate_cost
  round-IsStep lasts st s sound below =
      After-bind D (IsStep opts st) (λ _ _. Unit)
        (call (opts.model_client.create_message (request_of fs opts st))) _ s
        (After-call D (λ _ _. Unit) (opts.model_client.create_message (request_of fs opts st)) s
          (λ _. tt))
        (λ response s₁ _.
          let cost = add_cost st.cost response.usage (record { in_per_m = 5; out_per_m = 25 }) in
          let spent = s₁.tree_spend + (cost.cost_usd - st.cost.cost_usd) in
          let s₂ : Session W = record s₁ { tree_spend = spent } in
          After-bind D (IsStep opts st) (λ _ s'. s'.tree_spend ≡ spent)
            (soft_warn fs opts spent st.soft_warned)
            (λ warned.
              after_usage fs opts response spent (record st { cost = cost; soft_warned = warned }))
            s₂ (soft_warn-spent st.soft_warned s₂)
            (λ warned s₃ same.
              let st' : LoopState = record st { cost = cost; soft_warned = warned } in
              let kept : IsSound opts st' = record {
                calls = sound.calls;
                history = sound.history;
                counted = sound.counted;
                plain = sound.plain;
                bounded = sound.bounded;
              } in
              subst (λ x. After D (IsStep opts st) (after_usage fs opts response x st') s₃) same
                (after_usage-IsStep st lasts response st' s₃ kept below refl refl refl)))

  -- If every tool and every child run returns or throws where child runs do, a round keeps the
  -- loop's invariant, with one more iteration and the events of one batch more, where the signature
  -- of exactly this batch is kept and differs from the one kept before; or it ends the run with a
  -- result as its terminal state asks, and with a detected loop only where the signature of this
  -- round's batch is the one kept before.
  pub step-IsStep :
      (lasts : RunLasts D fs opts) (st : LoopState) (s : Session W)
      → IsSound opts st
      → After D (IsStep opts st) (step fs opts st) s
  unfolding step
  step-IsStep lasts st s sound =
      let args = halt_args terminated_iteration_cap timeout iteration_limit_detail st in
      After-if D (IsStep opts st) (leb max_orchestration_iterations st.iteration)
        (finish fs opts st args) (round fs opts st) s
        (λ full.
          finish-IsResult D fs opts st st terminated_iteration_cap timeout iteration_limit_detail s
            sound.calls (answered sound.history) sound.counted sound.bounded
            (
              halted-IsHalted D fs opts args s,
              omega (arith, leb→le 15 st.iteration full, sound.bounded),
            )
            (λ e. cc e))
        (λ unfull. round-IsStep lasts st s sound (leb-false→lt 15 st.iteration unfull))
