-- ===== src/Loop/Results.antt =====
-- What a whole run of runLoop in runtime/src/loop/run-loop.ts guarantees.
use dream_team.Prelude.{ℕ, zero, suc, ◌+◌, ◌≤◌, ◌<◌, ◌≡◌, refl, arith}
use dream_team.Workspace.{Fs}
use dream_team.Effects.{Session, M}
use dream_team.Effects.Outcome.{After, After-bind, After-mono}
use dream_team.Loop.Types.{RunResult, RunLoopOptions}
use dream_team.Loop.Run.{max_orchestration_iterations, LoopState, Next, again, return}
use dream_team.Loop.Calls.{RunLasts, executed}
use dream_team.Loop.History.{begin, Ending, Ends, IsSound, IsResult, IsStep}
use dream_team.Loop.Step.{step, proceed, iterate, initial, run_loop}
use dream_team.Loop.Rounds.{step-IsStep}

module _ {W : Type 0} (D : Type 0) (fs : Fs W) (opts : RunLoopOptions W)
    (lasts : RunLasts D fs opts) where
  proceed-IsResult :
      (loop : LoopState → M W RunResult) (st : LoopState) (n : Next) (s : Session W)
      → IsStep opts st n s
      → ((st' : LoopState)
          → IsSound opts st'
          → st'.iteration ≡ suc st.iteration
          → After D (IsResult opts) (loop st') s)
      → After D (IsResult opts) (proceed fs opts loop n) s
  unfolding proceed
  proceed-IsResult loop st (again st') s (sound, more, fresh) k = k st' sound more
  proceed-IsResult loop st (return r) s (h, _) k = h

  -- Fuel above the rounds that the cap leaves is enough.
  iterate-IsResult :
      (fuel : ℕ) (st : LoopState) (s : Session W)
      → IsSound opts st
      → max_orchestration_iterations < fuel + st.iteration
      → After D (IsResult opts) (iterate fs opts fuel st) s
  unfolding iterate
  iterate-IsResult zero st s sound enough = absurd (omega (arith, sound.bounded))
  iterate-IsResult (suc fuel) st s sound enough =
      After-bind D (IsResult opts) (IsStep opts st) (step fs opts st)
        (proceed fs opts (iterate fs opts fuel)) s (step-IsStep D fs opts lasts st s sound)
        (λ n s' h.
          proceed-IsResult (iterate fs opts fuel) st n s' h
            (λ st' sound' more. iterate-IsResult fuel st' s' sound' (omega arith)))

  pub run_loop-IsResult : (s : Session W) → After D (IsResult opts) (run_loop fs opts) s
  unfolding run_loop
  run_loop-IsResult s =
      iterate-IsResult (suc max_orchestration_iterations) (initial fs opts) s
        (record {
          calls = 0;
          history = begin refl refl;
          counted = refl;
          plain = refl;
          bounded = omega arith;
        })
        (omega arith)

module _ {W : Type 0} (fs : Fs W) (opts : RunLoopOptions W) (lasts : RunLasts ⊥ fs opts) where
  -- If every tool returns or throws where child runs do, and child runs do, so does a run of the
  -- loop: the fuel is enough. A run that returns as done carries no failure, and the tree's spend
  -- is below the hard stop. One that halts carries, and has emitted last, a failure packet with the
  -- cause and the detail of the halt and with the whole trace. The trace ends with the event of the
  -- halt, from the run's role to the runtime, with the same cause and detail and the run's
  -- iterations and cost, and that event is the last one emitted. The cause is timeout at the cap of
  -- 15 iterations and at a detected loop, scope_exceeded where the tree's spend has reached the
  -- hard stop, and execution_error, with the spend below the hard stop, where the answer was
  -- truncated.
  pub run_loop-Ends :
      (s : Session W) → After ⊥ (λ r s'. Ends opts.role r.state r s') (run_loop fs opts) s
  run_loop-Ends s =
      After-mono ⊥ (IsResult opts) (λ r s'. Ends opts.role r.state r s') (run_loop fs opts) s
        (run_loop-IsResult ⊥ fs opts lasts s) (λ r s' h. h.ends)

  -- If every tool and every child run returns or throws, a run that returns has made at most 15 iterations; its
  -- conversation is the seed and then exchanges, each an assistant turn and one turn of tool results
  -- with a result for each tool_use block, under its id and in order, where at most the last
  -- assistant turn is not answered; and its trace holds exactly one tool.executed event for each
  -- tool call answered.
  pub run_loop-Ending :
      (s : Session W)
      → After ⊥
          (λ r s'.
            (calls : ℕ) × Ending opts.messages r.messages calls
            × (executed r.trace_events ≡ calls)
            × (r.iterations ≤ max_orchestration_iterations))
          (run_loop fs opts)
          s
  run_loop-Ending s =
      After-mono ⊥ (IsResult opts) _ (run_loop fs opts) s (run_loop-IsResult ⊥ fs opts lasts s)
        (λ r s' h. (h.calls, h.history, h.counted, h.bounded))
