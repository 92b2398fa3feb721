-- ===== src/Loop/Halted.antt =====
-- What halt of runtime/src/loop/run-loop.ts leaves, as the terminal states ask.
use dream_team.Prelude.{
  ℕ, ◌≤◌, String, ◌≡◌, ◌≢◌, refl, ap, sym, true, false, Option, none, some, [], ◌∷◌, ◌++◌, arith,
  eq_iff,
}
use dream_team.Packets.Types.{FailureType}
use dream_team.Workspace.{Fs}
use dream_team.Effects.{Session}
use dream_team.Effects.Outcome.{After}
use dream_team.Loop.Types.{RunState, terminated_loop_detected, RunResult, RunLoopOptions}
use dream_team.Loop.Halt.{HaltArgs, halt, halt_event, halt_packet}
use dream_team.Loop.Run.{max_orchestration_iterations, LoopState, same_as}
use dream_team.Loop.Calls.{executed, executed-append}
use dream_team.Loop.History.{Ending, IsHalted, Ends, IsStep, Repeats}
use dream_team.Loop.Step.{halt_args, finish}

pub same_as-false :
    (o : Option String) (signature : String) → same_as o signature ≡ false → o ≢ some signature
same_as-false none signature h e = cc
same_as-false (some previous) signature h e = ground (arith, eq_iff signature previous)

pub same_as-true :
    (o : Option String) (signature : String) → same_as o signature ≡ true → o ≡ some signature
same_as-true none signature h = cc
same_as-true (some previous) signature h = ap some (sym ((eq_iff signature previous).0 h))

module _ {W : Type 0} (D : Type 0) (fs : Fs W) (opts : RunLoopOptions W) where
  -- What a halt leaves, before its terminal state is looked at.
  abbrev pub halted : HaltArgs → RunResult
  halted args = record {
    state = args.state;
    messages = args.messages;
    iterations = args.iteration;
    cost = args.cost;
    trace_events = args.trace_events ++ halt_event opts.role args ∷ [];
    failure = some (
        halt_packet opts.role opts.system args
          (args.trace_events ++ halt_event opts.role args ∷ []));
    plan = args.plan;
  }

  abbrev pub after_halt : HaltArgs → Session W → Session W
  after_halt args s = record s {
    trace = s.trace ++ halt_event opts.role args ∷ [];
    packets =
        s.packets
        ++ halt_packet opts.role opts.system args
            (args.trace_events ++ halt_event opts.role args ∷ [])
          ∷ [];
  }

  pub halted-IsHalted :
      (args : HaltArgs) (s : Session W)
      → IsHalted opts.role args.failure_type args.detail (halted args) (after_halt args s)
  halted-IsHalted args s = record {
    packet = _;
    carried = refl;
    typed = refl;
    told = refl;
    traced = refl;
    before = s.packets;
    emitted = refl;
    closing = halt_event opts.role args;
    halting = refl;
    events = args.trace_events;
    marked = refl;
    before_closing = s.trace;
    traced_last = refl;
  }

  -- A halt of the loop at variables whose conversation has ended.
  pub finish-IsResult :
      (st₀ st : LoopState) (state : RunState) (type : FailureType) (detail : String) (s : Session W)
      (n : ℕ)
      → Ending opts.messages st.messages n
      → executed st.trace_events ≡ n
      → st.iteration ≤ max_orchestration_iterations
      → Ends opts.role state
          (halted (halt_args state type detail st))
          (after_halt (halt_args state type detail st) s)
      → (state ≡ terminated_loop_detected
          → Repeats opts st₀ (halted (halt_args state type detail st)))
      → After D (IsStep opts st₀) (finish fs opts st (halt_args state type detail st)) s
  unfolding finish halt
  finish-IsResult st₀ st state type detail s n history counted bounded ends repeated = (
    record {
      calls = n;
      history = history;
      counted = omega (
        arith,
        executed-append st.trace_events
            (halt_event opts.role (halt_args state type detail st) ∷ []),
      );
      bounded = bounded;
      ends = ends;
    },
    repeated,
  )
