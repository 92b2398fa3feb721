-- ===== src/Loop/Calls.antt =====
-- What one tool call, and a batch of them, does in runtime/src/loop/run-loop.ts.
use dream_team.Prelude.{
  ℕ, suc, ◌+◌, ◌≤◌, String, ◌≡◌, refl, sym, ap, subst, ◌∙◌, inl, inr, true, false, Option, none,
  some, List, [], ◌∷◌, ◌++◌, map, length, length-append, All, arith, str_eq, if◌then◌else◌,
  Option-cases, Bool-cases,
}
use mathlib.Core.List.{map-append, append_assoc, append-nil}
use dream_team.Json.{Json}
use dream_team.Gate.Types.{GateDecision, permit, blocked_scope, WorkspaceBoundary}
use dream_team.Gate.Decide.{gate}
use dream_team.Gate.Policy.{IsPermit}
use dream_team.Workspace.{Fs}
use dream_team.Effects.{Session, ok, ◌>>◌, pure, emit_trace}
use dream_team.Effects.Outcome.{After, After-bind, After-bind_run, After-mono}
use dream_team.Trace.{TraceEvent, tool_executed, run_halted}
use dream_team.Tools.Types.{ToolDef, ToolExecContext, SpawnContext, SpawnChildInput}
use dream_team.Tools.Spawn.{max_spawn_depth}
use dream_team.Loop.Types.{ToolUseBlock, ToolResultBlock, RunLoopOptions}
use dream_team.Loop.Handle.{
  HandleDeps, Handled, later_or, tool_named, input_of, path_in, refuse, blocked_observation,
  exec_context, action_of, resolve_path, decide_and_run, handle_tool_use,
}
use dream_team.Loop.Events.{build_trace_event}
use dream_team.Loop.Run.{Batch, handle_deps, spawn_context, event_of, add_call, run_calls}

-- A child run one level deeper, within the depth cap, returns or throws, if `D` is empty.
abbrev pub ChildrenLast : {W : Type 0} → Type 0 → Option (SpawnContext W) → Type 0
ChildrenLast {W} D o =
    (sp : SpawnContext W)
    → o ≡ some sp
    → (child : SpawnChildInput) (s : Session W) → child.depth ≡ sp.depth + 1
    → child.depth ≤ max_spawn_depth
    → After D (λ _ _. Unit) (sp.run_child child) s

-- Whatever a tool is given, it returns or throws where child runs do, if `D` is empty.
abbrev pub Lasts : {W : Type 0} → Type 0 → ToolDef W → Type 0
Lasts {W} D t =
    (input : Json) (ctx : ToolExecContext W) (s : Session W)
    → ChildrenLast D ctx.spawn
    → After D (λ _ _. Unit) (t.execute input ctx) s

-- The tools of a run return or throw, and so do its child runs.
abbrev pub RunLasts : {W : Type 0} → Type 0 → Fs W → RunLoopOptions W → Type 0
RunLasts D fs opts = All (Lasts D) opts.tools × ChildrenLast D (spawn_context fs opts)

-- What holds of both of two answers holds of the one taken.
later_or-holds :
    {A : Type 0} (P : A → Type 0) (o o' : Option A) {a : A}
    → ((b : A) → o ≡ some b → P b)
    → ((b : A) → o' ≡ some b → P b)
    → later_or o o' ≡ some a
    → P a
later_or-holds P (some b) o' h k e = h _ e
later_or-holds P none o' h k e = k _ e

named :
    {W : Type 0} (u b : ToolDef W) (name : String)
    → (if str_eq u.name name then some u else none) ≡ some b
    → u ≡ b
named u b name f = elim (Bool-cases (str_eq u.name name)) [
  | inl same ↦ cc (rw same at f)
  | inr other ↦ cc (rw other at f)
]

pub tool_named-All :
    {W : Type 0} (P : ToolDef W → Type 0) (tools : List (ToolDef W)) (name : String) (t : ToolDef W)
    → All P tools
    → tool_named tools name ≡ some t
    → P t
unfolding tool_named
tool_named-All P [] name t h e = cc
tool_named-All P (u ∷ tools) name t (p, h) e =
    later_or-holds P (tool_named tools name) _ (λ b. tool_named-All P tools name b h)
      (λ b f. subst P (named u b name f) p) e

-- The state's parts that the loop itself writes are as they were.
pub record IsQuiet {W : Type 0} (s s' : Session W) : Type 0 where
  pub tree_spend : s'.tree_spend ≡ s.tree_spend
  pub trace : s'.trace ≡ s.trace
  pub packets : s'.packets ≡ s.packets
  pub artifacts : s'.artifacts ≡ s.artifacts
  pub warnings : s'.warnings ≡ s.warnings

module _ {W : Type 0} (call : ToolUseBlock) (deps : HandleDeps W) where
  -- A call is answered by the tool of its name under a permit of the gate, or by a refusal that has
  -- run nothing.
  pub record IsHandled (s : Session W) (h : Handled) (s' : Session W) : Type 0 where
    pub permitted :
        IsPermit h.decision
        → (t : ToolDef W) × (tool_named deps.tools call.name ≡ some t)
          × (gate (action_of t h.resolved_path) deps.ctx ≡ h.decision)
          × ((s₁ : Session W) × IsQuiet s s₁
              × (t.execute (input_of call.input) (exec_context deps) s₁ ≡ (ok h.observation, s')))
    pub blocked :
        ¬ (IsPermit h.decision)
        → (h.observation.ok ≡ false) × (h.observation.is_error ≡ true) × IsQuiet s s'

IsQuiet-refl : {W : Type 0} (s : Session W) → IsQuiet s s
IsQuiet-refl s = record {
  tree_spend = refl;
  trace = refl;
  packets = refl;
  artifacts = refl;
  warnings = refl;
}

module _ {W : Type 0} (D : Type 0) (fs : Fs W) where
  resolve_path-IsQuiet :
      (o : Option String) (b : WorkspaceBoundary) (s : Session W)
      → After D (λ _ s'. IsQuiet s s') (resolve_path fs o b) s
  unfolding resolve_path
  resolve_path-IsQuiet none b s = IsQuiet-refl s
  resolve_path-IsQuiet (some p) b s = record {
    tree_spend = refl;
    trace = refl;
    packets = refl;
    artifacts = refl;
    warnings = refl;
  }

  refuse-IsHandled :
      (call : ToolUseBlock) (deps : HandleDeps W) (d : GateDecision) (o : Option String)
      (s s' : Session W)
      → ¬ (IsPermit d)
      → IsQuiet s s'
      → After D (λ h s''. IsHandled call deps s h s'') (refuse d o) s'
  unfolding refuse blocked_observation
  refuse-IsHandled call deps (permit t) o s s' n q = absurd (n tt)
  refuse-IsHandled call deps (blocked_scope r) o s s' n q = record {
    permitted = λ p. absurd (n p);
    blocked = λ _. (refl, refl, q);
  }
  refuse-IsHandled call deps _ o s s' n q = record {
    permitted = λ p. absurd (n p);
    blocked = λ _. (refl, refl, q);
  }

  module _ (call : ToolUseBlock) (deps : HandleDeps W) (s : Session W) where
    decide_and_run-IsHandled :
        (t : ToolDef W) (o : Option String) (d : GateDecision) (s' : Session W)
        → Lasts D t
        → ChildrenLast D deps.spawn
        → tool_named deps.tools call.name ≡ some t
        → gate (action_of t o) deps.ctx ≡ d
        → IsQuiet s s'
        → After D
            (λ h s''. IsHandled call deps s h s'')
            (decide_and_run fs t (input_of call.input) deps o d)
            s'
    unfolding decide_and_run
    decide_and_run-IsHandled t o (permit tier) s' last below found gated q =
        After-bind_run D (λ h s''. IsHandled call deps s h s'')
          (t.execute (input_of call.input) (exec_context deps))
          (λ obs. pure (record { observation = obs; decision = permit tier; resolved_path = o })) s'
          (last _ _ s' below)
          (λ obs s'' e. record {
            permitted = λ _. (t, found, gated, (s', q, e));
            blocked = λ n. absurd (n tt);
          })
    decide_and_run-IsHandled t o d s' last below found gated q =
        refuse-IsHandled call deps d o s s' (λ p. absurd p) q

    -- A tool call runs its tool under a permit of the gate, for this tool, path and context, or it
    -- answers with a refusal that is marked as an error and leaves the run's records and its spend
    -- as they were.
    pub handle_tool_use-IsHandled :
        All (Lasts D) deps.tools
        → ChildrenLast D deps.spawn
        → After D (λ h s'. IsHandled call deps s h s') (handle_tool_use fs call deps) s
    unfolding handle_tool_use
    handle_tool_use-IsHandled lasts below = elim (Option-cases (tool_named deps.tools call.name)) [
      | inl absent ↦
          rw (absent, handle_tool_use)
            (refuse-IsHandled call deps (blocked_scope _) none s s (λ p. absurd p) (IsQuiet-refl s))
      | inr (t, found) ↦
          let last = tool_named-All (Lasts D) deps.tools call.name t lasts found in
          let o = path_in (input_of call.input) t.path_arg in
          rw (found, handle_tool_use)
            (After-bind D (λ h s'. IsHandled call deps s h s') (λ _ s'. IsQuiet s s')
              (resolve_path fs o deps.boundary)
              (λ path.
                decide_and_run fs t (input_of call.input) deps path
                  (gate (action_of t path) deps.ctx))
              s (resolve_path-IsQuiet o deps.boundary s)
              (λ path s' q. decide_and_run-IsHandled t path _ s' last below found refl q))
    ]

-- What a batch adds to the one before: an event and a result for each call, in order.
abbrev pub ids : List ToolResultBlock → List String
ids rs = map (λ (r : ToolResultBlock). r.tool_use_id) rs

abbrev pub call_ids : List ToolUseBlock → List String
call_ids bs = map (λ (b : ToolUseBlock). b.id) bs

-- The number of tool.executed events.
abbrev pub executed : List TraceEvent → ℕ
executed [] = 0
executed (tool_executed from to p ∷ es) = suc (executed es)
executed (run_halted from to p ∷ es) = executed es

pub executed-append : (es fs : List TraceEvent) → executed (es ++ fs) ≡ executed es + executed fs
executed-append [] fs = omega arith
executed-append (tool_executed from to p ∷ es) fs = omega (arith, executed-append es fs)
executed-append (run_halted from to p ∷ es) fs = executed-append es fs

-- Each of a list of events is a tool.executed event.
abbrev pub AllExecuted : List TraceEvent → Type 0
AllExecuted es = length es ≡ executed es

pub record Extends (calls : List ToolUseBlock) (old new : Batch) : Type 0 where
  pub results : ids new.results ≡ ids old.results ++ call_ids calls
  pub events : executed new.events ≡ executed old.events + length calls
  pub all_events : length new.events ≡ length old.events + length calls

module _ {W : Type 0} (D : Type 0) (fs : Fs W) (opts : RunLoopOptions W) (iteration : ℕ) where
  Extends-cons :
      (call : ToolUseBlock) (rest : List ToolUseBlock) (h : Handled) (batch new : Batch)
      → Extends rest (add_call fs opts iteration call h batch) new
      → Extends (call ∷ rest) batch new
  unfolding add_call build_trace_event
  Extends-cons call rest h batch new e = record {
    results =
        e.results
        ∙ ap (λ l. l ++ call_ids rest) (map-append _ batch.results _)
        ∙ append_assoc (ids batch.results) (call.id ∷ []) (call_ids rest);
    events =
        omega
          (arith, e.events, executed-append batch.events (event_of fs opts iteration call h ∷ []));
    all_events =
        omega (
          arith,
          e.all_events,
          length-append batch.events (event_of fs opts iteration call h ∷ []),
        );
  }

  -- A batch of calls yields one tool.executed event and one tool result for each call, the results
  -- under the calls' ids and in their order.
  pub run_calls-Extends :
      RunLasts D fs opts
      → (calls : List ToolUseBlock) (batch : Batch) (s : Session W)
      → After D (λ new _. Extends calls batch new) (run_calls fs opts iteration calls batch) s
  unfolding run_calls handle_deps
  run_calls-Extends lasts [] batch s = record {
    results = sym (append-nil _);
    events = omega arith;
    all_events = omega arith;
  }
  run_calls-Extends lasts (call ∷ rest) batch s =
      After-bind D (λ new _. Extends (call ∷ rest) batch new)
        (λ h s'. IsHandled call (handle_deps fs opts) s h s')
        (handle_tool_use fs call (handle_deps fs opts))
        (λ h.
          emit_trace (event_of fs opts iteration call h)
          >> run_calls fs opts iteration rest (add_call fs opts iteration call h batch))
        s (handle_tool_use-IsHandled D fs call (handle_deps fs opts) s lasts.0 lasts.1)
        (λ h s' _.
          let s'' = record s' { trace = s'.trace ++ event_of fs opts iteration call h ∷ [] } in
          After-mono D (λ new _. Extends rest (add_call fs opts iteration call h batch) new)
            (λ new _. Extends (call ∷ rest) batch new)
            (run_calls fs opts iteration rest (add_call fs opts iteration call h batch)) s''
            (run_calls-Extends lasts rest (add_call fs opts iteration call h batch) s'')
            (λ new _ e. Extends-cons call rest h batch new e))
