-- ===== src/Loop/Events.antt =====
-- The trace events that runtime/src/loop/run-loop.ts builds, the signature of an iteration, and the
-- content of a tool result.
use Prim.Native.Nat.{bit_xor}
use Prim.Native.Char.{code}
use dream_team.Prelude.{
  ℕ, ◌+◌, ◌-◌, ◌*◌, ◌/◌, ◌%◌, ◌^◌, String, Option, none, some, List, [], ◌∷◌, ◌++◌, concat, join,
  to_radix, pad_zeros, or_else, ltb, if◌then◌else◌,
}
use dream_team.Json.{Json, str, end, field, spread, stringify, obj}
use dream_team.Gate.Types.{
  Tier, t1, t2, Capability, w, GateDecision, permit, blocked_with_path, blocked_hard, blocked_scope,
  tier_name, capability_name,
}
use dream_team.Trace.{TraceVerdict, pass, block, error, TraceEvent, tool_executed, run_halted}
use dream_team.Tools.Types.{ToolObservation, ToolDef}
use dream_team.Loop.Types.{ToolUseBlock}

abbrev pub runtime_agent : String
runtime_agent = "runtime"

-- `JSON.stringify({ summary, ...data })`
unfoldable pub tool_result_content : ToolObservation → String
tool_result_content obs =
    stringify (obj (spread (field "summary" (str obs.summary) end) (or_else obs.value end)))

-- One round of FNV-1a over a UTF-16 code unit, on the bit pattern of a 32-bit integer.
hash_unit : ℕ → ℕ → ℕ
hash_unit h unit = (bit_xor h unit * 0x01000193) % 2 ^ 32

-- A code point beyond the 16-bit plane is two code units.
hash_char : ℕ → ℕ → ℕ
unfolding hash_unit
hash_char h c =
    if ltb c 0x10000
    then hash_unit h c
    else hash_unit (hash_unit h (0xd800 + (c - 0x10000) / 0x400)) (0xdc00 + (c - 0x10000) % 0x400)

hash_from : ℕ → String → ℕ
unfolding hash_char
hash_from h String.[] = h
hash_from h (String.◌∷◌ c s) = hash_from (hash_char h (code c)) s

unfoldable pub hash_input : Json → String
unfolding hash_from
hash_input input = pad_zeros 8 (to_radix 16 (hash_from 0x811c9dc5 (stringify input)))

abbrev pub verdict_name : GateDecision → String
verdict_name (permit t) = "permit"
verdict_name (blocked_with_path missing) = "blocked_with_path"
verdict_name (blocked_hard reason) = "blocked_hard"
verdict_name (blocked_scope reason) = "blocked_scope"

abbrev pub map_block_cause : GateDecision → String
map_block_cause (blocked_scope reason) = "scope_exceeded"
map_block_cause _ = "quality_gate_fail"

abbrev pub effective_tier_of : GateDecision → Tier
effective_tier_of (permit t) = t
effective_tier_of (blocked_with_path missing) = t2
effective_tier_of (blocked_hard reason) = t1
effective_tier_of (blocked_scope reason) = t1

abbrev verdict_of : GateDecision → ToolObservation → TraceVerdict × Option String
verdict_of (permit t) obs = if obs.is_error then (error, some "execution_error") else (pass, none)
verdict_of decision obs = (block, some (map_block_cause decision))

unfoldable pub build_trace_event :
    {W : Type 0}
    → String
    → ToolUseBlock
    → GateDecision
    → Option String
    → ToolObservation
    → ℕ
    → Option (ToolDef W)
    → TraceEvent
build_trace_event role call decision resolved_path observation iteration tool_def =
    let (verdict, cause) = verdict_of decision observation in
    let capability : Capability = elim tool_def [ some t ↦ t.capability | none ↦ w ] in
    let tier = effective_tier_of decision in
    tool_executed role runtime_agent (record {
      verdict = verdict;
      cause = cause;
      tool_name = call.name;
      capability = capability;
      tier = tier;
      gate_decision = verdict_name decision;
      resolved_path = resolved_path;
      observation_summary = observation.summary;
      iteration = iteration;
      witness = record {
        input_hash = hash_input call.input;
        rule =
            concat (
              tier_name tier ∷ ":" ∷ capability_name capability ∷ ":" ∷ verdict_name decision ∷ []);
        decision = verdict_name decision;
      };
    })

-- The line of one event; a halt has none.
event_line : TraceEvent → List String
event_line (run_halted from to p) = []
event_line (tool_executed from to p) =
    join "|" (
      from
      ∷ to
      ∷ p.tool_name
      ∷ p.witness.input_hash
      ∷ or_else p.resolved_path ""
      ∷ p.gate_decision
      ∷ p.observation_summary
      ∷ [])
    ∷ []

event_lines : List TraceEvent → List String
unfolding event_line
event_lines [] = []
event_lines (e ∷ es) = event_line e ++ event_lines es

unfoldable pub iteration_signature : List TraceEvent → String
unfolding event_lines
iteration_signature events = join "\n" (event_lines events)
