-- ===== src/Tests/SinkTests.antt =====
-- The write-through sinks of runtime/src/trace and runtime/src/packets at a concrete history.
use dream_team.Prelude.{◌≡◌, refl, ◌↔◌, List, [], ◌∷◌, some, show, to_radix}
use dream_team.Json.{end}
use dream_team.Sinks.{
  AppendTraceEventParams, trace_params, RpcSink, new_sink, SinkEvent, append, fulfil, reject,
  finally, Flushed, resolves, rejects, on_append, on_event, after_events, settle, delete,
  in_flight_kind, flush,
}
use dream_team.Sinks.Drained.{appended, settlements, errors, recorded, flush-Tallies}

abbrev params : AppendTraceEventParams
params = trace_params "w" "t" (record {
  from_agent = "qa-testing";
  to_agent = "runtime";
  kind = "tool.executed";
  payload = end;
})

-- Two writes, the first rejected and the second fulfilled.
abbrev history : List (SinkEvent AppendTraceEventParams)
history =
    append "tool.executed" params
    ∷ append "tool.executed" params
    ∷ fulfil 1
    ∷ reject 0 "offline"
    ∷ finally 1
    ∷ finally 0
    ∷ []

abbrev left : RpcSink AppendTraceEventParams
left = record {
  sent = params ∷ params ∷ [];
  pending = [];
  failures = record { kind = "tool.executed"; error = "offline" } ∷ [];
}

history_run : after_events new_sink history ≡ some left
unfolding after_events on_event on_append in_flight_kind settle delete
history_run = refl

abbrev failed : Flushed
failed = rejects "trace persistence failed for 1 event(s): tool.executed (offline)"

told : flush "trace" "event" left ≡ some failed
unfolding flush show to_radix
told = refl

flush-Tallies_example :
    (appended history ≡ settlements history)
    × (recorded left ≡ errors history)
    × ((failed ≡ resolves) ↔ (errors history ≡ []))
flush-Tallies_example = flush-Tallies "trace" "event" left history failed history_run told
