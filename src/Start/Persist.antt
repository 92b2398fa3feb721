-- ===== src/Start/Persist.antt =====
-- How a run's records reach the database: sinkTraceEmitter of runtime/src/trace/emit.ts,
-- sinkFailureEmitter of runtime/src/packets/failure.ts, sinkArtifactEmitter of
-- runtime/src/artifacts/record.ts and the write chain of runtime/src/artifacts/rpc-sink.ts. A write's
-- call and its answer stand together here; what the sinks make of any order of the answers is in
-- Sinks.
use dream_team.Prelude.{ℕ, String, none, some, List, [], ◌∷◌, ◌++◌, str_eq, if◌then◌else◌}
use dream_team.Json.{Json, num, usd, str, arr, obj, Items, nil, cons, end, field}
use dream_team.Gate.Types.{capability_name, tier_name}
use dream_team.Packets.Types.{
  FailureType, input_missing, input_invalid, dependency_unavailable, execution_error,
  quality_gate_fail, scope_exceeded, timeout,
}
use dream_team.Packets.Failure.{FailurePacket}
use dream_team.Trace.{TraceVerdict, pass, block, error, TraceEvent, tool_executed, run_halted}
use dream_team.Artifacts.Types.{ArtifactRecord, kind_name}
use dream_team.Artifacts.Upload.{UploadDeps, Storage, max_artifact_bytes, upload}
use dream_team.Sinks.{SinkInput, WriteFailure, trace_params, packet_params, flush, rejects}
use dream_team.Database.{
  SupabaseClient, or_null, append_trace_event_rpc, append_artifact_rpc, append_packet_rpc,
  set_artifact_storage_path_rpc,
}
use dream_team.Effects.{
  Result, ok, err, thrown, out_of_fuel, Attempt, Session, M, pure, throw, plain_error, ◌>>=◌, ◌>>◌,
}

abbrev pub verdict_text : TraceVerdict → String
verdict_text pass = "pass"
verdict_text block = "block"
verdict_text error = "error"

abbrev pub failure_type_text : FailureType → String
failure_type_text input_missing = "input_missing"
failure_type_text input_invalid = "input_invalid"
failure_type_text dependency_unavailable = "dependency_unavailable"
failure_type_text execution_error = "execution_error"
failure_type_text quality_gate_fail = "quality_gate_fail"
failure_type_text scope_exceeded = "scope_exceeded"
failure_type_text timeout = "timeout"

-- What `sinkTraceEmitter` hands to the sink.
unfoldable pub event_input : TraceEvent → SinkInput
event_input (tool_executed from to p) = record {
  from_agent = from;
  to_agent = to;
  kind = "tool.executed";
  payload = field "verdict" (str (verdict_text p.verdict)) (
      field "cause" (or_null p.cause) (
        field "tool_name" (str p.tool_name) (
          field "capability" (str (capability_name p.capability)) (
            field "tier" (str (tier_name p.tier)) (
              field "gate_decision" (str p.gate_decision) (
                field "resolved_path" (or_null p.resolved_path) (
                  field "observation_summary" (str p.observation_summary) (
                    field "iteration" (num p.iteration) (
                      field "witness"
                        (obj (
                          field "input_hash" (str p.witness.input_hash) (
                            field "rule" (str p.witness.rule)
                              (field "decision" (str p.witness.decision) end))))
                        end)))))))));
}
event_input (run_halted from to p) = record {
  from_agent = from;
  to_agent = to;
  kind = "run.halted";
  payload = field "verdict" (str "error") (
      field "cause" (str (failure_type_text p.cause)) (
        field "detail" (str p.detail)
          (field "iteration" (num p.iteration) (field "cost_usd" (usd p.cost_usd) end))));
}

event_json : TraceEvent → Json
unfolding event_input
event_json e =
    let input = event_input e in
    obj (
      field "event_type" (str input.kind) (
        field "from_agent" (str input.from_agent)
          (field "to_agent" (str input.to_agent) (field "payload" (obj input.payload) end))))

events_json : List TraceEvent → Items
unfolding event_json
events_json [] = nil
events_json (e ∷ es) = cons (event_json e) (events_json es)

-- What `sinkFailureEmitter` hands to the sink.
unfoldable pub packet_input : FailurePacket → SinkInput
unfolding events_json
packet_input p = record {
  from_agent = p.from_agent;
  to_agent = p.to_agent;
  kind = "failure";
  payload = field "work_item" (str p.work_item) (
      field "failure_type" (str (failure_type_text p.failure_type)) (
        field "detail" (str p.detail) (
          field "state_at_failure" (str p.state_at_failure) (
            field "recovery_suggestion" (str p.recovery_suggestion)
              (field "trace" (arr (events_json p.trace)) end)))));
}

-- The failure that a write leaves; a write has no loop, so no fuel to run out of.
abbrev pub failure_of : {A : Type 0} → String → Result A → List WriteFailure
failure_of kind (ok a) = []
failure_of kind (err (thrown e)) = record { kind = kind; error = e.message } ∷ []
failure_of kind (err out_of_fuel) = []

-- Of a run's writes those that failed, in order.
pub record Failures : Type 0 where
  pub trace : List WriteFailure
  pub artifacts : List WriteFailure
  pub packets : List WriteFailure

module _ {W : Type 0} where
  -- Every write of a list, each whatever the ones before it came to.
  unfoldable pub write_all :
      {X A : Type 0}
      → (X → String)
      → (X → M W A)
      → List X
      → Session W
      → List WriteFailure × Session W
  write_all kind write [] s = ([], s)
  write_all kind write (x ∷ xs) s =
      let (r, s') = write x s in
      let (rest, s'') = write_all kind write xs s' in (failure_of (kind x) r ++ rest, s'')

  -- `flush()` of a sink with no write pending
  unfoldable pub check_flush : (what unit : String) → List WriteFailure → M W (Unit {0})
  check_flush what unit failures =
      elim (flush {P = Unit {0}} what unit
        (record { sent = []; pending = []; failures = failures })) [
          | some (rejects message) ↦ throw (plain_error message)
          | _ ↦ pure tt
        ]

  module _ (client : SupabaseClient W) (read_bytes : String → W → Attempt (List ℕ) × W) where
    abbrev pub upload_deps : Storage W → UploadDeps W
    upload_deps storage = record {
      storage = storage;
      set_storage_path = set_artifact_storage_path_rpc client;
      read_bytes = read_bytes;
      max_bytes = max_artifact_bytes;
    }

    -- The upload of a recorded artifact, where the client stores bytes.
    unfoldable pub upload_if_stored : ArtifactRecord → String → M W (Unit {0})
    upload_if_stored artifact id = elim client.storage [
      | none ↦ pure tt
      | some storage ↦
          if str_eq artifact.abs_path ""
          then pure tt
          else upload (upload_deps storage) (record {
            artifact_id = id;
            workspace_id = artifact.workspace_id;
            ticket_id = artifact.ticket_id;
            abs_path = artifact.abs_path;
            bytes = artifact.bytes;
            mime_type = artifact.mime_type;
            kind = artifact.kind;
          })
    ]

    -- The row, then the bytes, then the stamp.
    unfoldable pub write_artifact : ArtifactRecord → M W String
    write_artifact artifact = do
      id ← append_artifact_rpc client (record {
        workspace_id = artifact.workspace_id;
        ticket_id = artifact.ticket_id;
        kind = artifact.kind;
        storage_path = artifact.storage_path;
        mime_type = artifact.mime_type;
        bytes = artifact.bytes;
      })
      upload_if_stored artifact id
      pure id

    unfoldable pub write_event : (workspace ticket : String) → TraceEvent → M W (Json × Json)
    write_event workspace ticket event =
        append_trace_event_rpc client (trace_params workspace ticket (event_input event))

    unfoldable pub write_packet : (workspace ticket : String) → FailurePacket → M W String
    write_packet workspace ticket packet =
        append_packet_rpc client (packet_params workspace ticket (packet_input packet))

    -- The writes of the run's sinks; the packets are not theirs where the caller emits them.
    unfoldable pub persist :
        (workspace ticket : String)
        → (own_packets : List FailurePacket) → Session W
        → Failures × Session W
    persist workspace ticket own_packets s =
        let (trace, s₁) =
          write_all (λ e. (event_input e).kind) (write_event workspace ticket) s.trace s in
        let (artifacts, s₂) =
          write_all (λ (a : ArtifactRecord). kind_name a.kind) write_artifact s.artifacts s₁ in
        let (packets, s₃) =
          write_all (λ _. "failure") (write_packet workspace ticket) own_packets s₂ in
        (record { trace = trace; artifacts = artifacts; packets = packets }, s₃)
