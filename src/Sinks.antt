-- ===== src/Sinks.antt =====
-- The write-through sinks of runtime/src/trace/rpc-sink.ts and runtime/src/packets/rpc-sink.ts. Both
-- keep a set of pending writes and a list of failures; they differ in the parameters `P` of the call
-- and in a word of the message. What happens between two turns of the event loop is an event: an
-- append, a write that is fulfilled or rejected (its `catch` then records the failure), and the
-- `finally` that takes a settled write out of the pending set.
pub mod Drained
use dream_team.Prelude.{
  ℕ, zero, suc, ◌+◌, String, Bool, true, false, ◌&&◌, Option, none, some, List, [], ◌∷◌, ◌++◌,
  concat, join, map, show, length, ◌==◌, if◌then◌else◌,
}
use dream_team.Json.{Json, null, str, Fields, field, end, spread}

-- The parameters of `append_trace_event`.
pub record AppendTraceEventParams : Type 0 where
  pub workspace_id : String
  pub ticket_id : String
  pub from_agent : String
  pub to_agent : String
  pub event_type : String
  pub payload : Fields

-- The parameters of `append_packet`; the trace event's id and the raw body are null.
pub record AppendPacketParams : Type 0 where
  pub workspace_id : String
  pub ticket_id : String
  pub trace_event_id : Json
  pub packet_type : String
  pub body_raw : Json
  pub body_parsed : Fields

-- What a sink is handed: the agents, the type of the event or packet, the payload.
pub record SinkInput : Type 0 where
  pub from_agent : String
  pub to_agent : String
  pub kind : String
  pub payload : Fields

abbrev pub trace_params : String → String → SinkInput → AppendTraceEventParams
trace_params workspace ticket input = record {
  workspace_id = workspace;
  ticket_id = ticket;
  from_agent = input.from_agent;
  to_agent = input.to_agent;
  event_type = input.kind;
  payload = input.payload;
}

abbrev pub packet_params : String → String → SinkInput → AppendPacketParams
packet_params workspace ticket input = record {
  workspace_id = workspace;
  ticket_id = ticket;
  trace_event_id = null;
  packet_type = input.kind;
  body_raw = null;
  body_parsed =
      spread (field "from_agent" (str input.from_agent) (field "to_agent" (str input.to_agent) end))
        input.payload;
}

pub record WriteFailure : Type 0 where
  pub kind : String
  pub error : String

-- A write in the pending set; `settled` while its `finally` has not run.
pub record Write : Type 0 where
  pub id : ℕ
  pub kind : String
  pub settled : Bool

pub record RpcSink (P : Type 0) : Type 0 where
  pub sent : List P
  pub pending : List Write
  pub failures : List WriteFailure

abbrev pub new_sink : {P : Type 0} → RpcSink P
new_sink = record { sent = []; pending = []; failures = [] }

abbrev pub waits_for : ℕ → Write → Bool
waits_for id write = if write.settled then false else write.id == id

abbrev pub is_settled : ℕ → Write → Bool
is_settled id write = if write.settled then write.id == id else false

-- The kind of the write in flight under the id.
unfoldable pub in_flight_kind : ℕ → List Write → Option String
in_flight_kind id [] = none
in_flight_kind id (write ∷ rest) =
    let later = in_flight_kind id rest in if waits_for id write then some write.kind else later

unfoldable pub settle : ℕ → List Write → List Write
settle id [] = []
settle id (write ∷ rest) =
    let later = settle id rest in
    if waits_for id write then record write { settled = true } ∷ rest else write ∷ later

-- `pending.delete(tracked)`
unfoldable pub delete : ℕ → List Write → List Write
delete id [] = []
delete id (write ∷ rest) =
    let later = delete id rest in if is_settled id write then rest else write ∷ later

pub data SinkEvent (P : Type 0) : Type 0 where
  append : (kind : String) → P → SinkEvent P
  fulfil : ℕ → SinkEvent P
  reject : ℕ → (error : String) → SinkEvent P
  finally : ℕ → SinkEvent P

-- `flush` resolves, or rejects with a message.
pub data Flushed : Type 0 where
  resolves : Flushed
  rejects : (message : String) → Flushed

abbrev pub failure_text : WriteFailure → String
failure_text f = concat (f.kind ∷ " (" ∷ f.error ∷ ")" ∷ [])

module _ {P : Type 0} where
  unfoldable pub on_append : String → P → RpcSink P → RpcSink P
  on_append kind params sink = record sink {
    sent = sink.sent ++ params ∷ [];
    pending = sink.pending ++ record { id = length sink.sent; kind = kind; settled = false } ∷ [];
  }

  -- A write that is not in flight can be neither fulfilled nor rejected.
  unfoldable pub on_event : RpcSink P → SinkEvent P → Option (RpcSink P)
  unfolding on_append settle delete
  on_event sink (append kind params) = some (on_append kind params sink)
  on_event sink (fulfil id) = elim (in_flight_kind id sink.pending) [
    | none ↦ none
    | some kind ↦ some (record sink { pending = settle id sink.pending })
  ]
  on_event sink (reject id error) = elim (in_flight_kind id sink.pending) [
    | none ↦ none
    | some kind ↦ some (record sink {
      pending = settle id sink.pending;
      failures = sink.failures ++ record { kind = kind; error = error } ∷ [];
    })
  ]
  on_event sink (finally id) = some (record sink { pending = delete id sink.pending })

  unfoldable pub after_events : RpcSink P → List (SinkEvent P) → Option (RpcSink P)
  unfolding on_event
  after_events sink [] = some sink
  after_events sink (e ∷ es) = elim (on_event sink e) [
    | none ↦ none
    | some sink' ↦ after_events sink' es
  ]

  -- The loop of `flush` goes on while a write is pending.
  unfoldable pub flush : (what unit : String) → RpcSink P → Option Flushed
  flush what unit sink = elim sink.pending [
    | write ∷ rest ↦ none
    | [] ↦ elim sink.failures [
      | [] ↦ some resolves
      | f ∷ fs ↦ some (
          rejects (
            concat (
              what
              ∷ " persistence failed for "
              ∷ show (length sink.failures)
              ∷ " "
              ∷ unit
              ∷ "(s): "
              ∷ join "; " (map failure_text sink.failures)
              ∷ [])))
    ]
  ]
