-- ===== src/Database.antt =====
-- runtime/src/db/client.ts: the calls of the user's database session. The session itself, `rpc` and
-- the storage bucket, is a parameter.
use dream_team.Prelude.{
  ℕ, String, Bool, true, false, Option, none, some, [], ◌∷◌, concat, ◌&&◌, if◌then◌else◌,
}
use dream_team.Json.{Json, null, bool, num, usd, str, arr, obj, nil, cons, Fields, end, field, get}
use dream_team.Artifacts.Types.{ArtifactKind, kind_name}
use dream_team.Artifacts.Upload.{Storage}
use dream_team.Sinks.{AppendTraceEventParams, AppendPacketParams}
use dream_team.Effects.{
  Attempt, returns, throws, then_call, M, pure, throw, call, plain_error, ◌>>=◌,
}

-- `{ data, error }`, of an error its message.
pub record RpcAnswer : Type 0 where
  pub value : Json
  pub error : Option String

pub record SupabaseClient (W : Type 0) : Type 0 where
  pub rpc : String → Fields → W → Attempt RpcAnswer × W
  pub storage : Option (Storage W)

-- `Array.isArray(data) ? data[0] : data`; of an empty array there is none.
abbrev pub first_of : Json → Option Json
first_of (arr nil) = none
first_of (arr (cons v vs)) = some v
first_of v = some v

abbrev pub is_number : Option Json → Bool
is_number (some (num n)) = true
is_number (some (usd n)) = true
is_number _ = false

abbrev pub or_null : Option String → Json
or_null none = null
or_null (some s) = str s

-- The row that `append_trace_event` has to return.
unfoldable pub trace_row : Json → Option (Json × Json)
trace_row value = elim (first_of value) [
  | none ↦ none
  | some row ↦ elim (get row "id") [
    | none ↦ none
    | some id ↦ elim (get row "seq") [
      | none ↦ none
      | some seq ↦ if is_number (some id) && is_number (some seq) then some (id, seq) else none
    ]
  ]
]

abbrev pub uuid_in : Option Json → Option String
uuid_in (some (str id)) = some id
uuid_in _ = none

pub record AppendArtifactParams : Type 0 where
  pub workspace_id : String
  pub ticket_id : Option String
  pub kind : ArtifactKind
  pub storage_path : Option String
  pub mime_type : Option String
  pub bytes : ℕ

abbrev pub trace_fields : AppendTraceEventParams → Fields
trace_fields p = field "p_workspace_id" (str p.workspace_id) (
    field "p_ticket_id" (str p.ticket_id) (
      field "p_from_agent" (str p.from_agent) (
        field "p_to_agent" (str p.to_agent)
          (field "p_event_type" (str p.event_type) (field "p_payload" (obj p.payload) end)))))

abbrev pub packet_fields : AppendPacketParams → Fields
packet_fields p = field "p_workspace_id" (str p.workspace_id) (
    field "p_ticket_id" (str p.ticket_id) (
      field "p_trace_event_id" p.trace_event_id (
        field "p_packet_type" (str p.packet_type)
          (field "p_body_raw" p.body_raw (field "p_body_parsed" (obj p.body_parsed) end)))))

abbrev pub artifact_fields : AppendArtifactParams → Fields
artifact_fields p = field "p_workspace_id" (str p.workspace_id) (
    field "p_ticket_id" (or_null p.ticket_id) (
      field "p_kind" (str (kind_name p.kind)) (
        field "p_storage_path" (or_null p.storage_path)
          (field "p_mime_type" (or_null p.mime_type) (field "p_bytes" (num p.bytes) end)))))

-- `data === true`
unfoldable pub is_true : Json → Bool
is_true (bool b) = b
is_true _ = false

-- An error that the call reports is thrown.
abbrev pub value_or_error : String → Option String → Json → Attempt Json
value_or_error name (some message) value =
    throws (plain_error (concat (name ∷ " RPC failed: " ∷ message ∷ [])))
value_or_error name none value = returns value

abbrev pub value_of : String → RpcAnswer → Attempt Json
value_of name answer = value_or_error name answer.error answer.value

module _ {W : Type 0} (client : SupabaseClient W) where
  -- The value of a call that reported no error.
  unfoldable pub rpc_value : String → Fields → W → Attempt Json × W
  rpc_value name params = then_call (client.rpc name params) (λ answer w. (value_of name answer, w))

  unfoldable pub append_trace_event_rpc : AppendTraceEventParams → M W (Json × Json)
  append_trace_event_rpc params = do
    value ← call (rpc_value "append_trace_event" (trace_fields params))
    elim (trace_row value) [
      | none ↦ throw (plain_error "append_trace_event returned no { id, seq } row")
      | some row ↦ pure row
    ]

  unfoldable pub uuid_rpc : String → Fields → M W String
  uuid_rpc name params = do
    value ← call (rpc_value name params)
    elim (uuid_in (first_of value)) [
      | none ↦ throw (plain_error (concat (name ∷ " returned no uuid" ∷ [])))
      | some id ↦ pure id
    ]

  unfoldable pub append_artifact_rpc : AppendArtifactParams → M W String
  append_artifact_rpc params = uuid_rpc "append_artifact" (artifact_fields params)

  unfoldable pub append_packet_rpc : AppendPacketParams → M W String
  append_packet_rpc params = uuid_rpc "append_packet" (packet_fields params)

  unfoldable pub set_artifact_storage_path_rpc : String → String → M W (Unit {0})
  set_artifact_storage_path_rpc artifact path = do
    value ← call (
        rpc_value "set_artifact_storage_path"
          (field "p_artifact_id" (str artifact) (field "p_storage_path" (str path) end)))
    pure tt

  -- Null where there is no row.
  unfoldable pub get_connector_token_rpc : String → String → W → Attempt Json × W
  get_connector_token_rpc workspace provider =
      then_call
        (rpc_value "get_connector_token"
          (field "p_workspace_id" (str workspace) (field "p_provider" (str provider) end)))
        (λ value w. (returns (elim (first_of value) [ none ↦ null | some row ↦ row ]), w))

  unfoldable pub is_workspace_member : String → M W Bool
  is_workspace_member workspace = do
    value ← call (rpc_value "is_workspace_member" (field "p_workspace_id" (str workspace) end))
    pure (is_true value)
