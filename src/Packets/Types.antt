-- ===== src/Packets/Types.antt =====
-- runtime/src/packets/failure.ts: the closed taxonomy of failures.
pub data FailureType : Type 0 where
  input_missing input_invalid dependency_unavailable execution_error : FailureType
  quality_gate_fail scope_exceeded timeout : FailureType
