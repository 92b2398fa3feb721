-- ===== src/Loop.antt =====
-- runtime/src/loop/run-loop.ts: the manual tool-use loop, and runtime/src/model/client.ts, the seam
-- to the model.
pub mod Types
pub mod Client
pub mod Cost
pub mod Events
pub mod Handle
pub mod Halt
pub mod Run
pub mod Step
pub mod Calls
pub mod History
pub mod Halted
pub mod Rounds
pub mod Results
pub mod Kept
