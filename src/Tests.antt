-- ===== src/Tests.antt =====
-- Concrete runs: a scripted model client, a file system and tools, and the theorems applied to them.
mod World
mod LoopTests
mod GateTests
mod ToolsTests
mod SinkTests
mod WebTests
mod StartTests
pub mod AppTests
