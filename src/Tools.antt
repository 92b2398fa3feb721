-- ===== src/Tools.antt =====
-- runtime/src/tools: the tool contract, the tools and the per-role registry.
pub mod Types
pub mod Plan
pub mod Spawn
pub mod Dispatch
pub mod Shell
pub mod WriteFile
pub mod WebFetch
pub mod Google
pub mod Registry
