-- ===== src/Artifacts.antt =====
-- runtime/src/artifacts: which written files are recorded, and how their bytes are stored.
pub mod Types
pub mod Record
pub mod Upload
pub mod Keys
pub mod Live
pub mod Stored
