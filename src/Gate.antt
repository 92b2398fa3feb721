-- ===== src/Gate.antt =====
-- runtime/src/gate: the decision function, the grant matrix, the grant intersection and the
-- org chart.
pub mod Types
pub mod Objects
pub mod Decide
pub mod Grants
pub mod Intersect
pub mod Org
pub mod Policy
pub mod Narrowing
pub mod Chart
