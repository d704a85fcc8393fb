-- ===== src/Coordination.antt =====
-- control/coordination: the choice of a coordinator, its service and the frames that it exchanges.
pub mod Protocol
pub mod Election
pub mod HoldDown
pub mod Service
pub mod Client
pub mod Link
