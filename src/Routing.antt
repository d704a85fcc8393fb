-- ===== src/Routing.antt =====
-- control/routing: what a target does with the input that it is sent.
pub mod Sink
pub mod Router
pub mod Link
pub mod Edges
pub mod Press
