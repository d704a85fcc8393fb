-- ===== src/Tests.antt =====
-- Runs of the definitions and of the theorems on a group of three nodes.
mod Samples
mod Election
mod Leases
mod Steps
mod Layouts
mod HoldDown
mod Updates
mod Sink
mod Nodes
mod Router
mod Client
mod Versions
mod Edges
mod Handshake
