-- ===== src/Display.antt =====
-- model/display: the shared layout of the PCs and their monitors.
pub mod Layout
pub mod Inventory
