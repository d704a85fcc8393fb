-- ===== src/Display/Inventory.antt =====
-- model/display/monitor_inventory.py: the monitors that a node has detected; `dpi_scale` counts hundredths.
use multi_controller.Prelude.{ℕ, Bool, Option, List, String}
use multi_controller.Prelude.Int.{ℤ}

pub record MonitorBounds : Type 0 where
  pub left : ℤ
  pub top : ℤ
  pub width : ℤ
  pub height : ℤ

pub record MonitorInventoryItem : Type 0 where
  pub monitor_id : String
  pub display_name : String
  pub bounds : MonitorBounds
  pub is_primary : Bool
  pub dpi_scale : ℕ
  pub logical_order : ℤ

pub record MonitorInventorySnapshot : Type 0 where
  pub node_id : String
  pub monitors : List MonitorInventoryItem
  pub captured_at : Option String
