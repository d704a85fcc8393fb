-- ===== src/Tests/Layouts.antt =====
-- A layout of the desk and the laptop side by side, and the editor lock.
use multi_controller.Prelude.{ℕ, ◌≡◌, ◌↔◌, arith, true, false, none, some, List, [], ◌∷◌, String}
use multi_controller.Prelude.Int.{pos}
use multi_controller.Prelude.Text.{given_or}
use multi_controller.Display.Layout.{LayoutNode, LayoutConfig, find_overlapping_nodes}
use multi_controller.Display.Layout.Overlap.{Separate, find_overlapping_nodes-Separate}
use multi_controller.Coordination.Protocol.{layout_update}
use multi_controller.Coordination.Service.{Service, broadcast}
use multi_controller.Coordination.Service.LayoutEdit.{
  builds, on_layout_edit_begin, on_layout_edit_end, on_layout_update,
}
use multi_controller.Coordination.Service.LayoutEdit.Lock.{
  IsPublished, layout_edit-lock, on_layout_update-IsPublished,
}
use multi_controller.Coordination.Service.Leases.Rules.{acquire, give_up}
use multi_controller.Tests.Samples.{desk_registry, leased}

abbrev place : String → ℕ → LayoutNode
place k x = record {
  node_id = k;
  x = pos x;
  y = pos 0;
  width = pos 2;
  height = pos 1;
  monitor_topology = none;
  monitor_source = "fallback";
  monitor_override_active = false;
}

abbrev layout_of : List LayoutNode → LayoutConfig
layout_of ns = record {
  nodes = ns;
  auto_switch = record { enabled = true; cooldown_ms = pos 150; return_guard_ms = pos 350 };
}

abbrev side_by_side : LayoutConfig
side_by_side = layout_of (place "desk" 0 ∷ place "laptop" 2 ∷ [])

abbrev edited : Service
edited = record leased { layout_editor_id = some "laptop" }

on_layout_update-IsPublished_example :
    (IsPublished edited (given_or none "laptop") side_by_side
      → on_layout_update edited desk_registry "laptop" none (builds side_by_side) true ≡ (
        record edited { layout_revision = 1 },
        broadcast edited desk_registry
            (layout_update side_by_side (given_or none "laptop") "desk" 1 true false),
      ))
    × ((IsPublished edited (given_or none "laptop") side_by_side → ⊥)
        → on_layout_update edited desk_registry "laptop" none (builds side_by_side) true
          ≡ (edited, []))
on_layout_update-IsPublished_example =
    on_layout_update-IsPublished edited desk_registry "laptop" none side_by_side true (ground arith)

layout_edit-lock_example :
    ((on_layout_edit_begin edited desk_registry "desk" none).0.layout_editor_id
      ≡ acquire (given_or none "desk") (some "laptop"))
    × ((on_layout_edit_end edited desk_registry "desk" none).0.layout_editor_id
        ≡ give_up (given_or none "desk") (some "laptop"))
layout_edit-lock_example = layout_edit-lock edited desk_registry "desk" none

find_overlapping_nodes-Separate_example :
    (find_overlapping_nodes side_by_side ≡ []) ↔ Separate side_by_side.nodes
find_overlapping_nodes-Separate_example =
    find_overlapping_nodes-Separate side_by_side (ground arith)

abbrev added : LayoutNode
added = record (place "tower" 4) { width = pos 1 }
