-- ===== src/Tests/Edges.antt =====
-- The laptop stands to the right of the desk, with one display each.
use multi_controller.Prelude.{◌≡◌, refl, Bool, true, false, some, none, [], ◌∷◌, String}
use multi_controller.Prelude.Int.{ℤ, pos, ◌+ℤ◌, ◌-ℤ◌}
use multi_controller.Display.Layout.{
  LayoutDisplay, LayoutNode, LayoutConfig, MonitorTopology, get_node, find_node,
}
use multi_controller.Routing.Edges.{
  Rect, right, down, EdgeCandidate, target_switch, is_neighbor, offset_rect, candidate_of,
  candidates_in, pick_candidate, physical_candidates, slot_of, last_display, last_place, slot_for,
  pick, resolve_edge_route,
}
use multi_controller.Routing.Edges.Behind.{is_neighbor-opposite, opposite}
use multi_controller.Routing.Press.{detect_edge_press, distances, entry_for, press_of, min_distance}
use multi_controller.Routing.Press.Pressed.{IsPress, detect_edge_press-IsPress}
use multi_controller.Routing.Edges.Crossing.{IsSafe, resolve_edge_route-IsSafe}

abbrev tile : LayoutDisplay
tile = record { display_id = "1"; x = pos 0; y = pos 0; width = pos 1; height = pos 1 }

abbrev one_tile : LayoutNode → MonitorTopology
one_tile n = record { logical = tile ∷ []; physical = tile ∷ [] }

abbrev node_at : String → ℤ → LayoutNode
node_at k x = record {
  node_id = k;
  x = x;
  y = pos 0;
  width = pos 1;
  height = pos 1;
  monitor_topology = none;
  monitor_source = "fallback";
  monitor_override_active = false;
}

abbrev row : LayoutConfig
row = record {
  nodes = node_at "desk" (pos 0) ∷ node_at "laptop" (pos 1) ∷ [];
  auto_switch = record { enabled = true; cooldown_ms = pos 1; return_guard_ms = pos 1 };
}

abbrev anywhere : ℤ → ℤ → EdgeCandidate → Bool
anywhere a b c = true

abbrev first : ℤ → ℤ → EdgeCandidate → EdgeCandidate → Bool
first a b c d = false

abbrev online : String → Bool
online k = true

-- From the right edge of the desk to the laptop.
crossing :
    resolve_edge_route one_tile anywhere first row "desk" "desk" "1" right online true
    ≡ target_switch (record { node_id = "laptop"; display_id = "1" })
unfolding resolve_edge_route get_node find_node slot_for last_place last_display slot_of
    physical_candidates candidates_in is_neighbor offset_rect candidate_of pick pick_candidate ◌+ℤ◌
crossing = refl

resolve_edge_route-IsSafe_example :
    IsSafe one_tile anywhere first row "desk" "desk" "1" right online true
      (resolve_edge_route one_tile anywhere first row "desk" "desk" "1" right online true)
resolve_edge_route-IsSafe_example =
    resolve_edge_route-IsSafe one_tile anywhere first row "desk" "desk" "1" right online true

is_neighbor-opposite_example :
    is_neighbor
      (offset_rect tile (pos 1) (pos 0))
      (offset_rect tile (pos 0) (pos 0))
      (opposite right)
    ≡ is_neighbor (offset_rect tile (pos 0) (pos 0)) (offset_rect tile (pos 1) (pos 0)) right
is_neighbor-opposite_example =
    is_neighbor-opposite (offset_rect tile (pos 0) (pos 0)) (offset_rect tile (pos 1) (pos 0)) right

abbrev screen : Rect
screen = record { left = pos 0; top = pos 0; right = pos 100; bottom = pos 50 }

detect_edge_press-IsPress_example :
    IsPress screen (pos 103) (pos 51) (detect_edge_press screen (some (pos 103)) (some (pos 51)))
detect_edge_press-IsPress_example = detect_edge_press-IsPress screen (pos 103) (pos 51)

-- In a corner the edge that is nearer wins.
corner :
    detect_edge_press screen (some (pos 103)) (some (pos 51))
    ≡ some record {
      direction = down;
      cross_axis_ratio = record { value = pos 103; start = pos 0; end = pos 100 };
    }
unfolding detect_edge_press distances entry_for press_of min_distance ◌-ℤ◌
corner = refl
