-- ===== src/Routing/Press.antt =====
-- control/routing/edge_detection.py: which edge of a display a pointer presses. The place along the edge is a
-- floating-point number, axis_ratio of three integers; here it is those three.
pub mod Pressed
use multi_controller.Prelude.{Bool, Option, none, some, List, [], ◌∷◌, ◌++◌, if◌then◌else◌}
use multi_controller.Prelude.Int.{ℤ, ◌-ℤ◌, ltb_ℤ, leb_ℤ}
use multi_controller.Routing.Edges.{Direction, left, right, up, down, Rect}

-- The arguments of `axis_ratio`.
pub record AxisRatio : Type 0 where
  pub value : ℤ
  pub start : ℤ
  pub end : ℤ

pub record EdgePress : Type 0 where
  pub direction : Direction
  pub cross_axis_ratio : AxisRatio

-- An entry of `distances`.
pub record Distance : Type 0 where
  pub direction : Direction
  pub distance : ℤ
  pub ratio : AxisRatio

abbrev pub entry : Bool → Direction → (distance value start end : ℤ) → List Distance
entry b d distance value start end =
    if b
    then record {
      direction = d;
      distance = distance;
      ratio = record { value = value; start = start; end = end };
    }
      ∷ []
    else []

-- The entry for an edge, if the point is on its line or beyond it.
unfoldable pub entry_for : Rect → ℤ → ℤ → Direction → List Distance
unfolding ◌-ℤ◌
entry_for r x y left = entry (leb_ℤ x r.left) left (r.left -ℤ x) y r.top r.bottom
entry_for r x y right = entry (leb_ℤ r.right x) right (x -ℤ r.right) y r.top r.bottom
entry_for r x y up = entry (leb_ℤ y r.top) up (r.top -ℤ y) x r.left r.right
entry_for r x y down = entry (leb_ℤ r.bottom y) down (y -ℤ r.bottom) x r.left r.right

unfoldable pub distances : Rect → ℤ → ℤ → List Distance
unfolding entry_for
distances r x y =
    entry_for r x y left ++ (entry_for r x y right ++ (entry_for r x y up ++ entry_for r x y down))

-- `min(distances, key=...)`: the first of the least.
unfoldable pub min_distance : Distance → List Distance → Distance
min_distance best [] = best
min_distance best (e ∷ es) = min_distance (if ltb_ℤ e.distance best.distance then e else best) es

unfoldable pub press_of : List Distance → Option EdgePress
unfolding min_distance
press_of [] = none
press_of (e ∷ es) = some record {
  direction = (min_distance e es).direction;
  cross_axis_ratio = (min_distance e es).ratio;
}

-- The coordinates of an event may be missing.
unfoldable pub detect_edge_press : Rect → Option ℤ → Option ℤ → Option EdgePress
unfolding press_of distances
detect_edge_press r (some x) (some y) = press_of (distances r x y)
detect_edge_press r _ _ = none
