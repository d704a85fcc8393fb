-- ===== src/Display/Layout.antt =====
-- model/display/layouts.py: the layout as data, and the operations of the layout editor.
-- A frozen dataclass is a record; an operation that raises ValueError returns `none`.
pub mod Overlap
pub mod Edits
use multi_controller.Prelude.{
  ℕ, Bool, ◌&&◌, Option, none, some, List, [], ◌∷◌, ◌++◌, String, ◌==◌, if◌then◌else◌, any, keep,
}
use multi_controller.Prelude.Int.{ℤ, pos, ◌+ℤ◌, ltb_ℤ}

pub record AutoSwitchSettings : Type 0 where
  pub enabled : Bool
  pub cooldown_ms : ℤ
  pub return_guard_ms : ℤ

pub record LayoutDisplay : Type 0 where
  pub display_id : String
  pub x : ℤ
  pub y : ℤ
  pub width : ℤ
  pub height : ℤ

pub record MonitorTopology : Type 0 where
  pub logical : List LayoutDisplay
  pub physical : List LayoutDisplay

pub record LayoutNode : Type 0 where
  pub node_id : String
  pub x : ℤ
  pub y : ℤ
  pub width : ℤ
  pub height : ℤ
  pub monitor_topology : Option MonitorTopology
  pub monitor_source : String
  pub monitor_override_active : Bool

pub record LayoutConfig : Type 0 where
  pub nodes : List LayoutNode
  pub auto_switch : AutoSwitchSettings

-- The properties `right` and `bottom`; `left` and `top` are `x` and `y`.
unfoldable pub right : LayoutNode → ℤ
right n = n.x +ℤ n.width

unfoldable pub bottom : LayoutNode → ℤ
bottom n = n.y +ℤ n.height

unfoldable pub find_node : String → List LayoutNode → Option LayoutNode
find_node k [] = none
find_node k (n ∷ ns) = if n.node_id == k then some n else find_node k ns

-- `LayoutConfig.get_node`.
unfoldable pub get_node : LayoutConfig → String → Option LayoutNode
unfolding find_node
get_node layout k = find_node k layout.nodes

unfoldable pub has_node : String → List LayoutNode → Bool
unfolding any
has_node k ns = any (λ n. n.node_id == k) ns

unfoldable pub move_node : String → ℤ → ℤ → List LayoutNode → List LayoutNode
move_node k x y [] = []
move_node k x y (n ∷ ns) =
    (if n.node_id == k then record n { x = x; y = y } else n) ∷ move_node k x y ns

unfoldable pub replace_layout_node : LayoutConfig → String → ℤ → ℤ → LayoutConfig
unfolding move_node
replace_layout_node layout k x y = record layout { nodes = move_node k x y layout.nodes }

abbrev or_current {ℓ} : {A : Type ℓ} → Option A → A → A
or_current none current = current
or_current (some a) current = a

unfoldable pub replace_auto_switch_settings :
    LayoutConfig → Option Bool → Option ℤ → Option ℤ → LayoutConfig
replace_auto_switch_settings layout enabled cooldown_ms return_guard_ms = record layout {
  auto_switch = record {
    enabled = or_current enabled layout.auto_switch.enabled;
    cooldown_ms = or_current cooldown_ms layout.auto_switch.cooldown_ms;
    return_guard_ms = or_current return_guard_ms layout.auto_switch.return_guard_ms;
  };
}

max_right : ℤ → List LayoutNode → ℤ
max_right best [] = best
max_right best (n ∷ ns) = max_right (if ltb_ℤ best (right n) then right n else best) ns

-- `max((node.right for node in nodes), default=0)`.
unfoldable pub next_x : List LayoutNode → ℤ
unfolding max_right
next_x [] = pos 0
next_x (n ∷ ns) = max_right (right n) ns

unfoldable pub append_layout_node : LayoutConfig → String → Option LayoutConfig
append_layout_node layout k =
    if has_node k layout.nodes
    then none
    else some (record layout { nodes = layout.nodes ++ new_node ∷ [] })
  where
    new_node : LayoutNode
    new_node = record {
      node_id = k;
      x = next_x layout.nodes;
      y = pos 0;
      width = pos 1;
      height = pos 1;
      monitor_topology = none;
      monitor_source = "fallback";
      monitor_override_active = Bool.false;
    }

unfoldable pub rename_nodes : String → String → List LayoutNode → List LayoutNode
rename_nodes old new [] = []
rename_nodes old new (n ∷ ns) =
    (if n.node_id == old then record n { node_id = new } else n) ∷ rename_nodes old new ns

unfoldable pub rename_layout_node : LayoutConfig → String → String → Option LayoutConfig
unfolding rename_nodes has_node
rename_layout_node layout old new =
    if old == new
    then some layout
    else if has_node new layout.nodes
    then none
    else if has_node old layout.nodes
    then some (record layout { nodes = rename_nodes old new layout.nodes })
    else none

unfoldable pub remove_layout_node : LayoutConfig → String → LayoutConfig
unfolding keep
remove_layout_node layout k = record layout {
  nodes = keep (λ n. if n.node_id == k then Bool.false else Bool.true) layout.nodes;
}

unfoldable pub rectangles_overlap : LayoutNode → LayoutNode → Bool
unfolding right bottom
rectangles_overlap a b =
    ltb_ℤ a.x (right b) && ltb_ℤ b.x (right a) && ltb_ℤ a.y (bottom b) && ltb_ℤ b.y (bottom a)

overlaps_of : LayoutNode → List LayoutNode → List (String × String)
overlaps_of a [] = []
overlaps_of a (b ∷ ns) =
    let rest = overlaps_of a ns in
    if rectangles_overlap a b then (a.node_id, b.node_id) ∷ rest else rest

overlapping_pairs : List LayoutNode → List (String × String)
overlapping_pairs [] = []
overlapping_pairs (n ∷ ns) = overlaps_of n ns ++ overlapping_pairs ns

unfoldable pub find_overlapping_nodes : LayoutConfig → List (String × String)
unfolding overlaps_of overlapping_pairs
find_overlapping_nodes layout = overlapping_pairs layout.nodes
