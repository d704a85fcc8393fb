-- ===== src/Routing/Edges.antt =====
-- control/routing/routing_table.py and edge_routing.py: which display lies behind an edge, and what happens when the
-- pointer presses it. The coordinates are integers; a float of one is exact. Where the pointer is along the edge is a
-- float, so two tests on it are arguments: `contains` is `range_start <= point < range_end`, and `closer` is the order
-- of the distances of two centres from the point, both for the axis of the slot. A direction is one of the four.
pub mod Behind
pub mod Crossing
use multi_controller.Prelude.{
  Bool, true, false, not, ◌&&◌, Option, none, some, List, [], ◌∷◌, ◌++◌, String, ◌==◌,
  if◌then◌else◌, keep,
}
use multi_controller.Prelude.Int.{ℤ, pos, ◌+ℤ◌, ltb_ℤ, eqb_ℤ}
use multi_controller.Display.Layout.{
  LayoutDisplay, LayoutNode, LayoutConfig, MonitorTopology, get_node,
}

pub data Direction : Type 0 where
  left right up down : Direction

pub record Rect : Type 0 where
  pub left : ℤ
  pub top : ℤ
  pub right : ℤ
  pub bottom : ℤ

pub record DisplayRef : Type 0 where
  pub node_id : String
  pub display_id : String

-- `center` counts halves.
pub record EdgeCandidate : Type 0 where
  pub node_id : String
  pub display_id : String
  pub range_start : ℤ
  pub range_end : ℤ
  pub center : ℤ

pub record EdgeSlot : Type 0 where
  pub axis_start : ℤ
  pub axis_end : ℤ
  pub physical_candidates : List EdgeCandidate
  pub logical_candidates : List EdgeCandidate

unfoldable pub offset_rect : LayoutDisplay → ℤ → ℤ → Rect
offset_rect d x y = record {
  left = d.x +ℤ x;
  top = d.y +ℤ y;
  right = (d.x +ℤ d.width) +ℤ x;
  bottom = (d.y +ℤ d.height) +ℤ y;
}

abbrev pub range_start_of : Direction → Rect → ℤ
range_start_of left r = r.top
range_start_of right r = r.top
range_start_of up r = r.left
range_start_of down r = r.left

abbrev pub range_end_of : Direction → Rect → ℤ
range_end_of left r = r.bottom
range_end_of right r = r.bottom
range_end_of up r = r.right
range_end_of down r = r.right

abbrev max_ℤ : ℤ → ℤ → ℤ
max_ℤ a b = if ltb_ℤ a b then b else a

abbrev min_ℤ : ℤ → ℤ → ℤ
min_ℤ a b = if ltb_ℤ b a then b else a

unfoldable pub is_neighbor : Rect → Rect → Direction → Bool
is_neighbor a b left = eqb_ℤ b.right a.left && ltb_ℤ (max_ℤ a.top b.top) (min_ℤ a.bottom b.bottom)
is_neighbor a b right = eqb_ℤ b.left a.right && ltb_ℤ (max_ℤ a.top b.top) (min_ℤ a.bottom b.bottom)
is_neighbor a b up = eqb_ℤ b.bottom a.top && ltb_ℤ (max_ℤ a.left b.left) (min_ℤ a.right b.right)
is_neighbor a b down = eqb_ℤ b.top a.bottom && ltb_ℤ (max_ℤ a.left b.left) (min_ℤ a.right b.right)

unfoldable pub candidate_of : String → String → Rect → Direction → EdgeCandidate
candidate_of k e r direction = record {
  node_id = k;
  display_id = e;
  range_start = range_start_of direction r;
  range_end = range_end_of direction r;
  center = range_start_of direction r +ℤ range_end_of direction r;
}

-- The displays of one node that lie behind the edge, without the one that is skipped.
unfoldable pub candidates_in :
    (LayoutDisplay → Bool)
    → Rect
    → Direction
    → String
    → ℤ
    → ℤ
    → List LayoutDisplay
    → List EdgeCandidate
unfolding is_neighbor offset_rect candidate_of
candidates_in skip rect direction k x y [] = []
candidates_in skip rect direction k x y (d ∷ ds) =
    let rest = candidates_in skip rect direction k x y ds in
    if skip d
    then rest
    else if is_neighbor rect (offset_rect d x y) direction
    then candidate_of k d.display_id (offset_rect d x y) direction ∷ rest
    else rest

unfoldable pub last_display : String → List LayoutDisplay → Option LayoutDisplay
last_display e [] = none
last_display e (d ∷ ds) = elim (last_display e ds) [
  | some f ↦ some f
  | none ↦ if d.display_id == e then some d else none
]

-- `min(candidates, key=...)`: the first of the least.
nearest :
    (EdgeCandidate → EdgeCandidate → Bool) → EdgeCandidate → List EdgeCandidate → EdgeCandidate
nearest closer best [] = best
nearest closer best (c ∷ cs) = nearest closer (if closer c best then c else best) cs

nearest_of : (EdgeCandidate → EdgeCandidate → Bool) → List EdgeCandidate → Option EdgeCandidate
unfolding nearest
nearest_of closer [] = none
nearest_of closer (c ∷ cs) = some (nearest closer c cs)

unfoldable pub pick_candidate :
    (EdgeCandidate → Bool)
    → (EdgeCandidate → EdgeCandidate → Bool)
    → List EdgeCandidate
    → Option EdgeCandidate
unfolding nearest_of keep
pick_candidate contains closer cs = elim (nearest_of closer (keep contains cs)) [
  | some c ↦ some c
  | none ↦ nearest_of closer cs
]

pub data EdgeRoute : Type 0 where
  allow : EdgeRoute
  block :
      (destination : Option DisplayRef)
      → (logical_neighbor : Option String) → (reason : String) → EdgeRoute
  self_warp target_switch : DisplayRef → EdgeRoute

-- `monitors` gives the displays of a node, with the default where its layout names none.
module _ (monitors : LayoutNode → MonitorTopology) where
  unfoldable pub physical_candidates :
      LayoutNode → LayoutDisplay → Direction → List LayoutNode → List EdgeCandidate
  unfolding candidates_in offset_rect
  physical_candidates n d direction [] = []
  physical_candidates n d direction (o ∷ os) =
      candidates_in (λ e. o.node_id == n.node_id && e.display_id == d.display_id)
        (offset_rect d n.x n.y) direction o.node_id o.x o.y (monitors o).physical
      ++ physical_candidates n d direction os

  logical_of : LayoutNode → Direction → Option LayoutDisplay → List EdgeCandidate
  unfolding candidates_in offset_rect
  logical_of n direction none = []
  logical_of n direction (some d) =
      candidates_in (λ e. e.display_id == d.display_id) (offset_rect d (pos 0) (pos 0)) direction
        n.node_id (pos 0) (pos 0) (monitors n).logical

  -- What `_build_slots` makes for a display of a node.
  unfoldable pub slot_of : LayoutConfig → LayoutNode → LayoutDisplay → Direction → EdgeSlot
  unfolding physical_candidates logical_of last_display offset_rect
  slot_of layout n d direction = record {
    axis_start = range_start_of direction (offset_rect d n.x n.y);
    axis_end = range_end_of direction (offset_rect d n.x n.y);
    physical_candidates = physical_candidates n d direction layout.nodes;
    logical_candidates = logical_of n direction (last_display d.display_id (monitors n).logical);
  }

  -- The node and the display whose slot is written last under the two ids.
  unfoldable pub last_place :
      String → String → List LayoutNode → Option (LayoutNode × LayoutDisplay)
  unfolding last_display
  last_place k e [] = none
  last_place k e (n ∷ ns) = elim (last_place k e ns) [
    | some place ↦ some place
    | none ↦
        if n.node_id == k
        then elim (last_display e (monitors n).physical) [ none ↦ none | some d ↦ some (n, d) ]
        else none
  ]

  unfoldable pub slot_for : LayoutConfig → String → String → Direction → Option EdgeSlot
  unfolding last_place slot_of
  slot_for layout k e direction = elim (last_place k e layout.nodes) [
    | none ↦ none
    | some place ↦ some (slot_of layout place.0 place.1 direction)
  ]

  module _ (contains : (axis_start axis_end : ℤ) → EdgeCandidate → Bool)
      (closer : (axis_start axis_end : ℤ) → EdgeCandidate → EdgeCandidate → Bool)
      (layout : LayoutConfig) (self_node_id current_node_id current_display_id : String)
      (direction : Direction) (is_target_online : String → Bool) (allow_remote_switch : Bool) where
    unfoldable pub pick : EdgeSlot → List EdgeCandidate → Option EdgeCandidate
    unfolding pick_candidate
    pick slot cs =
        pick_candidate (contains slot.axis_start slot.axis_end)
          (closer slot.axis_start slot.axis_end) cs

    -- No display lies behind the edge.
    no_display : Option EdgeCandidate → EdgeRoute
    no_display none =
        if current_node_id == self_node_id then block none none "self-dead-edge" else allow
    no_display (some neighbour) =
        if current_node_id == self_node_id
        then block none (some neighbour.display_id) "self-logical-gap"
        else block none (some neighbour.display_id) "target-logical-gap"

    to_display : DisplayRef → EdgeRoute
    to_display d =
        if d.node_id == current_node_id
        then (if d.display_id == current_display_id then allow else self_warp d)
        else if not allow_remote_switch
        then block (some d) none "remote-switch-disabled"
        else if not (d.node_id == self_node_id) && not (is_target_online d.node_id)
        then (if current_node_id == self_node_id
            then block (some d) none "offline-target"
            else allow)
        else target_switch d

    route_of : Option EdgeCandidate → Option EdgeCandidate → EdgeRoute
    unfolding no_display to_display
    route_of none neighbour = no_display neighbour
    route_of (some c) neighbour =
        to_display (record { node_id = c.node_id; display_id = c.display_id })

    unfoldable pub resolve_edge_route : EdgeRoute
    unfolding slot_for pick route_of
    resolve_edge_route = elim (get_node layout current_node_id) [
      | none ↦ allow
      | some n ↦ elim (slot_for layout current_node_id current_display_id direction) [
        | none ↦ allow
        | some slot ↦
            route_of (pick slot slot.physical_candidates) (pick slot slot.logical_candidates)
      ]
    ]
