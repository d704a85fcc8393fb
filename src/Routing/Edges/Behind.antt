-- ===== src/Routing/Edges/Behind.antt =====
-- The displays that lie behind an edge, and the choice among them.
use multi_controller.Prelude.{
  ◌≡◌, refl, inl, inr, Bool, true, ◌&&◌, Option, none, some, List, [], ◌∷◌, String, ◌==◌, arith,
  if◌then◌else◌, keep, All, All-append, In, if_both, if_given,
}
use multi_controller.Display.Layout.{LayoutDisplay, LayoutNode, MonitorTopology}
use multi_controller.Routing.Edges.{
  Direction, left, right, up, down, Rect, EdgeCandidate, offset_rect, is_neighbor, candidate_of,
  candidates_in, nearest, nearest_of, pick_candidate, physical_candidates,
}

abbrev pub opposite : Direction → Direction
opposite left = right
opposite right = left
opposite up = down
opposite down = up

-- The way back: a display lies behind an edge of another one exactly if that one lies behind the opposite edge.
pub is_neighbor-opposite :
    (a b : Rect) (d : Direction) → is_neighbor b a (opposite d) ≡ is_neighbor a b d
unfolding is_neighbor
is_neighbor-opposite a b left = ground arith
is_neighbor-opposite a b right = ground arith
is_neighbor-opposite a b up = ground arith
is_neighbor-opposite a b down = ground arith

-- The display of a node that a candidate names, and it lies behind the edge of the rectangle.
pub record Leads (monitors : LayoutNode → MonitorTopology) (rect : Rect) (direction : Direction)
    (nodes : List LayoutNode) (node_id display_id : String) : Type 0 where
  pub node : LayoutNode
  pub display : LayoutDisplay
  pub node_in : In node nodes
  pub display_in : In display (monitors node).physical
  pub node_named : node.node_id ≡ node_id
  pub display_named : display.display_id ≡ display_id
  pub touches : is_neighbor rect (offset_rect display node.x node.y) direction ≡ true

module _ (monitors : LayoutNode → MonitorTopology) (rect : Rect) (direction : Direction) where
  abbrev pub Behind : List LayoutNode → EdgeCandidate → Type 0
  Behind nodes c = Leads monitors rect direction nodes c.node_id c.display_id

  later :
      (o : LayoutNode) (nodes : List LayoutNode) (c : EdgeCandidate)
      → Behind nodes c
      → Behind (o ∷ nodes) c
  later o nodes c h = record {
    node = h.node;
    display = h.display;
    node_in = inr h.node_in;
    display_in = h.display_in;
    node_named = h.node_named;
    display_named = h.display_named;
    touches = h.touches;
  }

  All-later :
      (o : LayoutNode) (nodes : List LayoutNode) (cs : List EdgeCandidate)
      → All (Behind nodes) cs
      → All (Behind (o ∷ nodes)) cs
  All-later o nodes [] h = tt
  All-later o nodes (c ∷ cs) h = (later o nodes c h.0, All-later o nodes cs h.1)

  -- The candidates of one node, for a part of its displays.
  candidates_in-All :
      (skip : LayoutDisplay → Bool) (o : LayoutNode) (nodes : List LayoutNode)
      (ds : List LayoutDisplay)
      → ((e : LayoutDisplay) → In e ds → In e (monitors o).physical)
      → All (Behind (o ∷ nodes)) (candidates_in skip rect direction o.node_id o.x o.y ds)
  unfolding candidates_in candidate_of
  candidates_in-All skip o nodes [] all = tt
  candidates_in-All skip o nodes (d ∷ ds) all =
      let rest = candidates_in-All skip o nodes ds (λ e h. all e (inr h)) in
      if_both (All (Behind (o ∷ nodes))) (skip d) _ _ rest (
        if_given (All (Behind (o ∷ nodes))) (is_neighbor rect (offset_rect d o.x o.y) direction) _ _
          (λ t. (
            record {
              node = o;
              display = d;
              node_in = inl refl;
              display_in = all d (inl refl);
              node_named = refl;
              display_named = refl;
              touches = t;
            },
            rest,
          ))
          (λ f. rest))

module _ (monitors : LayoutNode → MonitorTopology) where
  pub physical_candidates-All :
      (n : LayoutNode) (d : LayoutDisplay) (direction : Direction) (nodes : List LayoutNode)
      → All
          (Behind monitors (offset_rect d n.x n.y) direction nodes)
          (physical_candidates monitors n d direction nodes)
  unfolding physical_candidates
  physical_candidates-All n d direction [] = tt
  physical_candidates-All n d direction (o ∷ os) =
      All-append _ _ _
        (candidates_in-All monitors (offset_rect d n.x n.y) direction
          (λ e. o.node_id == n.node_id && e.display_id == d.display_id) o os (monitors o).physical
          (λ e h. h))
        (All-later monitors (offset_rect d n.x n.y) direction o os _
          (physical_candidates-All n d direction os))

module _ (P : EdgeCandidate → Type 0) where
  keep-All : (p : EdgeCandidate → Bool) (cs : List EdgeCandidate) → All P cs → All P (keep p cs)
  unfolding keep
  keep-All p [] h = tt
  keep-All p (c ∷ cs) h = if_both (All P) (p c) _ _ (h.0, keep-All p cs h.1) (keep-All p cs h.1)

  nearest-All :
      (closer : EdgeCandidate → EdgeCandidate → Bool) (cs : List EdgeCandidate)
      (best : EdgeCandidate)
      → P best
      → All P cs
      → P (nearest closer best cs)
  unfolding nearest
  nearest-All closer [] best b h = b
  nearest-All closer (c ∷ cs) best b h =
      nearest-All closer cs (if closer c best then c else best)
        (if_both P (closer c best) c best h.0 b) h.1

  abbrev pub Holds : Option EdgeCandidate → Type 0
  Holds none = Unit
  Holds (some c) = P c

  nearest_of-Holds :
      (closer : EdgeCandidate → EdgeCandidate → Bool) (cs : List EdgeCandidate)
      → All P cs
      → Holds (nearest_of closer cs)
  unfolding nearest_of
  nearest_of-Holds closer [] h = tt
  nearest_of-Holds closer (c ∷ cs) h = nearest-All closer cs c h.0 h.1

  first_of :
      (a b : Option EdgeCandidate)
      → Holds a
      → Holds b
      → Holds (elim a [ some c ↦ some c | none ↦ b ])
  first_of none b h k = k
  first_of (some c) b h k = h

  pub pick_candidate-Holds :
      (contains : EdgeCandidate → Bool) (closer : EdgeCandidate → EdgeCandidate → Bool)
      (cs : List EdgeCandidate)
      → All P cs
      → Holds (pick_candidate contains closer cs)
  unfolding pick_candidate
  pick_candidate-Holds contains closer cs h =
      first_of (nearest_of closer (keep contains cs)) (nearest_of closer cs)
        (nearest_of-Holds closer (keep contains cs) (keep-All contains cs h))
        (nearest_of-Holds closer cs h)
