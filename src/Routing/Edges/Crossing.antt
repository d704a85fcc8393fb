-- ===== src/Routing/Edges/Crossing.antt =====
-- Where the pointer goes when it leaves a display for another node.
use multi_controller.Prelude.{
  ◌≡◌, ◌⊎◌, refl, inl, inr, Bool, true, false, not, ◌&&◌, Option, none, some, List, [], ◌∷◌, String,
  ◌==◌, eq_iff, arith, if◌then◌else◌, All, In, if_both, if_given, option_both,
}
use multi_controller.Prelude.Int.{ℤ}
use multi_controller.Display.Layout.{
  LayoutDisplay, LayoutNode, LayoutConfig, MonitorTopology, get_node,
}
use multi_controller.Routing.Edges.{
  Direction, DisplayRef, EdgeCandidate, EdgeSlot, offset_rect, last_display, EdgeRoute, allow,
  self_warp, target_switch, slot_of, last_place, slot_for, pick, no_display, to_display, route_of,
  resolve_edge_route,
}
use multi_controller.Routing.Edges.Behind.{
  Leads, Holds, physical_candidates-All, pick_candidate-Holds,
}

module _ (monitors : LayoutNode → MonitorTopology) where
  abbrev FoundDisplay : String → List LayoutDisplay → Option LayoutDisplay → Type 0
  FoundDisplay e ds none = Unit
  FoundDisplay e ds (some d) = In d ds × (d.display_id ≡ e)

  last_display-found :
      (e : String) (ds : List LayoutDisplay) → FoundDisplay e ds (last_display e ds)
  unfolding last_display
  last_display-found e [] = tt
  last_display-found e (d ∷ ds) = found (last_display e ds) (last_display-found e ds)
    where
      found :
          (o : Option LayoutDisplay)
          → FoundDisplay e ds o
          → FoundDisplay e
              (d ∷ ds)
              (elim o [ some f ↦ some f | none ↦ if d.display_id == e then some d else none ])
      found none h =
          if_given (FoundDisplay e (d ∷ ds)) (d.display_id == e) _ _
            (λ q. (inl refl, ground (arith, eq_iff d.display_id e))) (λ q. tt)
      found (some f) h = (inr h.0, h.1)

  -- The node and the display that have the two ids.
  abbrev FoundPlace :
      String → String → List LayoutNode → Option (LayoutNode × LayoutDisplay) → Type 0
  FoundPlace k e nodes none = Unit
  FoundPlace k e nodes (some (n, d)) =
      In n nodes × In d (monitors n).physical × (n.node_id ≡ k) × (d.display_id ≡ e)

  here_found :
      (k e : String) (n : LayoutNode) (ns : List LayoutNode) (o : Option LayoutDisplay)
      → n.node_id ≡ k
      → FoundDisplay e (monitors n).physical o
      → FoundPlace k e (n ∷ ns) (elim o [ none ↦ none | some d ↦ some (n, d) ])
  here_found k e n ns none q h = tt
  here_found k e n ns (some d) q h = (inl refl, h.0, q, h.1)

  last_place-found :
      (k e : String) (nodes : List LayoutNode)
      → FoundPlace k e nodes (last_place monitors k e nodes)
  unfolding last_place
  last_place-found k e [] = tt
  last_place-found k e (n ∷ ns) = found (last_place monitors k e ns) (last_place-found k e ns)
    where
      found :
          (o : Option (LayoutNode × LayoutDisplay))
          → FoundPlace k e ns o
          → FoundPlace k e (n ∷ ns) (elim o [
            | some place ↦ some place
            | none ↦
                if n.node_id == k
                then elim (last_display e (monitors n).physical) [
                  | none ↦ none
                  | some d ↦ some (n, d)
                ]
                else none
          ])
      found none h =
          if_given (FoundPlace k e (n ∷ ns)) (n.node_id == k) _ _
            (λ q.
              here_found k e n ns (last_display e (monitors n).physical)
                (ground (arith, eq_iff n.node_id k)) (last_display-found e (monitors n).physical))
            (λ q. tt)
      found (some (m, d)) h = (inr h.0, h.1, h.2, h.3)

  module _ (contains : (axis_start axis_end : ℤ) → EdgeCandidate → Bool)
      (closer : (axis_start axis_end : ℤ) → EdgeCandidate → EdgeCandidate → Bool)
      (layout : LayoutConfig) (self_node_id current_node_id current_display_id : String)
      (direction : Direction) (is_target_online : String → Bool) (allow_remote_switch : Bool) where
    -- The display lies behind the edge of the current display.
    pub record IsBehind (d : DisplayRef) : Type 0 where
      pub from : LayoutNode
      pub from_display : LayoutDisplay
      pub from_in : In from layout.nodes
      pub from_display_in : In from_display (monitors from).physical
      pub from_named : from.node_id ≡ current_node_id
      pub from_display_named : from_display.display_id ≡ current_display_id
      pub leads :
          Leads monitors
            (offset_rect from_display from.x from.y)
            direction
            layout.nodes
            d.node_id
            d.display_id

    -- What a route says of the display that it leads to.
    abbrev pub IsSafe : EdgeRoute → Type 0
    IsSafe (target_switch d) =
        IsBehind d
        × ((d.node_id == current_node_id) ≡ false)
        × (allow_remote_switch ≡ true)
        × (((d.node_id == self_node_id) ≡ true) ⊎ (is_target_online d.node_id ≡ true))
    IsSafe (self_warp d) = IsBehind d × ((d.node_id == current_node_id) ≡ true)
    IsSafe _ = Unit

    to_display-IsSafe :
        (d : DisplayRef)
        → IsBehind d
        → IsSafe (
            to_display monitors contains closer layout self_node_id current_node_id
              current_display_id direction is_target_online allow_remote_switch d)
    unfolding to_display
    to_display-IsSafe d h =
        if_given IsSafe (d.node_id == current_node_id) _ _
          (λ own.
            if_both IsSafe (d.display_id == current_display_id) allow (self_warp d) tt (h, own))
          (λ away.
            if_given IsSafe (not allow_remote_switch) _ _ (λ n. tt)
              (λ allowed.
                if_given IsSafe
                  (not (d.node_id == self_node_id) && not (is_target_online d.node_id)) _ _
                  (λ n. if_both IsSafe (current_node_id == self_node_id) _ _ tt tt)
                  (λ reachable. (
                    h,
                    away,
                    yes allow_remote_switch allowed,
                    either (d.node_id == self_node_id) (is_target_online d.node_id) reachable,
                  ))))
      where
        yes : (b : Bool) → not b ≡ false → b ≡ true
        yes true n = refl
        yes false n = ground arith

        either : (p q : Bool) → (not p && not q) ≡ false → (p ≡ true) ⊎ (q ≡ true)
        either true q n = inl refl
        either false true n = inr refl
        either false false n = ground arith

    abbrev routed : Option EdgeCandidate → Option EdgeCandidate → EdgeRoute
    routed a b =
        route_of monitors contains closer layout self_node_id current_node_id current_display_id
          direction is_target_online allow_remote_switch a b

    abbrev IsBehindCandidate : EdgeCandidate → Type 0
    IsBehindCandidate c = IsBehind (record { node_id = c.node_id; display_id = c.display_id })

    route_of-IsSafe : (a b : Option EdgeCandidate) → Holds IsBehindCandidate a → IsSafe (routed a b)
    unfolding route_of no_display
    route_of-IsSafe none none h = if_both IsSafe (current_node_id == self_node_id) _ _ tt tt
    route_of-IsSafe none (some c) h = if_both IsSafe (current_node_id == self_node_id) _ _ tt tt
    route_of-IsSafe (some c) b h =
        to_display-IsSafe (record { node_id = c.node_id; display_id = c.display_id }) h

    All-behind :
        (n : LayoutNode) (d : LayoutDisplay) (cs : List EdgeCandidate)
        → In n layout.nodes
        → In d (monitors n).physical
        → n.node_id ≡ current_node_id
        → d.display_id ≡ current_display_id
        → All
            (λ c.
              Leads monitors (offset_rect d n.x n.y) direction layout.nodes c.node_id c.display_id)
            cs
        → All IsBehindCandidate cs
    All-behind n d [] i j p q h = tt
    All-behind n d (c ∷ cs) i j p q h = (
      record {
        from = n;
        from_display = d;
        from_in = i;
        from_display_in = j;
        from_named = p;
        from_display_named = q;
        leads = h.0;
      },
      All-behind n d cs i j p q h.1,
    )

    abbrev picked : EdgeSlot → List EdgeCandidate → Option EdgeCandidate
    picked slot cs =
        pick monitors contains closer layout self_node_id current_node_id current_display_id
          direction is_target_online allow_remote_switch slot cs

    placed-IsSafe :
        (p : Option (LayoutNode × LayoutDisplay))
        → FoundPlace current_node_id current_display_id layout.nodes p
        → IsSafe
            (elim (elim p as (λ x. Option EdgeSlot) [
              | none ↦ none
              | some place ↦ some (slot_of monitors layout place.0 place.1 direction)
            ]) [
              | none ↦ allow
              | some slot ↦
                  routed
                    (picked slot slot.physical_candidates)
                    (picked slot slot.logical_candidates)
            ])
    unfolding pick slot_of
    placed-IsSafe none h = tt
    placed-IsSafe (some (n, d)) h =
        let slot = slot_of monitors layout n d direction in
        route_of-IsSafe (picked slot slot.physical_candidates) (picked slot slot.logical_candidates)
          (pick_candidate-Holds IsBehindCandidate (contains slot.axis_start slot.axis_end)
            (closer slot.axis_start slot.axis_end) slot.physical_candidates
            (All-behind n d _ h.0 h.1 h.2 h.3
              (physical_candidates-All monitors n d direction layout.nodes)))

    -- When the pointer presses an edge, a switch to another node happens only where it is right: the destination is
    -- the display of a node of the layout that touches the current display along that edge, it belongs to another
    -- node than the current one, remote switching is allowed, and the node is online or is the own one. A warp leads to
    -- a display of the current node that touches the edge. This holds whatever the tests on the point along the
    -- edge say.
    pub resolve_edge_route-IsSafe : IsSafe (
        resolve_edge_route monitors contains closer layout self_node_id current_node_id
          current_display_id direction is_target_online allow_remote_switch)
    unfolding resolve_edge_route slot_for
    resolve_edge_route-IsSafe =
        option_both IsSafe (get_node layout current_node_id) allow _ tt (λ n.
          placed-IsSafe (last_place monitors current_node_id current_display_id layout.nodes)
            (last_place-found current_node_id current_display_id layout.nodes))
