-- ===== src/Tests/Election.antt =====
-- The choice of the coordinator on the group of three.
use multi_controller.Prelude.{◌≡◌, refl, true, none, some, String, eq_iff, arith}
use multi_controller.Prelude.Dict
use multi_controller.Context.{get_node, NodeInfo}
use multi_controller.Coordination.Election.{
  pick_coordinator, is_self_coordinator, online_nodes, values, online, min_node, key_leb,
  coordinator_sort_key, coordinator_priority_sort_value,
}
use multi_controller.Coordination.Election.Order.{LebNode}
use multi_controller.Coordination.Election.Online.{is_online, connected}
use multi_controller.Coordination.Election.Agreement.{
  pick_coordinator-least, pick_coordinator-agree, pick_coordinator-excluding,
}
use multi_controller.Tests.Samples.{desk, laptop, context_of, desk_registry, laptop_registry}

pick_coordinator-least_example :
    ((k : String) × (is_online (context_of laptop) laptop_registry k ≡ true)
      × (get_node (context_of laptop) k
          ≡ some (pick_coordinator (context_of laptop) laptop_registry none)))
    × ((k : String) (n : NodeInfo)
        → is_online (context_of laptop) laptop_registry k ≡ true
        → get_node (context_of laptop) k ≡ some n
        → LebNode (pick_coordinator (context_of laptop) laptop_registry none) n)
pick_coordinator-least_example =
    pick_coordinator-least (context_of laptop) laptop_registry (unfold get_node in refl)

same_view :
    (k : String)
    → is_online (context_of desk) desk_registry k ≡ is_online (context_of laptop) laptop_registry k
unfolding is_online connected
same_view k = ground (arith, eq_iff "desk" k, eq_iff "laptop" k, eq_iff "tower" k)

pick_coordinator-agree_example :
    (pick_coordinator (context_of desk) desk_registry none).node_id
    ≡ (pick_coordinator (context_of laptop) laptop_registry none).node_id
pick_coordinator-agree_example =
    pick_coordinator-agree (context_of desk) (context_of laptop) desk_registry laptop_registry
      (unfold get_node in refl) (unfold get_node in refl) (λ k. unfold get_node in refl) same_view

desk_is_coordinator : is_self_coordinator (context_of desk) desk_registry ≡ true
unfolding is_self_coordinator pick_coordinator online_nodes values online get_node Dict.set min_node
    key_leb coordinator_sort_key coordinator_priority_sort_value
desk_is_coordinator = refl

desk-elected : (pick_coordinator (context_of laptop) laptop_registry none).node_id ≡ "desk"
unfolding pick_coordinator online_nodes values online get_node Dict.set min_node key_leb
    coordinator_sort_key coordinator_priority_sort_value
desk-elected = refl

pick_coordinator-excluding_example :
    pick_coordinator (context_of laptop) laptop_registry (some "desk")
    ≡ pick_coordinator (context_of laptop) (Dict.delete "desk" laptop_registry) none
pick_coordinator-excluding_example =
    pick_coordinator-excluding (context_of laptop) laptop_registry "desk"
      (λ h. ground (arith, eq_iff "desk" "laptop"))
