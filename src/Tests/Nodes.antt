-- ===== src/Tests/Nodes.antt =====
-- Two updates of the node list that start from revision 0.
use multi_controller.Prelude.{◌≡◌, arith, none, some, []}
use multi_controller.Prelude.Int.{pos}
use multi_controller.Coordination.Service.Nodes.{leaves, on_node_list_update_request}
use multi_controller.Coordination.Service.Nodes.Revision.{on_node_list_update_request-once}
use multi_controller.Tests.Samples.{desk, laptop, context_of, desk_registry, leased}

on_node_list_update_request-once_example :
    (on_node_list_update_request
      (on_node_list_update_request leased desk_registry "laptop"
        (some [])
        (some (pos 0))
        none
        (leaves (context_of desk))).0
      desk_registry
      "tower"
      (some [])
      (some (pos 0))
      none
      (leaves (context_of laptop))).0
    ≡ (on_node_list_update_request leased desk_registry "laptop"
        (some [])
        (some (pos 0))
        none
        (leaves (context_of desk))).0
unfolding on_node_list_update_request
on_node_list_update_request-once_example =
    on_node_list_update_request-once leased desk_registry desk_registry "laptop" "tower" (pos 0) []
      [] none none (leaves (context_of desk)) (leaves (context_of laptop)) (ground arith)
