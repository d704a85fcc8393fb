-- ===== src/Context.antt =====
-- control/state/context.py: the nodes of the group and the node that runs the program.
use multi_controller.Prelude.{
  ℕ, true, false, Option, none, some, List, [], ◌∷◌, String, ◌==◌, eq_iff, arith, if◌then◌else◌,
  keep, ◌≡◌,
}
use multi_controller.Prelude.Int.{ℤ}
use multi_controller.Prelude.Dict
use multi_controller.Prelude.Dict.{Dict}
use multi_controller.Display.Layout.{LayoutConfig}
use multi_controller.Display.Inventory.{MonitorInventorySnapshot}

pub record NodeInfo : Type 0 where
  pub name : String
  pub ip : String
  pub port : ℕ
  pub note : String
  pub node_id : String
  pub priority : ℤ

pub record Context : Type 0 where
  pub self_node : NodeInfo
  pub nodes : List NodeInfo
  pub layout : Option LayoutConfig
  pub monitor_inventories : Dict MonitorInventorySnapshot

unfoldable pub find_node : String → List NodeInfo → Option NodeInfo
find_node k [] = none
find_node k (n ∷ ns) = if n.node_id == k then some n else find_node k ns

-- `RuntimeContext.get_node`.
unfoldable pub get_node : Context → String → Option NodeInfo
unfolding find_node
get_node ctx k = find_node k ctx.nodes

-- `RuntimeContext.peers`.
unfoldable pub peers : Context → List NodeInfo
unfolding keep
peers ctx = keep (λ n. if n.node_id == ctx.self_node.node_id then false else true) ctx.nodes

-- `RuntimeContext.replace_nodes`: the own entry is taken from the new list if it is there.
unfoldable pub replace_nodes : Context → List NodeInfo → Context
unfolding find_node
replace_nodes ctx nodes = elim (find_node ctx.self_node.node_id nodes) [
  | none ↦ record ctx { nodes = nodes }
  | some n ↦ record ctx { nodes = nodes; self_node = n }
]

-- The nodes with a new note at one of them.
unfoldable pub note_nodes : String → String → List NodeInfo → List NodeInfo
note_nodes target note [] = []
note_nodes target note (n ∷ ns) =
    (if n.node_id == target then record n { note = note } else n) ∷ note_nodes target note ns

-- `RuntimeContext.replace_monitor_inventory`.
unfoldable pub replace_monitor_inventory : Context → MonitorInventorySnapshot → Context
replace_monitor_inventory ctx snapshot = if snapshot.node_id == "" then ctx else record ctx {
  monitor_inventories = Dict.set snapshot.node_id snapshot ctx.monitor_inventories;
}

pub find_node-id :
    (k : String) (ns : List NodeInfo) (n : NodeInfo)
    → find_node k ns ≡ some n
    → (n.node_id == k) ≡ true
unfolding find_node
find_node-id k [] n h = cc
find_node-id k (m ∷ ns) n h = ground (arith, eq_iff m.node_id k, find_node-id k ns n)
