-- ===== src/Display/Layout/Edits.antt =====
-- Moving, renaming, adding and removing a node of a layout, seen through the lookup of a node.
use multi_controller.Prelude.{
  ◌≡◌, ◌≢◌, refl, true, false, inl, inr, Option, none, some, List, [], ◌∷◌, ◌++◌, String, ◌==◌,
  eq_iff, arith, any, keep, Bool-cases, if◌then◌else◌,
}
use multi_controller.Prelude.Int.{ℤ, pos}
use multi_controller.Display.Layout.{
  LayoutNode, LayoutConfig, next_x, find_node, get_node, has_node, move_node, replace_layout_node,
  append_layout_node, rename_nodes, rename_layout_node, remove_layout_node,
}

abbrev pub moved : ℤ → ℤ → Option LayoutNode → Option LayoutNode
moved x y none = none
moved x y (some n) = some (record n { x = x; y = y })

abbrev pub renamed : String → Option LayoutNode → Option LayoutNode
renamed k none = none
renamed k (some n) = some (record n { node_id = k })

find_node-move_node :
    (k t : String) (x y : ℤ) (ns : List LayoutNode)
    → find_node t (move_node k x y ns)
      ≡ (if k == t then moved x y (find_node t ns) else find_node t ns)
unfolding find_node move_node
find_node-move_node k t x y [] = ground arith
find_node-move_node k t x y (n ∷ ns) =
    ground
      (arith, eq_iff n.node_id k, eq_iff n.node_id t, eq_iff k t, find_node-move_node k t x y ns)

-- Moving a node changes the position of that node only.
pub get_node-replace_layout_node :
    (layout : LayoutConfig) (k t : String) (x y : ℤ)
    → get_node (replace_layout_node layout k x y) t
      ≡ (if k == t then moved x y (get_node layout t) else get_node layout t)
unfolding get_node replace_layout_node
get_node-replace_layout_node layout k t x y = find_node-move_node k t x y layout.nodes

find_node-rename_nodes :
    (old new t : String) (ns : List LayoutNode)
    → has_node new ns ≡ false
    → (old == new) ≡ false
    → find_node t (rename_nodes old new ns) ≡ (
        if t == new
        then renamed new (find_node old ns)
        else if t == old
        then none
        else find_node t ns)
unfolding find_node rename_nodes has_node any
find_node-rename_nodes old new t [] h d = ground arith
find_node-rename_nodes old new t (n ∷ ns) h d =
    let fresh : has_node new ns ≡ false = unfold has_node any in ground arith in
    let rest = find_node-rename_nodes old new t ns fresh d in
    elim (Bool-cases (n.node_id == old)) [
      | inl e ↦ rw e (
          ground (
            arith,
            eq_iff n.node_id old,
            eq_iff n.node_id t,
            eq_iff t old,
            eq_iff t new,
            eq_iff new t,
          ))
      | inr e ↦
          rw e
            (ground (arith, eq_iff n.node_id t, eq_iff t old, eq_iff t new, eq_iff n.node_id new))
    ]

rename_nodes-back :
    (old new : String) (ns : List LayoutNode)
    → has_node new ns ≡ false
    → rename_nodes new old (rename_nodes old new ns) ≡ ns
unfolding rename_nodes has_node any
rename_nodes-back old new [] h = refl
rename_nodes-back old new (n ∷ ns) h = ground (
  arith,
  eq_iff n.node_id old,
  eq_iff n.node_id new,
  eq_iff new new,
  eq_iff old new,
  rename_nodes-back old new ns,
)

append-fresh :
    (k : String) (n : LayoutNode) (ns : List LayoutNode)
    → n.node_id ≡ k
    → has_node k ns ≡ false
    → keep (λ m. if m.node_id == k then false else true) (ns ++ n ∷ []) ≡ ns
unfolding keep has_node any
append-fresh k n [] e h = ground (arith, eq_iff n.node_id k)
append-fresh k n (m ∷ ns) e h = ground (arith, append-fresh k n ns)

-- A rename to a name that is not taken gives the node its new name and keeps the rest of it; the old name
-- is gone and every other node is as it was.
pub get_node-rename_layout_node :
    (layout result : LayoutConfig) (old new t : String)
    → old ≢ new
    → rename_layout_node layout old new ≡ some result
    → get_node result t ≡ (
        if t == new
        then renamed new (get_node layout old)
        else if t == old
        then none
        else get_node layout t)
unfolding get_node rename_layout_node
get_node-rename_layout_node layout result old new t ne h =
    let differs : (old == new) ≡ false = ground (arith, eq_iff old new) in
    let fresh : has_node new layout.nodes ≡ false = ground arith in
    let nodes : result.nodes ≡ rename_nodes old new layout.nodes = ground arith in
    rw nodes (find_node-rename_nodes old new t layout.nodes fresh differs)

has_node-rename_nodes :
    (old new : String) (ns : List LayoutNode)
    → has_node old ns ≡ true
    → (has_node new (rename_nodes old new ns) ≡ true)
unfolding rename_nodes has_node any
has_node-rename_nodes old new [] h = h
has_node-rename_nodes old new (n ∷ ns) h =
    ground (arith, eq_iff new new, has_node-rename_nodes old new ns)

has_no_node-rename_nodes :
    (old new : String) (ns : List LayoutNode)
    → (old == new) ≡ false
    → (has_node old (rename_nodes old new ns) ≡ false)
unfolding rename_nodes has_node any
has_no_node-rename_nodes old new [] h = refl
has_no_node-rename_nodes old new (n ∷ ns) h =
    ground (arith, eq_iff new old, eq_iff old new, has_no_node-rename_nodes old new ns)

-- Renaming a node and then giving it its old name back restores the layout.
pub rename_layout_node-back :
    (layout result : LayoutConfig) (old new : String)
    → rename_layout_node layout old new ≡ some result
    → rename_layout_node result new old ≡ some layout
unfolding rename_layout_node
rename_layout_node-back layout result old new h = elim (Bool-cases (old == new)) [
  | inl same ↦ ground (arith, eq_iff old new, eq_iff new old)
  | inr differs ↦
      let fresh : has_node new layout.nodes ≡ false = ground arith in
      let found : has_node old layout.nodes ≡ true = ground arith in
      let nodes : result ≡ record layout { nodes = rename_nodes old new layout.nodes } =
        ground arith in
      let swapped : (new == old) ≡ false = ground (arith, eq_iff old new, eq_iff new old) in
      rw
        (
          nodes,
          swapped,
          has_no_node-rename_nodes old new layout.nodes differs,
          has_node-rename_nodes old new layout.nodes found,
          rename_nodes-back old new layout.nodes fresh,
        )
        refl
]

-- A node that is added and then removed leaves the layout as it was.
pub remove_layout_node-append_layout_node :
    (layout result : LayoutConfig) (k : String)
    → append_layout_node layout k ≡ some result
    → remove_layout_node result k ≡ layout
unfolding append_layout_node remove_layout_node
remove_layout_node-append_layout_node layout result k h =
    let fresh : has_node k layout.nodes ≡ false = ground arith in
    let n : LayoutNode = record {
      node_id = k;
      x = next_x layout.nodes;
      y = pos 0;
      width = pos 1;
      height = pos 1;
      monitor_topology = none;
      monitor_source = "fallback";
      monitor_override_active = false;
    } in
    let nodes : result ≡ record layout { nodes = layout.nodes ++ n ∷ [] } = ground arith in
    rw (nodes, append-fresh k n layout.nodes refl fresh) refl
