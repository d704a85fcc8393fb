-- ===== src/Coordination/Election/Agreement.antt =====
-- Nodes that see the same members online pick the same coordinator.
use multi_controller.Prelude.{
  true, false, ◌≡◌, refl, sym, ap, ◌∙◌, ◌≢◌, inl, inr, none, some, List, [], ◌∷◌, String, ◌==◌,
  eq_iff, arith, In, Bool-cases, if◌then◌else◌,
}
use multi_controller.Prelude.Dict
use multi_controller.Context.{NodeInfo, Context, get_node}
use multi_controller.Registry.{Registry, Conn}
use multi_controller.Coordination.Election.{
  coordinator_sort_key, online, online_nodes, values, pick_from, pick_coordinator,
  is_self_coordinator, add_peer, add_online,
}
use multi_controller.Coordination.Election.Order.{
  LebNode, min_node-In, min_node-le, key_leb_antisym,
}
use multi_controller.Coordination.Election.Online.{
  is_online, get-online, online-HasUniqueKeys, get-In, In-get,
}

pick_from-In : (self n : NodeInfo) (ns : List NodeInfo) → In n ns → In (pick_from self ns) ns
unfolding pick_from
pick_from-In self n [] h = absurd h
pick_from-In self n (m ∷ ns) h = min_node-In m ns

pick_from-le :
    (self : NodeInfo) (ns : List NodeInfo) (n : NodeInfo) → In n ns → LebNode (pick_from self ns) n
unfolding pick_from
pick_from-le self [] n h = absurd h
pick_from-le self (m ∷ ns) n h = min_node-le m ns n h

-- The own node is one of the configured nodes.
abbrev pub KnowsItself : Context → Type 0
KnowsItself ctx = get_node ctx ctx.self_node.node_id ≡ some ctx.self_node

module _ (ctx : Context) (registry : Registry) (known : KnowsItself ctx) where
  online_nodes-In :
      (k : String) (n : NodeInfo)
      → is_online ctx registry k ≡ true
      → get_node ctx k ≡ some n
      → In n (online_nodes ctx registry none)
  unfolding online_nodes
  online_nodes-In k n on e =
      get-In k (online ctx registry none) n (get-online ctx registry k known ∙ rw (on, e))

  In-online_nodes :
      (n : NodeInfo)
      → In n (online_nodes ctx registry none)
      → (k : String) × (is_online ctx registry k ≡ true) × (get_node ctx k ≡ some n)
  unfolding online_nodes
  In-online_nodes n h =
      let (k, e) = In-get (online ctx registry none) n (online-HasUniqueKeys ctx registry none) h in
      let e' = sym (get-online ctx registry k known) ∙ e in (k, ground arith, ground arith)

  self_is_online : is_online ctx registry ctx.self_node.node_id ≡ true
  unfolding is_online
  self_is_online = ground (arith, eq_iff ctx.self_node.node_id ctx.self_node.node_id)

  pick-In : In (pick_coordinator ctx registry none) (online_nodes ctx registry none)
  unfolding pick_coordinator
  pick-In =
      pick_from-In ctx.self_node ctx.self_node (online_nodes ctx registry none)
        (online_nodes-In ctx.self_node.node_id ctx.self_node self_is_online known)

  -- At a node that is one of the configured ones, the coordinator is an online node that the
  -- configuration names, and no online node goes before it by priority and then by node id.
  pub pick_coordinator-least :
      ((k : String) × (is_online ctx registry k ≡ true)
        × (get_node ctx k ≡ some (pick_coordinator ctx registry none)))
      × ((k : String) (n : NodeInfo)
          → is_online ctx registry k ≡ true
          → get_node ctx k ≡ some n
          → LebNode (pick_coordinator ctx registry none) n)
  pick_coordinator-least = (
    In-online_nodes (pick_coordinator ctx registry none) pick-In,
    λ k n on e.
        unfold pick_coordinator in
        pick_from-le ctx.self_node (online_nodes ctx registry none) n (online_nodes-In k n on e),
  )

leb_of_view :
    (a b : Context) (ra rb : Registry)
    → KnowsItself a
    → KnowsItself b
    → ((k : String) → get_node a k ≡ get_node b k)
    → ((k : String) → is_online a ra k ≡ is_online b rb k)
    → LebNode (pick_coordinator a ra none) (pick_coordinator b rb none)
leb_of_view a b ra rb ka kb nodes view =
    let (k, on, e) = (pick_coordinator-least b rb kb).0 in
    (pick_coordinator-least a ra ka).1 k (pick_coordinator b rb none) (view k ∙ on) (nodes k ∙ e)

-- Two nodes with the same configured nodes, each of which is one of them, that see the same nodes
-- online pick a coordinator with the same node id, in whatever order their peers connected.
pub pick_coordinator-agree :
    (a b : Context) (ra rb : Registry)
    → KnowsItself a
    → KnowsItself b
    → ((k : String) → get_node a k ≡ get_node b k)
    → ((k : String) → is_online a ra k ≡ is_online b rb k)
    → (pick_coordinator a ra none).node_id ≡ (pick_coordinator b rb none).node_id
pick_coordinator-agree a b ra rb ka kb nodes view =
    unfold coordinator_sort_key in
    key_leb_antisym _ _ (leb_of_view a b ra rb ka kb nodes view)
      (leb_of_view b a rb ra kb ka (λ k. sym (nodes k)) (λ k. sym (view k)))

-- Of the nodes with the same configured nodes, each of which is one of them, that see the same nodes
-- online, at most one takes itself for the coordinator: two that do are the same.
pub is_self_coordinator_unique :
    (a b : Context) (ra rb : Registry)
    → KnowsItself a
    → KnowsItself b
    → ((k : String) → get_node a k ≡ get_node b k)
    → ((k : String) → is_online a ra k ≡ is_online b rb k)
    → is_self_coordinator a ra ≡ true
    → is_self_coordinator b rb ≡ true
    → a.self_node.node_id ≡ b.self_node.node_id
unfolding is_self_coordinator
is_self_coordinator_unique a b ra rb ka kb nodes view ha hb =
    sym ((eq_iff _ _).0 ha) ∙ pick_coordinator-agree a b ra rb ka kb nodes view ∙ (eq_iff _ _).0 hb

add_peer-excluding :
    (ctx : Context) (e j : String) (conn : Conn) (acc : Dict.Dict NodeInfo)
    → add_peer ctx (some e) j conn acc ≡ (if j == e then acc else add_peer ctx none j conn acc)
unfolding add_peer
add_peer-excluding ctx e j conn acc = elim (Bool-cases (j == e)) [ inl h ↦ rw h | inr h ↦ rw h ]

add_online-excluding :
    (ctx : Context) (e : String) (conns : List (String × Conn)) (acc : Dict.Dict NodeInfo)
    → add_online ctx (some e) conns acc ≡ add_online ctx none (Dict.delete e conns) acc
unfolding add_online Dict.delete
add_online-excluding ctx e [] acc = refl
add_online-excluding ctx e ((j, conn) ∷ rest) acc =
    rw (add_peer-excluding ctx e j conn acc) (elim (Bool-cases (j == e)) [
      | inl h ↦ rw h (add_online-excluding ctx e rest acc)
      | inr h ↦ rw h (add_online-excluding ctx e rest (add_peer ctx none j conn acc))
    ])

-- Leaving a peer, which is not the own node, out of the choice is choosing as if the peer had no
-- connection.
pub pick_coordinator-excluding :
    (ctx : Context) (registry : Registry) (e : String)
    → e ≢ ctx.self_node.node_id
    → pick_coordinator ctx registry (some e) ≡ pick_coordinator ctx (Dict.delete e registry) none
unfolding pick_coordinator online_nodes online
pick_coordinator-excluding ctx registry e ne =
    let differs : (ctx.self_node.node_id == e) ≡ false =
      ground (arith, eq_iff ctx.self_node.node_id e) in
    rw differs
      (ap (λ m. pick_from ctx.self_node (values m)) (add_online-excluding ctx e registry _))
