-- ===== src/Coordination/Election/Online.antt =====
-- Which nodes `_online_nodes` holds: the own node, and the known nodes with an open connection.
use multi_controller.Prelude.{
  Bool, true, false, not, ◌&&◌, ◌||◌, ◌≡◌, refl, inl, inr, Option, none, some, List, [], ◌∷◌,
  String, ◌==◌, eq_iff, arith, In, Option-cases, if◌then◌else◌,
}
use multi_controller.Prelude.Dict.{Dict, HasUniqueKeys, get-set, set-HasUniqueKeys}
use multi_controller.Prelude.Dict
use multi_controller.Context.{NodeInfo, Context, get_node}
use multi_controller.Registry.{Registry, Conn}
use multi_controller.Coordination.Election.{add_peer, add_online, online, values}

-- Some connection to the node is open.
unfoldable pub connected : String → Registry → Bool
connected k [] = false
connected k ((j, conn) ∷ rest) = if j == k && not conn.closed then true else connected k rest

unfoldable pub is_online : Context → Registry → String → Bool
is_online ctx registry k = ctx.self_node.node_id == k || connected k registry

abbrev pub or_else : Option NodeInfo → Option NodeInfo → Option NodeInfo
or_else none o = o
or_else (some n) o = some n

get-add_peer :
    (ctx : Context) (k j : String) (conn : Conn) (acc : Dict NodeInfo)
    → Dict.get k (add_peer ctx none j conn acc) ≡ (
        if j == k && not conn.closed
        then or_else (get_node ctx k) (Dict.get k acc)
        else Dict.get k acc)
unfolding add_peer
get-add_peer ctx k j conn acc = elim (Option-cases (get_node ctx j)) [
  | inl e ↦ rw (e, add_peer) (ground (arith, eq_iff j k, e))
  | inr (n, e) ↦ rw (e, add_peer) (ground (arith, eq_iff j k, e, get-set j k n acc))
]

get-add_online :
    (ctx : Context) (k : String) (conns : List (String × Conn)) (acc : Dict NodeInfo)
    → Dict.get k (add_online ctx none conns acc)
      ≡ (if connected k conns then or_else (get_node ctx k) (Dict.get k acc) else Dict.get k acc)
unfolding add_online connected
get-add_online ctx k [] acc = refl
get-add_online ctx k ((j, conn) ∷ rest) acc =
    ground (
      arith,
      get-add_online ctx k rest (add_peer ctx none j conn acc),
      get-add_peer ctx k j conn acc,
    )

pub get-online :
    (ctx : Context) (registry : Registry) (k : String)
    → get_node ctx ctx.self_node.node_id ≡ some ctx.self_node
    → Dict.get k (online ctx registry none)
      ≡ (if is_online ctx registry k then get_node ctx k else none)
unfolding online is_online Dict.get
get-online ctx registry k self = ground (
  arith,
  eq_iff ctx.self_node.node_id k,
  get-add_online ctx k registry ((ctx.self_node.node_id, ctx.self_node) ∷ []),
)

add_peer-HasUniqueKeys :
    (ctx : Context) (excluded : Option String) (j : String) (conn : Conn) (acc : Dict NodeInfo)
    → HasUniqueKeys acc
    → HasUniqueKeys (add_peer ctx excluded j conn acc)
unfolding add_peer
add_peer-HasUniqueKeys ctx excluded j conn acc u = elim (Option-cases (get_node ctx j)) [
  | inl e ↦ rw (e, add_peer) (ground arith)
  | inr (n, e) ↦ rw (e, add_peer) (ground (arith, set-HasUniqueKeys j n acc u))
]

add_online-HasUniqueKeys :
    (ctx : Context) (excluded : Option String) (conns : List (String × Conn)) (acc : Dict NodeInfo)
    → HasUniqueKeys acc
    → HasUniqueKeys (add_online ctx excluded conns acc)
unfolding add_online
add_online-HasUniqueKeys ctx excluded [] acc u = u
add_online-HasUniqueKeys ctx excluded ((j, conn) ∷ rest) acc u =
    add_online-HasUniqueKeys ctx excluded rest (add_peer ctx excluded j conn acc)
      (add_peer-HasUniqueKeys ctx excluded j conn acc u)

pub online-HasUniqueKeys :
    (ctx : Context) (registry : Registry) (excluded : Option String)
    → HasUniqueKeys (online ctx registry excluded)
unfolding online Dict.get
online-HasUniqueKeys ctx registry excluded =
    add_online-HasUniqueKeys ctx excluded registry _ (ground arith)

pub get-In :
    (k : String) (m : Dict NodeInfo) (n : NodeInfo) → Dict.get k m ≡ some n → In n (values m)
unfolding Dict.get values
get-In k [] n h = ground arith
get-In k ((j, v) ∷ m) n h = ground (arith, get-In k m n)

pub In-get :
    (m : Dict NodeInfo) (n : NodeInfo)
    → HasUniqueKeys m
    → In n (values m)
    → (k : String) × (Dict.get k m ≡ some n)
unfolding Dict.get values
In-get [] n u h = absurd h
In-get ((j, v) ∷ m) n u (inl e) = (j, ground (arith, eq_iff j j))
In-get ((j, v) ∷ m) n u (inr h) =
    let (k, found) = In-get m n u.1 h in (k, ground (arith, eq_iff j k))
