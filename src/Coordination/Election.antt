-- ===== src/Coordination/Election.antt =====
-- control/coordination/election.py: the online nodes and the coordinator picked among them.
pub mod Order
pub mod Online
pub mod Agreement
use multi_controller.Prelude.{
  ℕ, Bool, true, false, not, ◌&&◌, Option, none, some, List, [], ◌∷◌, map, String, ◌==◌, ltb, eqb,
  if◌then◌else◌,
}
use multi_controller.Prelude.Int.{ℤ, pos, negsuc}
use multi_controller.Prelude.Text.{str_leb}
use multi_controller.Prelude.Dict.{Dict}
use multi_controller.Prelude.Dict
use multi_controller.Context.{NodeInfo, Context, get_node}
use multi_controller.Registry.{Registry, Conn}

-- What `int()` makes of a configured priority: a missing or empty one is not read at all.
pub data RawPriority : Type 0 where
  missing malformed : RawPriority
  number : ℤ → RawPriority

abbrev pub last_priority_sort_value : ℕ
last_priority_sort_value = 1_000_000_000

positive_or_last : ℤ → ℕ
positive_or_last (pos n) = if ltb 0 n then n else last_priority_sort_value
positive_or_last (negsuc n) = last_priority_sort_value

unfoldable pub coordinator_priority_sort_value : RawPriority → ℕ
unfolding positive_or_last
coordinator_priority_sort_value missing = positive_or_last (pos 0)
coordinator_priority_sort_value malformed = last_priority_sort_value
coordinator_priority_sort_value (number n) = positive_or_last n

unfoldable pub coordinator_sort_key : NodeInfo → ℕ × String
coordinator_sort_key n = (coordinator_priority_sort_value (number n.priority), n.node_id)

-- `a <= b` of two such tuples.
unfoldable pub key_leb : ℕ × String → ℕ × String → Bool
key_leb (p, s) (q, t) = if ltb p q then true else if eqb p q then str_leb s t else false

abbrev is_id : Option String → String → Bool
is_id none j = false
is_id (some e) j = j == e

-- One round of the loop over the connections.
add_peer : Context → Option String → String → Conn → Dict NodeInfo → Dict NodeInfo
add_peer ctx excluded k conn online =
    if is_id excluded k
    then online
    else if conn.closed
    then online
    else elim (get_node ctx k) [ none ↦ online | some n ↦ Dict.set k n online ]

add_online : Context → Option String → List (String × Conn) → Dict NodeInfo → Dict NodeInfo
add_online ctx excluded [] online = online
add_online ctx excluded ((k, conn) ∷ rest) online =
    add_online ctx excluded rest (add_peer ctx excluded k conn online)

-- The dictionary of `_online_nodes`: the own node, then each peer with an open connection.
unfoldable pub online : Context → Registry → Option String → Dict NodeInfo
unfolding add_online add_peer
online ctx registry excluded = add_online ctx excluded registry (
    if is_id excluded ctx.self_node.node_id
    then []
    else (ctx.self_node.node_id, ctx.self_node) ∷ [])

unfoldable pub values {ℓ} : {V : Type ℓ} → Dict V → List V
values [] = []
values ((k, v) ∷ m) = v ∷ values m

unfoldable pub online_nodes : Context → Registry → Option String → List NodeInfo
online_nodes ctx registry excluded = values (online ctx registry excluded)

-- `min(nodes, key=_coordinator_sort_key)`: the first of the least.
unfoldable pub min_node : NodeInfo → List NodeInfo → NodeInfo
min_node best [] = best
min_node best (n ∷ ns) =
    min_node (if key_leb (coordinator_sort_key best) (coordinator_sort_key n) then best else n) ns

pick_from : NodeInfo → List NodeInfo → NodeInfo
pick_from self [] = self
pick_from self (n ∷ ns) = min_node n ns

unfoldable pub pick_coordinator : Context → Registry → Option String → NodeInfo
unfolding pick_from
pick_coordinator ctx registry excluded =
    pick_from ctx.self_node (online_nodes ctx registry excluded)

unfoldable pub is_self_coordinator : Context → Registry → Bool
is_self_coordinator ctx registry =
    (pick_coordinator ctx registry none).node_id == ctx.self_node.node_id
