-- ===== src/Coordination/HoldDown.antt =====
-- control/coordination/election.py: `CoordinatorElection`, which keeps a coordinator until a better node has
-- been healthy and preferred for long enough. Times are milliseconds of the monotonic clock.
pub mod Rules
pub mod Flapping
use multi_controller.Prelude.{
  ℕ, ◌+◌, Bool, true, false, not, ◌||◌, Option, none, some, List, [], ◌∷◌, map, String, ◌==◌, ltb,
  leb, eqb, if◌then◌else◌, keep, any,
}
use multi_controller.Prelude.Int.{ℤ, pos_part}
use multi_controller.Prelude.Text.{text_of}
use multi_controller.Prelude.Dict
use multi_controller.Prelude.Dict.{Dict}
use multi_controller.Context.{NodeInfo, Context, get_node}
use multi_controller.Registry.{Registry, Notice, bound, unbound}
use multi_controller.Coordination.Election.{online_nodes, min_node, coordinator_sort_key, key_leb}

pub record Election : Type 0 where
  pub health_grace_ms : ℕ
  pub hold_down_ms : ℕ
  pub online_since : Dict ℕ
  pub current_coordinator_id : Option String
  pub challenger_id : Option String
  pub challenger_since : ℕ

-- `setdefault`.
unfoldable pub set_default : String → ℕ → Dict ℕ → Dict ℕ
set_default k now since = elim (Dict.get k since) [ none ↦ Dict.set k now since | some t ↦ since ]

track_all : ℕ → List String → Dict ℕ → Dict ℕ
unfolding set_default
track_all now [] since = since
track_all now (k ∷ ks) since = track_all now ks (set_default k now since)

-- `_sync_online_tracking`.
unfoldable pub sync_online_tracking : Election → Context → Registry → ℕ → Election
unfolding track_all any
sync_online_tracking e ctx r now =
    let ids = ctx.self_node.node_id ∷ map (λ n. n.node_id) (online_nodes ctx r none) in
    record e {
      online_since = Dict.retain (λ k t. any (λ i. i == k) ids) (track_all now ids e.online_since);
    }

-- The election at its start; a negative time counts as none.
unfoldable pub start : Context → Registry → (health_grace hold_down : ℤ) → ℕ → Election
start ctx r health_grace hold_down now =
    sync_online_tracking
      (record {
        health_grace_ms = pos_part health_grace;
        hold_down_ms = pos_part hold_down;
        online_since = (ctx.self_node.node_id, now) ∷ [];
        current_coordinator_id = none;
        challenger_id = none;
        challenger_since = 0;
      })
      ctx r now

-- `now - since >= grace`, for a grace that is not negative.
unfoldable pub is_healthy : Election → Context → ℕ → String → Bool
is_healthy e ctx now k =
    if k == ctx.self_node.node_id then true else elim (Dict.get k e.online_since) [
      | none ↦ false
      | some since ↦ leb (since + e.health_grace_ms) now
    ]

unfoldable pub clear_challenger : Election → Election
clear_challenger e = record e { challenger_id = none; challenger_since = 0 }

unfoldable pub set_current : Election → String → Election
unfolding clear_challenger
set_current e k = clear_challenger (record e { current_coordinator_id = some k })

-- `{node.node_id: node for node in candidates}`.
by_id : List NodeInfo → Dict NodeInfo → Dict NodeInfo
by_id [] nodes = nodes
by_id (n ∷ ns) nodes = by_id ns (Dict.set n.node_id n nodes)

unfoldable pub current_among : Election → List NodeInfo → Option NodeInfo
unfolding by_id
current_among e candidates = Dict.get (text_of e.current_coordinator_id) (by_id candidates [])

-- `min` of the nodes by their sort key, if there is one.
unfoldable pub best : List NodeInfo → Option NodeInfo
best [] = none
best (n ∷ ns) = some (min_node n ns)

abbrev pub or_node : Option NodeInfo → NodeInfo → NodeInfo
or_node none other = other
or_node (some n) other = n

abbrev pub is_challenger : Option String → String → Bool
is_challenger none k = false
is_challenger (some c) k = c == k

abbrev or_now : Option ℕ → ℕ → ℕ
or_now none now = now
or_now (some t) now = t

-- The current coordinator is online; `preferred` is the best healthy node, or the current one.
challenge : Election → ℕ → NodeInfo → NodeInfo → Election × NodeInfo
unfolding clear_challenger set_current
challenge e now current preferred =
    if key_leb (coordinator_sort_key current) (coordinator_sort_key preferred)
    then (clear_challenger e, current)
    else if eqb e.hold_down_ms 0
    then (set_current e preferred.node_id, preferred)
    else if is_challenger e.challenger_id preferred.node_id
    then (if ltb now (e.challenger_since + e.hold_down_ms)
        then (e, current)
        else (set_current e preferred.node_id, preferred))
    else (
      record e {
        challenger_id = some preferred.node_id;
        challenger_since = or_now (Dict.get preferred.node_id e.online_since) now;
      },
      current,
    )

choose : Election → ℕ → NodeInfo → Option NodeInfo → Option NodeInfo → Election × NodeInfo
unfolding challenge set_current
choose e now best_online best_healthy none =
    let chosen = or_node best_healthy best_online in (set_current e chosen.node_id, chosen)
choose e now best_online best_healthy (some current) =
    challenge e now current (or_node best_healthy current)

abbrev pub healthy_of : Election → Context → ℕ → List NodeInfo → List NodeInfo
healthy_of e ctx now candidates = keep (λ n. is_healthy e ctx now n.node_id) candidates

decide : Election → Context → ℕ → List NodeInfo → Election × NodeInfo
unfolding choose set_current
decide e ctx now candidates = elim (best candidates) [
  | none ↦ (set_current e ctx.self_node.node_id, ctx.self_node)
  | some best_online ↦
      choose e now best_online (best (healthy_of e ctx now candidates)) (current_among e candidates)
]

unfoldable pub pick : Election → Context → Registry → ℕ → Election × NodeInfo
unfolding decide
pick e ctx r now = decide (sync_online_tracking e ctx r now) ctx now (online_nodes ctx r none)

-- `_on_registry_event`.
unfoldable pub on_registry_event : Election → Context → ℕ → Notice → Election
unfolding set_default clear_challenger
on_registry_event e ctx now (bound k) =
    if k == ctx.self_node.node_id then e else elim (get_node ctx k) [
      | none ↦ e
      | some n ↦ record e { online_since = set_default k now e.online_since }
    ]
on_registry_event e ctx now (unbound k) =
    let next = record e { online_since = Dict.delete k e.online_since } in
    if is_challenger e.challenger_id k then clear_challenger next else next
