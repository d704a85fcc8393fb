-- ===== src/Coordination/Client/Nodes.antt =====
-- control/coordination/client.py: the detected monitors, the notes and the list of nodes. The Boolean that a
-- request returns to the user interface is left out.
pub mod Calm
use multi_controller.Prelude.{
  ℕ, Bool, true, false, not, ◌&&◌, ◌||◌, Option, none, some, List, [], ◌∷◌, ◌++◌, map, keep, any,
  String, ◌==◌, if◌then◌else◌,
}
use multi_controller.Prelude.Int.{ℤ, ltb_ℤ}
use multi_controller.Prelude.Text.{given, given_or, strip, text_of, str_leb}
use multi_controller.Prelude.Dict
use multi_controller.Prelude.Dict.{Dict}
use multi_controller.Context.{
  Context, NodeInfo, get_node, replace_nodes, replace_monitor_inventory, note_nodes,
}
use multi_controller.Registry.{Registry, Conn}
use multi_controller.Display.Inventory.{MonitorInventorySnapshot}
use multi_controller.Coordination.Protocol.{Request}
use multi_controller.Coordination.Client.{
  Client, Around, Effect, Outcome, client_id, send, reaches_coordinator, names, accepting,
  to_coordinator, send_tracked, track_one_shot_request, refreshes_monitors, node_list_change,
}
use multi_controller.Coordination.Client.Requests.{resolve_one_shot_request}
use multi_controller.Coordination.Client.Layouts.{Reload}

-- An entry of the list of nodes, by the fields that name it.
pub record RawNode : Type 0 where
  pub node_id : Option String
  pub name : Option String

pub record NodeList : Type 0 where
  pub nodes : List RawNode
  pub revision : Option ℤ
  pub reject_reason : Option String
  pub request_id : Option String
  pub epoch : Option String

unfoldable pub raw_id : RawNode → String
raw_id n = strip (given_or n.node_id (text_of n.name))

insert : String → List String → List String
unfolding str_leb
insert k [] = k ∷ []
insert k (j ∷ js) =
    let rest = insert k js in
    if k == j then j ∷ js else if str_leb k j then k ∷ j ∷ js else j ∷ rest

sorted : List String → List String
unfolding insert
sorted [] = []
sorted (k ∷ ks) = insert k (sorted ks)

unfoldable pub added_node_ids : Context → List RawNode → List String
unfolding raw_id sorted keep any
added_node_ids ctx nodes =
    keep (λ k. not (any (λ n. n.node_id == k) ctx.nodes) && not (k == ctx.self_node.node_id))
      (sorted (keep (λ k. not (k == "")) (map raw_id nodes)))

unfoldable pub set_refresh_state : String → String → String → Client → Client
set_refresh_state node status detail c = record c {
  monitor_inventory_refresh_states =
      Dict.set node (status, detail) c.monitor_inventory_refresh_states;
}

has_open : String → Registry → Bool
has_open self [] = false
has_open self ((k, conn) ∷ r) = not (k == self) && not conn.closed || has_open self r

unfoldable pub has_remote_peer : Client → Around → Bool
unfolding has_open
has_remote_peer c env = has_open (client_id c) env.registry

module _ (env : Around) where
  unfoldable pub publish_monitor_inventory : Client → MonitorInventorySnapshot → Outcome
  publish_monitor_inventory c snapshot =
      let next = record c {
        latest_monitor_inventory = some snapshot;
        ctx = replace_monitor_inventory c.ctx snapshot;
      } in
      (next, send next env (Request.monitor_inventory_publish snapshot))

  ask_refresh : Client → String → Outcome
  unfolding send_tracked set_refresh_state
  ask_refresh c node =
      if reaches_coordinator c env
      then send_tracked c env "monitor_refresh" node
          (Request.monitor_inventory_refresh_request node (client_id c) env.fresh)
      else (set_refresh_state node "error" "재감지 요청을 coordinator로 보내지 못했습니다." c, [])

  -- `starts` says whether the monitor manager starts a new detection.
  unfoldable pub request_monitor_inventory_refresh : Client → String → Bool → Outcome
  unfolding set_refresh_state ask_refresh
  request_monitor_inventory_refresh c node starts =
      if node == ""
      then (c, [])
      else if node == client_id c
      then (
        (if starts
            then set_refresh_state node "requested" "로컬 모니터를 다시 감지하는 중입니다." c
            else set_refresh_state node "pending" "이미 로컬 모니터 재감지가 진행 중입니다." c),
        refreshes_monitors ∷ [],
      )
      else ask_refresh (set_refresh_state node "pending" "재감지 요청을 보내는 중입니다." c) node

  unfoldable pub request_node_note_update : Client → String → String → Outcome
  unfolding send_tracked
  request_node_note_update c node note =
      send_tracked c env "node_note" node
        (Request.node_note_update_request node note (client_id c) env.fresh)

  -- The new id in `env` is the one that the caller passes, if it passes one.
  unfoldable pub request_node_list_update : Client → List NodeInfo → Dict String → Outcome
  unfolding track_one_shot_request has_remote_peer
  request_node_list_update c nodes renames =
      let request =
        Request.node_list_update_request nodes (client_id c) c.node_list_revision renames
          env.fresh in
      if reaches_coordinator c env
      then (
        if has_remote_peer c env then track_one_shot_request c env "node_list" "" else c,
        to_coordinator request ∷ [],
      )
      else (c, [])

  keep_snapshot : Client → MonitorInventorySnapshot → Option Reload → Client
  keep_snapshot c snapshot none = record c { ctx = replace_monitor_inventory c.ctx snapshot }
  keep_snapshot c snapshot (some reload) = record c { ctx = reload.context }

  take_snapshot : Client → Option MonitorInventorySnapshot → Option Reload → Client
  unfolding set_refresh_state keep_snapshot
  take_snapshot c none reload = c
  take_snapshot c (some snapshot) reload =
      if snapshot.node_id == ""
      then c
      else keep_snapshot (set_refresh_state snapshot.node_id "updated" "최신 모니터 감지 정보가 도착했습니다." c)
          snapshot reload

  -- The snapshot is none where the frame has no object there.
  unfoldable pub on_monitor_inventory_state :
      Client → String → Option MonitorInventorySnapshot → Option String → Option Reload → Outcome
  unfolding take_snapshot
  on_monitor_inventory_state c peer snapshot epoch reload =
      accepting c env peer epoch λ c'. (take_snapshot c' snapshot reload, [])

  unfoldable pub on_monitor_inventory_refresh_request : Client → Option String → Outcome
  on_monitor_inventory_refresh_request c node =
      (c, if names node (client_id c) then refreshes_monitors ∷ [] else [])

  unfoldable pub on_monitor_inventory_refresh_status :
      Client → String → (requester node status detail request epoch : Option String) → Outcome
  unfolding set_refresh_state resolve_one_shot_request
  on_monitor_inventory_refresh_status c peer requester node_id none detail request epoch = (c, [])
  on_monitor_inventory_refresh_status c peer requester node_id (some status) detail request epoch =
      elim (given node_id) [
        | none ↦ (c, [])
        | some k ↦
            if names requester (client_id c)
            then accepting c env peer epoch (λ c'. (
              resolve_one_shot_request request (set_refresh_state k status (text_of detail) c'),
              [],
            ))
            else (c, [])
      ]

  take_note : Client → String → String → Option String → Option Reload → Client
  unfolding resolve_one_shot_request
  take_note c node note request (some reload) =
      if reload.raised
      then record c { ctx = reload.context }
      else resolve_one_shot_request request (record c { ctx = reload.context })
  take_note c node note request none = elim (get_node c.ctx node) [
    | none ↦ c
    | some n ↦
        resolve_one_shot_request request
          (record c { ctx = replace_nodes c.ctx (note_nodes node note c.ctx.nodes) })
  ]

  -- The note is none where the frame has no text there.
  unfoldable pub on_node_note_update_state :
      Client → String → (node note request epoch : Option String) → Option Reload → Outcome
  unfolding take_note
  on_node_note_update_state c peer node_id none request epoch reload = (c, [])
  on_node_note_update_state c peer node_id (some note) request epoch reload = elim (given node_id) [
    | none ↦ (c, [])
    | some k ↦ accepting c env peer epoch λ c'. (take_note c' k note request reload, [])
  ]

  is_given : Option String → Bool
  is_given o = not (text_of o == "")

  notify_node_list : NodeList → ℤ → List String → List Effect
  unfolding is_given
  notify_node_list l revision added =
      let reason = strip (text_of l.reject_reason) in
      let notice = node_list_change added revision reason (text_of l.request_id) in
      elim added [
        | k ∷ ks ↦ notice ∷ []
        | [] ↦ if not (reason == "") || is_given l.request_id then notice ∷ [] else []
      ]

  abbrev revision_of : Client → NodeList → ℤ
  revision_of c l = elim l.revision [ none ↦ c.node_list_revision | some n ↦ n ]

  -- The reload is that of `apply_nodes_state`, or of `replace_nodes` where there is no reloader.
  take_node_list : Client → NodeList → Reload → Outcome
  unfolding notify_node_list resolve_one_shot_request is_given
  take_node_list c l reload =
      let next = record c { ctx = reload.context } in
      if ltb_ℤ (revision_of c l) c.node_list_revision
      then (c, [])
      else if reload.raised
      then (
        next,
        if is_given l.request_id
            then node_list_change [] c.node_list_revision "apply_failed" (text_of l.request_id) ∷ []
            else [],
      )
      else (
        resolve_one_shot_request l.request_id
            (record next { node_list_revision = revision_of c l }),
        notify_node_list l (revision_of c l) (added_node_ids c.ctx l.nodes),
      )

  unfoldable pub on_node_list_state : Client → String → NodeList → Reload → Outcome
  unfolding take_node_list
  on_node_list_state c peer l reload = accepting c env peer l.epoch λ c'. take_node_list c' l reload
