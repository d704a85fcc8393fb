-- ===== src/Coordination/Service/Nodes.antt =====
-- control/coordination/service.py: the detected monitors, the requests that are relayed to another node, and the
-- list of nodes that the coordinator guards by a revision.
pub mod Quiet
pub mod Revision
use multi_controller.Prelude.{
  ℕ, ◌+◌, Bool, true, false, Option, none, some, List, [], ◌∷◌, ◌++◌, String, ◌==◌, if◌then◌else◌,
}
use multi_controller.Prelude.Int.{ℤ, pos, eqb_ℤ}
use multi_controller.Prelude.Text.{given, given_or, strip, text_of}
use multi_controller.Prelude.Dict
use multi_controller.Prelude.Dict.{Dict}
use multi_controller.Context.{
  Context, NodeInfo, get_node, replace_nodes, replace_monitor_inventory, note_nodes,
}
use multi_controller.Registry
use multi_controller.Registry.{Registry, Conn}
use multi_controller.Display.Inventory.{MonitorInventorySnapshot}
use multi_controller.Coordination.Protocol.{
  monitor_inventory_state, monitor_inventory_refresh_status, monitor_inventory_refresh_request,
  remote_update_command, remote_update_status, node_list_state, node_note_update_state,
}
use multi_controller.Coordination.Service.{
  Service, Delivery, Outcome, self_id, reply, broadcast, target_is_online,
}

-- What `apply_nodes_state` of the configuration makes of a list of nodes: there is no such method, it
-- raises, or it leaves a new context.
pub data Applied : Type 0 where
  no_reloader raises : Applied
  leaves : Context → Applied

module _ (s : Service) (r : Registry) where
  -- The snapshot is none where the frame has no object there.
  publish : MonitorInventorySnapshot → Outcome
  publish snapshot = if snapshot.node_id == "" then (s, []) else (
    record s {
      ctx = replace_monitor_inventory s.ctx snapshot;
      monitor_inventories = Dict.set snapshot.node_id snapshot s.monitor_inventories;
    },
    broadcast s r (monitor_inventory_state snapshot s.coordinator_epoch),
  )

  unfoldable pub on_monitor_inventory_publish : Option MonitorInventorySnapshot → Outcome
  unfolding publish
  on_monitor_inventory_publish none = (s, [])
  on_monitor_inventory_publish (some snapshot) = publish snapshot

  refresh_status : String → String → String → String → String → List Delivery
  refresh_status target requester request status detail =
      (reply s r requester (
        monitor_inventory_refresh_status target requester status detail s.coordinator_epoch
          request)).0

  -- A remote node is asked over its open connection.
  ask_remote : String → String → String → Option Conn → List Delivery
  unfolding refresh_status
  ask_remote target requester request none =
      refresh_status target requester request "offline" "현재 오프라인이라 원격 모니터 재감지를 요청할 수 없습니다."
  ask_remote target requester request (some conn) =
      (if conn.accepts
        then (target, monitor_inventory_refresh_request target requester request) ∷ []
        else [])
      ++ refresh_status target requester request "requested" "원격 PC에 모니터 재감지를 요청했습니다."

  refresh_target : String → String → String → Option NodeInfo → List Delivery
  unfolding ask_remote refresh_status
  refresh_target target requester request none =
      refresh_status target requester request "unknown" "알 수 없는 노드라서 재감지를 요청할 수 없습니다."
  refresh_target target requester request (some node) =
      if target == self_id s
      then (target, monitor_inventory_refresh_request target requester "")
        ∷ refresh_status target requester request "requested" "로컬 coordinator가 모니터 재감지를 시작했습니다."
      else ask_remote target requester request (Registry.get r target)

  unfoldable pub on_monitor_inventory_refresh_request :
      String → (node_id requester_id request_id : Option String) → Outcome
  unfolding refresh_target
  on_monitor_inventory_refresh_request peer node_id requester_id request_id = elim (given node_id) [
    | none ↦ (s, [])
    | some target ↦ (
      s,
      refresh_target target (given_or requester_id peer) (strip (text_of request_id))
          (get_node s.ctx target),
    )
  ]

  update_status : String → String → String → String → String → String → List Delivery
  update_status target requester request status detail reason =
      (reply s r requester (
        remote_update_status target requester status detail reason s.coordinator_epoch request "" ""
          "" "")).0

  command_target : String → String → String → Option NodeInfo → List Delivery
  unfolding update_status
  command_target target requester request none =
      update_status target requester request "failed" "대상 노드를 찾을 수 없습니다." "target_unavailable"
  command_target target requester request (some node) =
      let (sent, delivered) =
        reply s r target (remote_update_command target requester s.coordinator_epoch request) in
      if target_is_online s r target
      then (if delivered
          then sent
            ++ update_status target requester request "requested" "원격 업데이트 명령을 대상 노드에 전달했습니다." ""
          else sent
            ++ update_status target requester request "failed" "원격 업데이트 명령을 대상 노드에 전달하지 못했습니다."
                "target_unavailable")
      else update_status target requester request "failed" "대상 노드가 오프라인입니다." "target_offline"

  unfoldable pub on_remote_update_request :
      String → (target_id requester_id request_id : Option String) → Outcome
  unfolding command_target
  on_remote_update_request peer target_id requester_id request_id = elim (given target_id) [
    | none ↦ (s, [])
    | some target ↦ (
      s,
      command_target target (given_or requester_id peer) (strip (text_of request_id))
          (get_node s.ctx target),
    )
  ]

  -- A status is relayed to its requester if it comes from the target itself; the status is none where the
  -- frame has no text there, and so is the detail, which is empty where the frame leaves it out.
  relay_status :
      String
      → String
      → String
      → (status detail : Option String)
      → (reason request event session current_version latest_version : String) → List Delivery
  relay_status peer target requester (some status) (some detail) reason request event session
        current latest =
      if peer == target
      then (reply s r requester (
          remote_update_status target requester status detail reason s.coordinator_epoch request
            event session current latest)).0
      else []
  relay_status peer target requester _ _ reason request event session current latest = []

  unfoldable pub on_remote_update_status :
      String
      → (target_id requester_id status detail : Option String)
      → (reason request_id event session current_version latest_version : Option String) → Outcome
  unfolding relay_status
  on_remote_update_status peer target_id requester_id status detail reason request_id event session
        current latest =
      elim (given target_id) [
        | none ↦ (s, [])
        | some target ↦ elim (given requester_id) [
          | none ↦ (s, [])
          | some requester ↦ (
            s,
            relay_status peer target requester status detail (text_of reason)
                (strip (text_of request_id)) (text_of event) (text_of session) (text_of current)
                (text_of latest),
          )
        ]
      ]

  reject : String → String → String → Outcome
  reject peer reason request = (
    s,
    (reply s r peer
        (node_list_state s.ctx.nodes s.node_list_revision [] reason request s.coordinator_epoch)).0,
  )

  -- The base revision is none where `int()` refuses it.
  apply_nodes : String → ℤ → Dict String → String → Applied → Outcome
  unfolding reject
  apply_nodes peer base renames request no_reloader = (s, [])
  apply_nodes peer base renames request raises =
      if eqb_ℤ base (pos s.node_list_revision)
      then reject peer "apply_failed" request
      else reject peer "stale_revision" request
  apply_nodes peer base renames request (leaves ctx) =
      if eqb_ℤ base (pos s.node_list_revision)
      then (
        record s { ctx = ctx; node_list_revision = s.node_list_revision + 1 },
        broadcast (record s { ctx = ctx }) r
            (node_list_state ctx.nodes (s.node_list_revision + 1) renames "" request
              s.coordinator_epoch),
      )
      else reject peer "stale_revision" request

  -- `renames` is none where the frame has no list of nodes or no renaming object.
  unfoldable pub on_node_list_update_request :
      String → Option (Dict String) → Option ℤ → Option String → Applied → Outcome
  unfolding apply_nodes
  on_node_list_update_request peer none base request_id applied = (s, [])
  on_node_list_update_request peer (some renames) none request_id applied = (s, [])
  on_node_list_update_request peer (some renames) (some base) request_id applied =
      apply_nodes peer base renames (strip (text_of request_id)) applied

  note_node : String → String → String → Option NodeInfo → Outcome
  unfolding note_nodes
  note_node target note request none = (s, [])
  note_node target note request (some node) =
      let next = record s { ctx = replace_nodes s.ctx (note_nodes target note s.ctx.nodes) } in
      (next, broadcast next r (node_note_update_state target note s.coordinator_epoch request))

  -- The note is none where the frame has no text there.
  unfoldable pub on_node_note_update_request : (node_id note request_id : Option String) → Outcome
  unfolding note_node
  on_node_note_update_request node_id none request_id = (s, [])
  on_node_note_update_request node_id (some note) request_id = elim (given node_id) [
    | none ↦ (s, [])
    | some target ↦ note_node target note (strip (text_of request_id)) (get_node s.ctx target)
  ]
