-- ===== src/Coordination/Client/Step.antt =====
-- One step of the client: what the user interface asks for, a peer that is lost, a round of the control loop,
-- or a frame. What the frame carries is read by the handler that control/coordination/client.py registers.
pub mod Orderly
pub mod Strangers
use multi_controller.Prelude.{ℕ, Bool, false, Option, none, some, List, [], ◌∷◌, ◌++◌, String}
use multi_controller.Prelude.Int.{pos, negsuc}
use multi_controller.Prelude.Dict.{Dict}
use multi_controller.Context.{Context, NodeInfo}
use multi_controller.Display.Inventory.{MonitorInventorySnapshot}
use multi_controller.Routing.Sink.{Sink}
use multi_controller.Routing.Router.{Router}
use multi_controller.Routing.Router
use multi_controller.Coordination.Protocol.{Share}
use multi_controller.Coordination.Client.{Client, Around, Effect, Outcome, with_router}
use multi_controller.Coordination.Client.Targets.{
  request_target, clear_target, on_peer_unbound, on_grant, on_deny, on_lease_update,
  notify_local_input_override,
}
use multi_controller.Coordination.Client.Layouts.{
  Reload, LayoutUpdate, request_layout_edit, end_layout_edit, request_auto_switch_enabled,
  on_layout_edit_grant, on_layout_edit_deny, on_layout_state, on_layout_update,
}
use multi_controller.Coordination.Client.Nodes.{
  NodeList, publish_monitor_inventory, request_monitor_inventory_refresh, request_node_note_update,
  request_node_list_update, on_monitor_inventory_state, on_monitor_inventory_refresh_request,
  on_monitor_inventory_refresh_status, on_node_note_update_state, on_node_list_state,
}
use multi_controller.Coordination.Client.Updates.{
  UpdateStatus, request_remote_update, request_group_update_check, request_group_update_download,
  on_remote_update_command, on_remote_update_status, on_update_check_command, on_update_check_state,
  on_update_download_command, on_update_download_state,
}
use multi_controller.Coordination.Client.Tick.{control_tick}

-- A frame as the client reads it; the reloader's part is what it makes of the frame.
pub data Heard : Type 0 where
  grant : (target controller epoch : Option String) → Heard
  deny : (target controller epoch reason : Option String) → Heard
  lease_update : (target controller epoch : Option String) → Heard
  layout_edit_grant : (editor epoch : Option String) → Heard
  layout_edit_deny : (editor reason current epoch : Option String) → Heard
  layout_state : (editor epoch : Option String) → Heard
  layout_update : LayoutUpdate → Option Reload → Heard
  monitor_inventory_state :
      Option MonitorInventorySnapshot → (epoch : Option String) → Option Reload → Heard
  monitor_inventory_refresh_request : (node : Option String) → Heard
  monitor_inventory_refresh_status :
      (requester node status detail request epoch : Option String) → Heard
  node_note_update_state : (node note request epoch : Option String) → Option Reload → Heard
  node_list_state : NodeList → Reload → Heard
  remote_update_command : (target requester request : Option String) → Heard
  remote_update_status : UpdateStatus → Heard
  update_check_command : (job : Option String) → Heard
  update_check_state : (requester request status detail result source epoch : Option String) → Heard
  update_download_command : (job installer_url tag_name : Option String) → Heard
  update_download_state :
      (requester request status detail : Option String) → Share → (epoch : Option String) → Heard

pub data Event : Type 0 where
  requests_target : String → (source : Option String) → Event
  clears_target : Event
  overrides : Event
  begins_layout_edit ends_layout_edit : Event
  switches : Bool → Event
  publishes : MonitorInventorySnapshot → Event
  refreshes : String → (starts : Bool) → Event
  notes : (node note : String) → Event
  edits_nodes : List NodeInfo → Dict String → Event
  updates : String → Event
  checks : Event
  downloads : (tag_name installer_url current_version latest_version : String) → Event
  loses : String → Event
  ticks : (deadline : ℕ) → (last : Option String) → Event
  hears : (peer : String) → Heard → Event
  -- The capture, the hotkeys and the reloader use the router on their own.
  routes : Router.Operation → Event

unfoldable pub dispatch : Around → Client → String → Heard → Outcome
dispatch env c peer (grant target controller epoch) = on_grant env c peer target controller epoch
dispatch env c peer (deny target controller epoch reason) =
    on_deny env c peer target controller epoch reason
dispatch env c peer (lease_update target controller epoch) =
    on_lease_update env c peer target controller epoch
dispatch env c peer (layout_edit_grant editor epoch) = on_layout_edit_grant env c peer editor epoch
dispatch env c peer (layout_edit_deny editor reason current epoch) =
    on_layout_edit_deny env c peer editor reason current epoch
dispatch env c peer (layout_state editor epoch) = on_layout_state env c peer editor epoch
dispatch env c peer (layout_update u reload) = on_layout_update env c peer u reload
dispatch env c peer (monitor_inventory_state snapshot epoch reload) =
    on_monitor_inventory_state env c peer snapshot epoch reload
dispatch env c peer (monitor_inventory_refresh_request node_id) =
    on_monitor_inventory_refresh_request env c node_id
dispatch env c peer
      (monitor_inventory_refresh_status requester node_id status detail request epoch) =
    on_monitor_inventory_refresh_status env c peer requester node_id status detail request epoch
dispatch env c peer (node_note_update_state node_id text request epoch reload) =
    on_node_note_update_state env c peer node_id text request epoch reload
dispatch env c peer (node_list_state l reload) = on_node_list_state env c peer l reload
dispatch env c peer (remote_update_command target requester request) =
    on_remote_update_command env c target requester request
dispatch env c peer (remote_update_status u) = on_remote_update_status env c peer u
dispatch env c peer (update_check_command job) = on_update_check_command env c job
dispatch env c peer (update_check_state requester request status detail result source epoch) =
    on_update_check_state env c peer requester request status detail result source epoch
dispatch env c peer (update_download_command job url tag) =
    on_update_download_command env c job url tag
dispatch env c peer (update_download_state requester request status detail share epoch) =
    on_update_download_state env c peer requester request status detail share epoch

unfoldable pub step : Around → Client → Event → Outcome
unfolding dispatch
step env c (requests_target target source) = request_target env c target source
step env c clears_target = clear_target env c
step env c overrides = notify_local_input_override env c
step env c begins_layout_edit = request_layout_edit env c
step env c ends_layout_edit = end_layout_edit env c
step env c (switches enabled) = request_auto_switch_enabled env c enabled
step env c (publishes snapshot) = publish_monitor_inventory env c snapshot
step env c (refreshes k starts) = request_monitor_inventory_refresh env c k starts
step env c (notes k text) = request_node_note_update env c k text
step env c (edits_nodes nodes renames) = request_node_list_update env c nodes renames
step env c (updates target) = request_remote_update env c target
step env c checks = request_group_update_check env c
step env c (downloads tag url current latest) =
    request_group_update_download env c tag url current latest
step env c (loses k) = on_peer_unbound env c k
step env c (ticks deadline last) = (control_tick env c deadline last).0
step env c (hears peer frame) = dispatch env c peer frame
step env c (routes o) = with_router c (Router.step c.router c.ctx env.registry o)

-- The client at its start, with the router and the sink of the session.
unfoldable pub initial : Context → Router → Sink → Client
initial ctx router sink = record {
  ctx = ctx;
  router = router;
  sink = sink;
  requested_target_id = none;
  requested_target_source = none;
  last_coordinator_id = none;
  coordinator_epoch = none;
  layout_editor_id = none;
  layout_edit_requested = false;
  layout_edit_requested_at = 0;
  layout_last_deny_reason = none;
  layout_last_update_revision = negsuc 0;
  node_list_revision = pos 0;
  latest_monitor_inventory = none;
  monitor_inventory_refresh_states = [];
  local_override_pending_controller_id = none;
  pending_one_shot_requests = [];
}

abbrev pub History : Type 0
History = List (Around × Event)

unfoldable pub run : Client → History → Outcome
run c [] = (c, [])
run c ((env, e) ∷ es) =
    let (c', did) = step env c e in let (end, more) = run c' es in (end, did ++ more)
