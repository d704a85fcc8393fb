-- ===== src/Coordination/Service/Step.antt =====
-- One step of the coordinator service: a frame that arrives, a peer that connects or is lost, or the sweep.
-- Each step meets the connections as they are at that time.
pub mod Leases
pub mod Stamped
use multi_controller.Prelude.{ℕ, Bool, Option, none, some, List, [], ◌∷◌, ◌++◌, String}
use multi_controller.Prelude.Int.{ℤ}
use multi_controller.Prelude.Dict.{Dict}
use multi_controller.Context.{NodeInfo}
use multi_controller.Display.Inventory.{MonitorInventorySnapshot}
use multi_controller.Registry.{Registry}
use multi_controller.Coordination.Protocol.{Share}
use multi_controller.Coordination.Service.{Service, Delivery, Outcome, ◌then_do◌}
use multi_controller.Coordination.Service.Leases.{
  LeaseFrame, on_claim, on_release, on_local_input_override, on_heartbeat,
}
use multi_controller.Coordination.Service.LayoutEdit.{
  RawLayout, on_layout_edit_begin, on_layout_edit_end, on_layout_update,
  on_auto_switch_update_request,
}
use multi_controller.Coordination.Service.Updates.{on_update_check_request, on_update_check_result}
use multi_controller.Coordination.Service.Downloads.{
  on_update_download_request, on_update_download_result,
}
use multi_controller.Coordination.Service.Nodes.{
  Applied, on_monitor_inventory_publish, on_monitor_inventory_refresh_request,
  on_remote_update_request, on_remote_update_status, on_node_list_update_request,
  on_node_note_update_request,
}
use multi_controller.Coordination.Service.Events.{on_bound, on_unbound, expire_once}

pub data Event : Type 0 where
  claims heartbeats : (now : ℕ) → (peer : String) → LeaseFrame → Event
  releases overrides : (peer : String) → LeaseFrame → Event
  begins_edit ends_edit : (peer : String) → (editor : Option String) → Event
  updates_layout : (peer : String) → (editor : Option String) → RawLayout → (persist : Bool) → Event
  switches_auto :
      (peer : String) → (enabled : Option Bool) → (requester request : Option String) → Event
  asks_check : (now : ℕ) → (fresh peer : String) → (requester request : Option String) → Event
  reports_check :
      (now : ℕ) → (peer : String) → (job status detail source result : Option String) → Event
  asks_download :
      (now : ℕ)
      → (fresh peer : String) → (requester request tag_name installer_url : Option String) → Event
  reports_download : (now : ℕ) → (peer : String) → (job status : Option String) → Share → Event
  publishes_monitors : Option MonitorInventorySnapshot → Event
  asks_monitors : (peer : String) → (node requester request : Option String) → Event
  asks_update : (peer : String) → (target requester request : Option String) → Event
  reports_update :
      (peer : String)
      → (target requester status detail : Option String)
      → (reason request event session current_version latest_version : Option String) → Event
  updates_nodes :
      (peer : String)
      → (renames : Option (Dict String)) → (base : Option ℤ) → (request : Option String) → Applied
      → Event
  updates_note : (node note request : Option String) → Event
  bound : (resolver : Option (Option NodeInfo)) → (peer : String) → Event
  unbound : (now : ℕ) → (peer : String) → Event
  expires : (now : ℕ) → Event

unfoldable pub step : Registry → Service → Event → Outcome
step r s (claims now peer frame) = on_claim s r now peer frame
step r s (heartbeats now peer frame) = on_heartbeat s r now peer frame
step r s (releases peer frame) = on_release s r peer frame
step r s (overrides peer frame) = on_local_input_override s r peer frame
step r s (begins_edit peer editor) = on_layout_edit_begin s r peer editor
step r s (ends_edit peer editor) = on_layout_edit_end s r peer editor
step r s (updates_layout peer editor raw persist) = on_layout_update s r peer editor raw persist
step r s (switches_auto peer enabled requester request) =
    on_auto_switch_update_request s r peer enabled requester request
step r s (asks_check now fresh peer requester request) =
    on_update_check_request s r now fresh peer requester request
step r s (reports_check now peer job status detail source result) =
    on_update_check_result s r now peer job status detail source result
step r s (asks_download now fresh peer requester request tag url) =
    on_update_download_request s r now fresh peer requester request tag url
step r s (reports_download now peer job status share) =
    on_update_download_result s r now peer job status share
step r s (publishes_monitors snapshot) = on_monitor_inventory_publish s r snapshot
step r s (asks_monitors peer node requester request) =
    on_monitor_inventory_refresh_request s r peer node requester request
step r s (asks_update peer target requester request) =
    on_remote_update_request s r peer target requester request
step r s (reports_update peer target requester status detail a b c d e f) =
    on_remote_update_status s r peer target requester status detail a b c d e f
step r s (updates_nodes peer renames base request applied) =
    on_node_list_update_request s r peer renames base request applied
step r s (updates_note node note request) = on_node_note_update_request s r node note request
step r s (bound resolver peer) = on_bound s r resolver peer
step r s (unbound now peer) = on_unbound r now s peer
step r s (expires now) = expire_once r now s

-- A history: each event with the connections that it met.
abbrev pub History : Type 0
History = List (Registry × Event)

unfoldable pub run : Service → History → Outcome
run s [] = (s, [])
run s ((r, e) ∷ es) = step r s e then_do λ s'. run s' es
