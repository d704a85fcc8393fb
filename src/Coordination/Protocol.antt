-- ===== src/Coordination/Protocol.antt =====
-- control/coordination/protocol.py: the frames that the coordinator service sends. A factory
-- `make_x` is a constructor, its arguments are the fields; a layout or a monitor snapshot stands in a
-- frame as the value that the program serialises there.
use multi_controller.Prelude.{ℕ, Bool, Option, List, String}
use multi_controller.Prelude.Int.{ℤ}
use multi_controller.Prelude.Dict.{Dict}
use multi_controller.Context.{NodeInfo}
use multi_controller.Display.Layout.{LayoutConfig}
use multi_controller.Display.Inventory.{MonitorInventorySnapshot}

-- `DEFAULT_LEASE_TTL_MS`, in milliseconds.
abbrev pub default_lease_ttl_ms : ℕ
default_lease_ttl_ms = 3000

-- The fields of a shared installer, in a result, a cache entry and a reply.
pub record Share : Type 0 where
  pub source_id : String
  pub share_port : ℕ
  pub share_id : String
  pub share_token : String
  pub sha256 : String
  pub size_bytes : ℕ

-- The `result` of a check is a JSON object, which stands as a text.
pub data Frame : Type 0 where
  grant : (target controller epoch : String) → (lease_ttl_ms : ℕ) → Frame
  deny : (target controller reason epoch : String) → Frame
  lease_update :
      (target : String)
      → (controller : Option String) → (epoch : String) → (lease_ttl_ms : ℕ) → Frame
  layout_edit_grant : (editor epoch : String) → Frame
  layout_edit_deny : (editor reason : String) → (current : Option String) → (epoch : String) → Frame
  layout_state : (editor : Option String) → (epoch : String) → Frame
  layout_update :
      (layout : LayoutConfig)
      → (editor epoch : String) → (revision : ℕ) → (persist bootstrap : Bool) → Frame
  -- The layout update that carries `change_kind`, the requester and the request.
  auto_switch_update :
      (layout : LayoutConfig)
      → (epoch : String) → (revision : ℕ) → (requester request : String) → Frame
  -- An empty `reject_reason` or `request` is a field that is left out.
  node_list_state :
      (nodes : List NodeInfo)
      → (revision : ℕ) → (rename_map : Dict String) → (reject_reason request epoch : String) → Frame
  node_note_update_state : (node note epoch request : String) → Frame
  monitor_inventory_refresh_status : (node requester status detail epoch request : String) → Frame
  monitor_inventory_refresh_request : (node requester request : String) → Frame
  remote_update_command : (target requester epoch request : String) → Frame
  remote_update_status :
      (target requester status detail reason epoch request event session current_version
        latest_version : String)
      → Frame
  monitor_inventory_state : (snapshot : MonitorInventorySnapshot) → (epoch : String) → Frame
  update_check_command : (job epoch : String) → Frame
  update_check_state :
      (requester request status detail : String)
      → (result : Option String) → (source epoch : String) → Frame
  update_download_command : (job tag_name installer_url epoch : String) → Frame
  update_download_state :
      (requester request status detail : String) → (share : Share) → (epoch : String) → Frame

-- The frames that a client sends to the coordinator. A list of nodes stands as the nodes that it spells.
pub data Request : Type 0 where
  claim release local_input_override heartbeat : (target controller : String) → Request
  layout_edit_begin layout_edit_end : (editor : String) → Request
  layout_update_request : (layout : LayoutConfig) → (editor : String) → (persist : Bool) → Request
  auto_switch_update_request : (enabled : Bool) → (requester request : String) → Request
  monitor_inventory_publish : (snapshot : MonitorInventorySnapshot) → Request
  monitor_inventory_refresh_request : (node requester request : String) → Request
  remote_update_request : (target requester request : String) → Request
  remote_update_status :
      (target requester status detail reason request epoch event session current_version
        latest_version : String)
      → Request
  update_check_request : (requester request : String) → Request
  update_check_result :
      (job status detail : String) → (result : Option String) → (source epoch : String) → Request
  update_download_request :
      (requester request tag_name installer_url current_version latest_version : String) → Request
  update_download_result : (job status detail : String) → Share → (epoch : String) → Request
  node_note_update_request : (node note requester request : String) → Request
  node_list_update_request :
      (nodes : List NodeInfo)
      → (requester : String) → (base_revision : ℤ) → (rename_map : Dict String) → (request : String)
      → Request
