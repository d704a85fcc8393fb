-- ===== src/Tests/Samples.antt =====
-- A group of three nodes, as its members see it.
use multi_controller.Prelude.{ℕ, true, false, none, some, [], ◌∷◌, String}
use multi_controller.Prelude.Int.{ℤ, pos}
use multi_controller.Prelude.Dict.{Dict}
use multi_controller.Context.{NodeInfo, Context}
use multi_controller.Registry.{Registry, Conn}
use multi_controller.Coordination.Service.{Service, Lease}
use multi_controller.Coordination.Service.Leases.{LeaseFrame}

abbrev pub node_at : String → ℤ → NodeInfo
node_at k p = record {
  name = k;
  ip = "10.0.0.1";
  port = 45873;
  note = "";
  node_id = k;
  priority = p;
}

-- The desk goes before the laptop; the tower has no priority and goes last.
abbrev pub desk : NodeInfo
desk = node_at "desk" (pos 1)

abbrev pub laptop : NodeInfo
laptop = node_at "laptop" (pos 2)

abbrev pub tower : NodeInfo
tower = node_at "tower" (pos 0)

abbrev pub context_of : NodeInfo → Context
context_of self = record {
  self_node = self;
  nodes = tower ∷ laptop ∷ desk ∷ [];
  layout = none;
  monitor_inventories = [];
}

abbrev pub open_conn : ℕ → Conn
open_conn n = record { serial = n; closed = false; accepts = true }

abbrev pub closed_conn : ℕ → Conn
closed_conn n = record { serial = n; closed = true; accepts = false }

-- What the desk and the laptop see: each other; the tower has dropped out.
abbrev pub desk_registry : Registry
desk_registry = ("tower", closed_conn 1) ∷ ("laptop", open_conn 2) ∷ []

abbrev pub laptop_registry : Registry
laptop_registry = ("desk", open_conn 7) ∷ []

abbrev pub service_with : Dict Lease → Service
service_with leases = record {
  ctx = context_of desk;
  leases = leases;
  layout_editor_id = none;
  layout_revision = 0;
  node_list_revision = 0;
  monitor_inventories = [];
  update_check_cache = none;
  update_check_inflight = none;
  update_download_cache = [];
  update_download_jobs = [];
  coordinator_epoch = "desk";
}

abbrev pub lease_of : String → ℕ → Lease
lease_of c t = record { controller_id = c; expires_at = t }

-- The desk controls the laptop.
abbrev pub leased : Service
leased = service_with (("laptop", lease_of "desk" 5000) ∷ [])

abbrev pub lease_frame : String → String → LeaseFrame
lease_frame k c = record { target_id = some k; controller_id = some c }

abbrev pub bare_frame : String → LeaseFrame
bare_frame k = record { target_id = some k; controller_id = none }
