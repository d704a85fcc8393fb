-- ===== src/Coordination/Service.antt =====
-- control/coordination/service.py: the state of `CoordinatorService` and how it sends a frame. A handler
-- is a function from the state to the new state and the frames that were delivered, in order. What holds
-- the lock in the program is one step here.
pub mod Leases
pub mod LayoutEdit
pub mod Updates
pub mod Downloads
pub mod Events
pub mod Nodes
pub mod Step
use multi_controller.Prelude.{
  ℕ, ◌+◌, ◌≡◌, arith, In, Bool, true, false, Option, none, some, List, [], ◌∷◌, ◌++◌, String, ◌==◌,
  if◌then◌else◌,
}
use multi_controller.Prelude.Dict
use multi_controller.Prelude.Dict.{Dict}
use multi_controller.Context.{Context, NodeInfo}
use multi_controller.Registry
use multi_controller.Registry.{Registry, Conn}
use multi_controller.Display.Inventory.{MonitorInventorySnapshot}
use multi_controller.Coordination.Protocol.{Frame, Share, lease_update, default_lease_ttl_ms}

-- Times are milliseconds of the monotonic clock.
pub record Lease : Type 0 where
  pub controller_id : String
  pub expires_at : ℕ

-- `_update_check_inflight`, and what a download job shares with it. No candidate is the empty text.
pub record Job : Type 0 where
  pub job_id : String
  pub requesters : List (String × String)
  pub candidates : List String
  pub active_candidate_id : String
  pub candidate_started_at : ℕ

pub record DownloadJob : Type 0 where
  pub job : Job
  pub tag_name : String
  pub installer_url : String

pub record CheckCache : Type 0 where
  pub fetched_at : ℕ
  pub result : String
  pub source_id : String

pub record DownloadEntry : Type 0 where
  pub share : Share
  pub updated_at : ℕ

pub record Service : Type 0 where
  pub ctx : Context
  pub leases : Dict Lease
  pub layout_editor_id : Option String
  pub layout_revision : ℕ
  pub node_list_revision : ℕ
  pub monitor_inventories : Dict MonitorInventorySnapshot
  pub update_check_cache : Option CheckCache
  pub update_check_inflight : Option Job
  pub update_download_cache : Dict DownloadEntry
  pub update_download_jobs : Dict DownloadJob
  pub coordinator_epoch : String

abbrev pub self_id : Service → String
self_id s = s.ctx.self_node.node_id

-- The service at its start; the epoch is the node id and the time of the start.
unfoldable pub initial : Context → String → Service
initial ctx epoch = record {
  ctx = ctx;
  leases = [];
  layout_editor_id = none;
  layout_revision = 0;
  node_list_revision = 0;
  monitor_inventories = [];
  update_check_cache = none;
  update_check_inflight = none;
  update_download_cache = [];
  update_download_jobs = [];
  coordinator_epoch = epoch;
}

-- A frame and the node that it reached.
abbrev pub Delivery : Type 0
Delivery = String × Frame

abbrev pub Outcome : Type 0
Outcome = Service × List Delivery

abbrev send : Option Conn → String → Frame → List Delivery × Bool
send none peer frame = ([], false)
send (some conn) peer frame = if conn.accepts then ((peer, frame) ∷ [], true) else ([], false)

-- `_reply`: the own node is reached through the dispatcher.
unfoldable pub reply : Service → Registry → String → Frame → List Delivery × Bool
reply s r peer frame =
    if peer == self_id s then ((peer, frame) ∷ [], true) else send (Registry.get r peer) peer frame

pub reply-In :
    (s : Service) (r : Registry) (peer : String) (frame : Frame)
    → (reply s r peer frame).1 ≡ true
    → In (peer, frame) (reply s r peer frame).0
unfolding reply
reply-In s r peer frame h = ground arith

unfoldable pub make_lease_update_frame : Service → String → Option String → Frame
make_lease_update_frame s target controller =
    lease_update target controller s.coordinator_epoch default_lease_ttl_ms

unfoldable pub send_lease_update : Service → Registry → String → Option String → List Delivery
unfolding make_lease_update_frame reply
send_lease_update s r target controller =
    (reply s r target (make_lease_update_frame s target controller)).0

abbrev to_peer : String → Conn → Frame → List Delivery
to_peer peer conn frame =
    if conn.closed then [] else if conn.accepts then (peer, frame) ∷ [] else []

to_peers : Registry → Frame → List Delivery
to_peers [] frame = []
to_peers ((peer, conn) ∷ rest) frame = to_peer peer conn frame ++ to_peers rest frame

-- `_broadcast` to the own node and all peers.
unfoldable pub broadcast : Service → Registry → Frame → List Delivery
unfolding to_peers
broadcast s r frame = (self_id s, frame) ∷ to_peers r frame

unfoldable pub target_is_online : Service → Registry → String → Bool
target_is_online s r target =
    if target == self_id s
    then true
    else elim (Registry.get r target) [ none ↦ false | some c ↦ true ]

unfoldable pub holder : Service → String → Option String
holder s target = elim (Dict.get target s.leases) [ none ↦ none | some l ↦ some l.controller_id ]

unfoldable pub lease_expiry : ℕ → ℕ
lease_expiry now = now + default_lease_ttl_ms

-- `a` then `b`, in that order, on the state that `a` leaves.
infixl 5 ◌then_do◌
abbrev pub ◌then_do◌ : Outcome → (Service → Outcome) → Outcome
◌then_do◌ (s, sent) next = let (s', more) = next s in (s', sent ++ more)
