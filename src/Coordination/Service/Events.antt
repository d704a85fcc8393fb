-- ===== src/Coordination/Service/Events.antt =====
-- control/coordination/service.py: what the service does when a peer connects or is lost, and its sweep for
-- leases and candidates that have run out of time.
pub mod Sound
pub mod Bound
pub mod Expiry
use multi_controller.Prelude.{
  ℕ, ◌+◌, Bool, true, false, not, ◌&&◌, Option, none, some, List, [], ◌∷◌, ◌++◌, String, ◌==◌, ltb,
  leb, if◌then◌else◌,
}
use multi_controller.Prelude.Dict
use multi_controller.Prelude.Dict.{Dict}
use multi_controller.Context.{NodeInfo, get_node}
use multi_controller.Registry.{Registry}
use multi_controller.Display.Layout.{LayoutConfig}
use multi_controller.Coordination.Election.{pick_coordinator}
use multi_controller.Display.Inventory.{MonitorInventorySnapshot}
use multi_controller.Coordination.Protocol.{
  Frame, layout_state, layout_update, node_list_state, monitor_inventory_state,
}
use multi_controller.Coordination.Service.{
  Service, Delivery, Outcome, Lease, Job, DownloadJob, self_id, reply, send_lease_update, holder,
  ◌then_do◌,
}
use multi_controller.Coordination.Service.Leases.{send_deny}
use multi_controller.Coordination.Service.LayoutEdit.{broadcast_layout_state}
use multi_controller.Coordination.Service.Updates.{idle_job, dispatch_next_update_check_candidate}
use multi_controller.Coordination.Service.Downloads.{
  idle_download, dispatch_next_update_download_candidate,
}

abbrev same_node : Option NodeInfo → String → Bool
same_node none k = false
same_node (some n) k = n.node_id == k

-- The resolver is none where the service has none; its answer is the node that it picked, if any.
module _ (s : Service) (r : Registry) (resolver : Option (Option NodeInfo)) where
  unfoldable pub is_effective_coordinator : Bool
  is_effective_coordinator = elim resolver [
    | none ↦ same_node (some (pick_coordinator s.ctx r none)) (self_id s)
    | some answer ↦ same_node answer (self_id s)
  ]

  unfoldable pub was_coordinator_before_bound : String → Bool
  was_coordinator_before_bound joining =
      (pick_coordinator s.ctx r (some joining)).node_id == self_id s

  abbrev editor_text : Option String → String
  editor_text none = ""
  editor_text (some e) = e

  layout_frame : Bool → LayoutConfig → Frame
  layout_frame bootstrap layout =
      layout_update layout (editor_text s.layout_editor_id) s.coordinator_epoch s.layout_revision
        true bootstrap

  abbrev layout_frames : Bool → Bool → Option LayoutConfig → List Frame
  layout_frames wanted bootstrap none = []
  layout_frames wanted bootstrap (some layout) =
      if wanted then layout_frame bootstrap layout ∷ [] else []

  monitor_frames : Dict MonitorInventorySnapshot → List Frame
  monitor_frames [] = []
  monitor_frames ((k, snapshot) ∷ rest) =
      monitor_inventory_state snapshot s.coordinator_epoch ∷ monitor_frames rest

  abbrev coordinator_frames : Bool → List Frame
  coordinator_frames effective =
      if effective
      then node_list_state s.ctx.nodes s.node_list_revision [] "" "" s.coordinator_epoch
          ∷ layout_state s.layout_editor_id s.coordinator_epoch
          ∷ layout_frames true false s.ctx.layout
        ++ monitor_frames s.monitor_inventories
      else []

  reply_frames : String → List Frame → List Delivery
  reply_frames peer [] = []
  reply_frames peer (f ∷ fs) = (reply s r peer f).0 ++ reply_frames peer fs

  lease_frames : String → Option NodeInfo → List Delivery
  lease_frames peer none = []
  lease_frames peer (some node) = send_lease_update s r peer (holder s peer)

  unfoldable pub on_bound : String → Outcome
  unfolding layout_frame monitor_frames reply_frames lease_frames
  on_bound peer = (
    s,
    lease_frames peer (get_node s.ctx peer)
        ++ reply_frames peer (
            layout_frames (was_coordinator_before_bound peer && not is_effective_coordinator) true
              s.ctx.layout
            ++ coordinator_frames is_effective_coordinator),
  )

-- `UPDATE_CHECK_CANDIDATE_TIMEOUT_SEC` and `UPDATE_DOWNLOAD_CANDIDATE_TIMEOUT_SEC`, in milliseconds.
abbrev pub update_check_candidate_timeout_ms : ℕ
update_check_candidate_timeout_ms = 20000

abbrev pub update_download_candidate_timeout_ms : ℕ
update_download_candidate_timeout_ms = 1500000

abbrev is_editing : Option String → String → Bool
is_editing none node = false
is_editing (some e) node = e == node

abbrev active_is : String → Option Job → Bool
active_is node none = false
active_is node (some job) = job.active_candidate_id == node

abbrev idle_check : Option Job → Option Job
idle_check none = none
idle_check (some job) = some (idle_job job)

-- The download jobs that pass a test are left without a candidate; the keys of those jobs.
idle_downloads : (DownloadJob → Bool) → Dict DownloadJob → Dict DownloadJob
idle_downloads p [] = []
idle_downloads p ((k, d) ∷ jobs) = (k, if p d then idle_download d else d) ∷ idle_downloads p jobs

job_keys : (DownloadJob → Bool) → Dict DownloadJob → List String
job_keys p [] = []
job_keys p ((k, d) ∷ jobs) = let rest = job_keys p jobs in if p d then k ∷ rest else rest

module _ (r : Registry) (now : ℕ) where
  pub retry_downloads : List String → Service → Outcome
  retry_downloads [] s = (s, [])
  retry_downloads (k ∷ ks) s =
      dispatch_next_update_download_candidate s r now k then_do retry_downloads ks

  pub retry_check : Bool → Service → Outcome
  retry_check wanted s = if wanted then dispatch_next_update_check_candidate s r now else (s, [])

  retry_all : Bool → List String → Outcome → Outcome
  unfolding retry_check retry_downloads
  retry_all wanted keys o = o then_do retry_check wanted then_do retry_downloads keys

  -- The part of the handler that holds the lock.
  lose_node : Service → String → Service
  unfolding idle_downloads
  lose_node s node = record s {
    layout_editor_id = if is_editing s.layout_editor_id node then none else s.layout_editor_id;
    leases = Dict.delete node s.leases;
    update_check_inflight =
        if active_is node s.update_check_inflight
        then idle_check s.update_check_inflight
        else s.update_check_inflight;
    update_download_cache =
        Dict.retain (λ k entry. not (entry.share.source_id == node)) s.update_download_cache;
    update_download_jobs =
        idle_downloads (λ d. d.job.active_candidate_id == node) s.update_download_jobs;
  }

  lost_lease : Service → String → Option String → List Delivery
  unfolding send_deny
  lost_lease s node none = []
  lost_lease s node (some controller) =
      send_lease_update s r node none ++ send_deny s r controller node controller "target_offline"

  unfoldable pub on_unbound : Service → String → Outcome
  unfolding lose_node lost_lease retry_all job_keys
  on_unbound s node =
      retry_all (active_is node s.update_check_inflight)
        (job_keys (λ d. d.job.active_candidate_id == node) s.update_download_jobs)
        (
          lose_node s node,
          (if is_editing s.layout_editor_id node
                then broadcast_layout_state (lose_node s node) r
                else [])
              ++ lost_lease s node (holder s node),
        )

  -- `_expire_once`.
  abbrev timed_out : ℕ → Job → Bool
  timed_out limit job =
      not (job.active_candidate_id == "")
      && (ltb 0 job.candidate_started_at && leb (job.candidate_started_at + limit) now)

  abbrev check_timed_out : Option Job → Bool
  check_timed_out none = false
  check_timed_out (some job) = timed_out update_check_candidate_timeout_ms job

  sweep : Service → Service
  unfolding idle_downloads
  sweep s = record s {
    leases = Dict.retain (λ k l. ltb now l.expires_at) s.leases;
    update_check_inflight =
        if check_timed_out s.update_check_inflight
        then idle_check s.update_check_inflight
        else s.update_check_inflight;
    update_download_jobs =
        idle_downloads (λ d. timed_out update_download_candidate_timeout_ms d.job)
          s.update_download_jobs;
  }

  expired_updates : Service → Dict Lease → List Delivery
  expired_updates s [] = []
  expired_updates s ((k, l) ∷ leases) =
      let rest = expired_updates s leases in
      if ltb now l.expires_at then rest else send_lease_update s r k none ++ rest

  unfoldable pub expire_once : Service → Outcome
  unfolding sweep expired_updates retry_all job_keys
  expire_once s =
      retry_all (check_timed_out s.update_check_inflight)
        (job_keys (λ d. timed_out update_download_candidate_timeout_ms d.job)
          s.update_download_jobs)
        (sweep s, expired_updates s s.leases)
