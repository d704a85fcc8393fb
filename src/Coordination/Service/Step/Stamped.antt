-- ===== src/Coordination/Service/Step/Stamped.antt =====
-- The epoch of the service, and the lease updates that carry it.
use multi_controller.Prelude.{◌≡◌, refl, ◌∙◌, subst, All-append, [], ◌∷◌}
use multi_controller.Registry.{Registry}
use multi_controller.Coordination.Service.{Service}
use multi_controller.Coordination.Service.Leases.Stamped.{
  AllStamped, IsStamped, IsStamped-IsQuiet, on_claim-IsStamped, on_release-IsStamped,
  on_local_input_override-IsStamped, on_heartbeat-IsStamped,
}
use multi_controller.Coordination.Service.LayoutEdit.Quiet.{
  on_layout_edit_begin-IsQuiet, on_layout_edit_end-IsQuiet, on_layout_update-IsQuiet,
  on_auto_switch_update_request-IsQuiet,
}
use multi_controller.Coordination.Service.Updates.Quiet.{
  on_update_check_request-IsQuiet, on_update_check_result-IsQuiet,
}
use multi_controller.Coordination.Service.Downloads.Quiet.{
  on_update_download_request-IsQuiet, on_update_download_result-IsQuiet,
}
use multi_controller.Coordination.Service.Nodes.Quiet.{
  on_monitor_inventory_publish-IsQuiet, on_monitor_inventory_refresh_request-IsQuiet,
  on_remote_update_request-IsQuiet, on_remote_update_status-IsQuiet,
  on_node_list_update_request-IsQuiet, on_node_note_update_request-IsQuiet,
}
use multi_controller.Coordination.Service.Events.Sound.{on_unbound-IsStamped, expire_once-IsStamped}
use multi_controller.Coordination.Service.Events.Bound.{on_bound-IsStamped}
use multi_controller.Coordination.Service.Step.{
  Event, claims, heartbeats, releases, overrides, begins_edit, ends_edit, updates_layout,
  switches_auto, asks_check, reports_check, asks_download, reports_download, publishes_monitors,
  asks_monitors, asks_update, reports_update, updates_nodes, updates_note, bound, unbound, expires,
  step, History, run,
}

step-IsStamped : (s : Service) (r : Registry) (e : Event) → IsStamped s (step r s e)
unfolding step
step-IsStamped s r (claims now peer frame) = on_claim-IsStamped s r now peer frame
step-IsStamped s r (heartbeats now peer frame) = on_heartbeat-IsStamped s r now peer frame
step-IsStamped s r (releases peer frame) = on_release-IsStamped s r peer frame
step-IsStamped s r (overrides peer frame) = on_local_input_override-IsStamped s r peer frame
step-IsStamped s r (begins_edit peer editor) =
    IsStamped-IsQuiet s _ (on_layout_edit_begin-IsQuiet s r peer editor)
step-IsStamped s r (ends_edit peer editor) =
    IsStamped-IsQuiet s _ (on_layout_edit_end-IsQuiet s r peer editor)
step-IsStamped s r (updates_layout peer editor raw persist) =
    IsStamped-IsQuiet s _ (on_layout_update-IsQuiet s r peer editor raw persist)
step-IsStamped s r (switches_auto peer enabled requester request) =
    IsStamped-IsQuiet s _ (on_auto_switch_update_request-IsQuiet s r peer enabled requester request)
step-IsStamped s r (asks_check now fresh peer requester request) =
    IsStamped-IsQuiet s _ (on_update_check_request-IsQuiet s r now fresh peer requester request)
step-IsStamped s r (reports_check now peer job status d source result) =
    IsStamped-IsQuiet s _ (on_update_check_result-IsQuiet s r now peer job status d source result)
step-IsStamped s r (asks_download now fresh peer requester request tag url) =
    IsStamped-IsQuiet s _
      (on_update_download_request-IsQuiet s r now fresh peer requester request tag url)
step-IsStamped s r (reports_download now peer job status share) =
    IsStamped-IsQuiet s _ (on_update_download_result-IsQuiet s r now peer job status share)
step-IsStamped s r (publishes_monitors snapshot) =
    IsStamped-IsQuiet s _ (on_monitor_inventory_publish-IsQuiet s r snapshot)
step-IsStamped s r (asks_monitors peer node requester request) =
    IsStamped-IsQuiet s _
      (on_monitor_inventory_refresh_request-IsQuiet s r peer node requester request)
step-IsStamped s r (asks_update peer target requester request) =
    IsStamped-IsQuiet s _ (on_remote_update_request-IsQuiet s r peer target requester request)
step-IsStamped s r (reports_update peer target requester status d a b c e f g) =
    IsStamped-IsQuiet s _
      (on_remote_update_status-IsQuiet s r peer target requester status d a b c e f g)
step-IsStamped s r (updates_nodes peer renames base request applied) =
    IsStamped-IsQuiet s _
      (on_node_list_update_request-IsQuiet s r peer renames base request applied)
step-IsStamped s r (updates_note node note request) =
    IsStamped-IsQuiet s _ (on_node_note_update_request-IsQuiet s r node note request)
step-IsStamped s r (bound resolver peer) = on_bound-IsStamped s r resolver peer
step-IsStamped s r (unbound now peer) = on_unbound-IsStamped r now s peer
step-IsStamped s r (expires now) = expire_once-IsStamped r now s

run-epoch : (s : Service) (es : History) → (run s es).0.coordinator_epoch ≡ s.coordinator_epoch
unfolding run
run-epoch s [] = refl
run-epoch s ((r, e) ∷ es) = run-epoch (step r s e).0 es ∙ (step-IsStamped s r e).epoch

-- In every history, all lease updates carry the epoch that the service had at its start.
pub run-AllStamped : (s : Service) (es : History) → AllStamped s.coordinator_epoch (run s es).1
unfolding run
run-AllStamped s [] = tt
run-AllStamped s ((r, e) ∷ es) =
    let done = step-IsStamped s r e in
    All-append _ (step r s e).1 (run (step r s e).0 es).1 done.frames (
      subst (λ x. AllStamped x (run (step r s e).0 es).1) done.epoch
        (run-AllStamped (step r s e).0 es))
