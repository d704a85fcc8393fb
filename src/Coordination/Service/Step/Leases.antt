-- ===== src/Coordination/Service/Step/Leases.antt =====
-- What holds of the leases in every step and every history of the coordinator service.
use multi_controller.Prelude.{none, ◌≡◌, refl, ◌∙◌, ap, true, some, [], ◌∷◌, String}
use multi_controller.Prelude.Dict.{HasUniqueKeys}
use multi_controller.Prelude.Dict
use multi_controller.Context.{Context}
use multi_controller.Registry.{Registry}
use multi_controller.Coordination.Service.{initial, Service, holder}
use multi_controller.Coordination.Service.Leases.View.{view, reaches, view-append}
use multi_controller.Coordination.Service.Leases.Sound.{
  IsSound, on_claim-IsSound, on_release-IsSound, on_local_input_override-IsSound,
  on_heartbeat-IsSound,
}
use multi_controller.Coordination.Service.Leases.Quiet.{IsQuiet-IsSound}
use multi_controller.Coordination.Service.LayoutEdit.Quiet.{
  on_layout_edit_begin-IsQuiet, on_layout_edit_end-IsQuiet, on_layout_update-IsQuiet,
  on_auto_switch_update_request-IsQuiet,
}
use multi_controller.Coordination.Service.Updates.Quiet.{
  on_update_check_request-IsQuiet, on_update_check_result-IsQuiet,
}
use multi_controller.Coordination.Service.Downloads.Quiet.{
  on_update_download_request-IsQuiet, on_update_download_result-IsQuiet,
}
use multi_controller.Coordination.Service.Nodes.Quiet.{
  on_monitor_inventory_publish-IsQuiet, on_monitor_inventory_refresh_request-IsQuiet,
  on_remote_update_request-IsQuiet, on_remote_update_status-IsQuiet,
  on_node_list_update_request-IsQuiet, on_node_note_update_request-IsQuiet,
}
use multi_controller.Coordination.Service.Events.Sound.{on_unbound-IsSound, expire_once-IsSound}
use multi_controller.Coordination.Service.Events.Bound.{on_bound-IsSound}
use multi_controller.Coordination.Service.Step.{
  Event, claims, heartbeats, releases, overrides, begins_edit, ends_edit, updates_layout,
  switches_auto, asks_check, reports_check, asks_download, reports_download, publishes_monitors,
  asks_monitors, asks_update, reports_update, updates_nodes, updates_note, bound, unbound, expires,
  step, History, run,
}

pub step-IsSound :
    (s : Service) (r : Registry) (e : Event) (t : String)
    → HasUniqueKeys s.leases
    → IsSound s r t (step r s e)
unfolding step
step-IsSound s r (claims now peer frame) t u = on_claim-IsSound s r t now peer frame
step-IsSound s r (heartbeats now peer frame) t u = on_heartbeat-IsSound s r t now peer frame
step-IsSound s r (releases peer frame) t u = on_release-IsSound s r t peer frame
step-IsSound s r (overrides peer frame) t u = on_local_input_override-IsSound s r t peer frame
step-IsSound s r (begins_edit peer editor) t u =
    IsQuiet-IsSound s r t _ (on_layout_edit_begin-IsQuiet s r peer editor)
step-IsSound s r (ends_edit peer editor) t u =
    IsQuiet-IsSound s r t _ (on_layout_edit_end-IsQuiet s r peer editor)
step-IsSound s r (updates_layout peer editor raw persist) t u =
    IsQuiet-IsSound s r t _ (on_layout_update-IsQuiet s r peer editor raw persist)
step-IsSound s r (switches_auto peer enabled requester request) t u =
    IsQuiet-IsSound s r t _
      (on_auto_switch_update_request-IsQuiet s r peer enabled requester request)
step-IsSound s r (asks_check now fresh peer requester request) t u =
    IsQuiet-IsSound s r t _ (on_update_check_request-IsQuiet s r now fresh peer requester request)
step-IsSound s r (reports_check now peer job status d source result) t u =
    IsQuiet-IsSound s r t _ (on_update_check_result-IsQuiet s r now peer job status d source result)
step-IsSound s r (asks_download now fresh peer requester request tag url) t u =
    IsQuiet-IsSound s r t _
      (on_update_download_request-IsQuiet s r now fresh peer requester request tag url)
step-IsSound s r (reports_download now peer job status share) t u =
    IsQuiet-IsSound s r t _ (on_update_download_result-IsQuiet s r now peer job status share)
step-IsSound s r (publishes_monitors snapshot) t u =
    IsQuiet-IsSound s r t _ (on_monitor_inventory_publish-IsQuiet s r snapshot)
step-IsSound s r (asks_monitors peer node requester request) t u =
    IsQuiet-IsSound s r t _
      (on_monitor_inventory_refresh_request-IsQuiet s r peer node requester request)
step-IsSound s r (asks_update peer target requester request) t u =
    IsQuiet-IsSound s r t _ (on_remote_update_request-IsQuiet s r peer target requester request)
step-IsSound s r (reports_update peer target requester status d a b c e f g) t u =
    IsQuiet-IsSound s r t _
      (on_remote_update_status-IsQuiet s r peer target requester status d a b c e f g)
step-IsSound s r (updates_nodes peer renames base request applied) t u =
    IsQuiet-IsSound s r t _
      (on_node_list_update_request-IsQuiet s r peer renames base request applied)
step-IsSound s r (updates_note node note request) t u =
    IsQuiet-IsSound s r t _ (on_node_note_update_request-IsQuiet s r node note request)
step-IsSound s r (bound resolver peer) t u = on_bound-IsSound s r resolver peer t
step-IsSound s r (unbound now peer) t u = on_unbound-IsSound r now s peer t
step-IsSound s r (expires now) t u = expire_once-IsSound r now s t u

-- No step from leases with one entry for each target hands a target over from one controller to
-- another: if it is leased before and after the step, it is leased to the same controller.
pub step-holder_kept :
    (s : Service) (r : Registry) (e : Event) (t a b : String)
    → HasUniqueKeys s.leases
    → holder s t ≡ some a
    → holder (step r s e).0 t ≡ some b
    → a ≡ b
step-holder_kept s r e t a b u = (step-IsSound s r e t u).kept a b

-- The target can be reached in every step of the history.
unfoldable pub StaysReached : String → Service → History → Type 0
StaysReached t s [] = Unit
StaysReached t s ((r, e) ∷ es) = (reaches s r t ≡ true) × StaysReached t (step r s e).0 es

-- From leases with one entry for each target, and after any history in which the target can be reached
-- throughout, a target that knew its lease at the start knows it at the end: the controller of the last
-- lease update that it got is the holder of its lease, or both are none.
pub run-synced :
    (t : String) (s : Service) (es : History)
    → HasUniqueKeys s.leases
    → StaysReached t s es
    → view t (holder s t) (run s es).1 ≡ holder (run s es).0 t
unfolding run StaysReached
run-synced t s [] u h = unfold view in refl
run-synced t s ((r, e) ∷ es) u h =
    let sound = step-IsSound s r e t u in
    view-append t (holder s t) (step r s e).1 (run (step r s e).0 es).1
    ∙ ap (λ k. view t k (run (step r s e).0 es).1) (sound.synced h.0)
    ∙ run-synced t (step r s e).0 es (sound.unique u) h.1

-- From its start on, the service keeps a target that can be reached throughout in step with its lease.
run-initial :
    (t : String) (ctx : Context) (epoch : String) (es : History)
    → StaysReached t (initial ctx epoch) es
    → view t none (run (initial ctx epoch) es).1 ≡ holder (run (initial ctx epoch) es).0 t
unfolding initial holder Dict.get
run-initial t ctx epoch es h = run-synced t (initial ctx epoch) es tt h
