-- ===== src/Coordination/Client/Step/Orderly.antt =====
-- What every step of the client keeps to: who lets it control a target, who tells it by whom it is controlled,
-- and the order of the epochs.
use multi_controller.Prelude.{◌≡◌, ◌⊎◌, refl, inl, some, String}
use multi_controller.Routing.Router.Targets.{Activates, step-active}
use multi_controller.Coordination.Client.{Client, Around, Outcome}
use multi_controller.Coordination.Client.Calm.{IsStill, still, IsNotOlder}
use multi_controller.Coordination.Client.Targets.Led.{
  IsOrderly, IsStill-IsLed, IsLed-IsOrderly, IsCalm-IsOrderly,
}
use multi_controller.Coordination.Client.Targets.Rules.{
  IsGrant, IsLease, notify_local_input_override-IsStill, request_target-IsLed, clear_target-IsLed,
  on_peer_unbound-IsLed, on_deny-IsOrderly, on_grant-IsOrderly, on_lease_update-IsOrderly,
}
use multi_controller.Coordination.Client.Layouts.Calm.{
  request_layout_edit-IsStill, end_layout_edit-IsStill, request_auto_switch_enabled-IsStill,
  on_layout_edit_grant-IsCalm, on_layout_edit_deny-IsCalm, on_layout_state-IsCalm,
  on_layout_update-IsCalm,
}
use multi_controller.Coordination.Client.Nodes.{on_monitor_inventory_refresh_request}
use multi_controller.Coordination.Client.Nodes.Calm.{
  publish_monitor_inventory-IsStill, request_monitor_inventory_refresh-IsStill,
  request_node_note_update-IsStill, request_node_list_update-IsStill,
  on_monitor_inventory_state-IsCalm, on_monitor_inventory_refresh_status-IsCalm,
  on_node_note_update_state-IsCalm, on_node_list_state-IsCalm,
}
use multi_controller.Coordination.Client.Updates.{
  on_remote_update_command, on_update_check_command, on_update_download_command,
}
use multi_controller.Coordination.Client.Updates.Calm.{
  request_remote_update-IsStill, request_group_update_check-IsStill,
  request_group_update_download-IsStill, on_remote_update_status-IsCalm,
  on_update_check_state-IsCalm, on_update_download_state-IsCalm,
}
use multi_controller.Coordination.Client.Tick.Calm.{control_tick-IsCalm}
use multi_controller.Coordination.Client.Step.{
  Heard, grant, deny, lease_update, layout_edit_grant, layout_edit_deny, layout_state,
  layout_update, monitor_inventory_state, monitor_inventory_refresh_request,
  monitor_inventory_refresh_status, node_note_update_state, node_list_state, remote_update_command,
  remote_update_status, update_check_command, update_check_state, update_download_command,
  update_download_state, Event, requests_target, clears_target, overrides, begins_layout_edit,
  ends_layout_edit, switches, publishes, refreshes, notes, edits_nodes, updates, checks, downloads,
  loses, ticks, hears, routes, dispatch, step,
}

-- The coordinator grants the target to the own node, or an operation of the router activates it.
abbrev pub Grants : Around → Client → Event → String → Type 0
Grants env c (hears peer (grant target controller epoch)) k = IsGrant env c peer target controller k
Grants env c (routes o) k = Activates o k
Grants env c _ k = ⊥

-- The coordinator says that the node controls the own node.
abbrev pub Tells : Around → Client → Event → String → Type 0
Tells env c (hears peer (lease_update target controller epoch)) k =
    IsLease env c peer target controller k
Tells env c _ k = ⊥

abbrev IsOrderlyStep : Around → Client → Event → Outcome → Type 0
IsOrderlyStep env c e o = IsOrderly env (Grants env c e) (Tells env c e) c o

by_still :
    {G T : String → Type 0} (env : Around) (c : Client) (o : Outcome)
    → IsStill c o
    → IsOrderly env G T c o
by_still env c o h = IsLed-IsOrderly env c o (IsStill-IsLed c o h)

dispatch-IsOrderly :
    (env : Around) (c : Client) (peer : String) (frame : Heard)
    → IsOrderlyStep env c (hears peer frame) (dispatch env c peer frame)
unfolding dispatch on_monitor_inventory_refresh_request on_remote_update_command
    on_update_check_command on_update_download_command
dispatch-IsOrderly env c peer (grant target controller epoch) =
    on_grant-IsOrderly env c peer target controller epoch
dispatch-IsOrderly env c peer (deny target controller epoch reason) =
    on_deny-IsOrderly env c peer target controller epoch reason
dispatch-IsOrderly env c peer (lease_update target controller epoch) =
    on_lease_update-IsOrderly env c peer target controller epoch
dispatch-IsOrderly env c peer (layout_edit_grant editor epoch) =
    IsCalm-IsOrderly env c _ (on_layout_edit_grant-IsCalm env c peer editor epoch)
dispatch-IsOrderly env c peer (layout_edit_deny editor reason current epoch) =
    IsCalm-IsOrderly env c _ (on_layout_edit_deny-IsCalm env c peer editor reason current epoch)
dispatch-IsOrderly env c peer (layout_state editor epoch) =
    IsCalm-IsOrderly env c _ (on_layout_state-IsCalm env c peer editor epoch)
dispatch-IsOrderly env c peer (layout_update u reload) =
    IsCalm-IsOrderly env c _ (on_layout_update-IsCalm env c peer u reload)
dispatch-IsOrderly env c peer (monitor_inventory_state snapshot epoch reload) =
    IsCalm-IsOrderly env c _ (on_monitor_inventory_state-IsCalm env c peer snapshot epoch reload)
dispatch-IsOrderly env c peer (monitor_inventory_refresh_request node_id) =
    by_still env c _ (still c _)
dispatch-IsOrderly env c peer
      (monitor_inventory_refresh_status requester node_id status detail request epoch) =
    IsCalm-IsOrderly env c _ (
      on_monitor_inventory_refresh_status-IsCalm env c peer requester node_id status detail request
        epoch)
dispatch-IsOrderly env c peer (node_note_update_state node_id text request epoch reload) =
    IsCalm-IsOrderly env c _
      (on_node_note_update_state-IsCalm env c peer node_id text request epoch reload)
dispatch-IsOrderly env c peer (node_list_state l reload) =
    IsCalm-IsOrderly env c _ (on_node_list_state-IsCalm env c peer l reload)
dispatch-IsOrderly env c peer (remote_update_command target requester request) =
    by_still env c _ (still c _)
dispatch-IsOrderly env c peer (remote_update_status u) =
    IsCalm-IsOrderly env c _ (on_remote_update_status-IsCalm env c peer u)
dispatch-IsOrderly env c peer (update_check_command job) = by_still env c _ (still c _)
dispatch-IsOrderly env c peer
      (update_check_state requester request status detail result source epoch) =
    IsCalm-IsOrderly env c _
      (on_update_check_state-IsCalm env c peer requester request status detail result source epoch)
dispatch-IsOrderly env c peer (update_download_command job url tag) = by_still env c _ (still c _)
dispatch-IsOrderly env c peer (update_download_state requester request status detail share epoch) =
    IsCalm-IsOrderly env c _
      (on_update_download_state-IsCalm env c peer requester request status detail share epoch)

step-IsOrderly : (env : Around) (c : Client) (e : Event) → IsOrderlyStep env c e (step env c e)
unfolding step
step-IsOrderly env c (requests_target k source) =
    IsLed-IsOrderly env c _ (request_target-IsLed env c k source)
step-IsOrderly env c clears_target = IsLed-IsOrderly env c _ (clear_target-IsLed env c)
step-IsOrderly env c overrides = by_still env c _ (notify_local_input_override-IsStill env c)
step-IsOrderly env c begins_layout_edit = by_still env c _ (request_layout_edit-IsStill env c)
step-IsOrderly env c ends_layout_edit = by_still env c _ (end_layout_edit-IsStill env c)
step-IsOrderly env c (switches enabled) =
    by_still env c _ (request_auto_switch_enabled-IsStill env c enabled)
step-IsOrderly env c (publishes snapshot) =
    by_still env c _ (publish_monitor_inventory-IsStill env c snapshot)
step-IsOrderly env c (refreshes k starts) =
    by_still env c _ (request_monitor_inventory_refresh-IsStill env c k starts)
step-IsOrderly env c (notes k text) =
    by_still env c _ (request_node_note_update-IsStill env c k text)
step-IsOrderly env c (edits_nodes nodes renames) =
    by_still env c _ (request_node_list_update-IsStill env c nodes renames)
step-IsOrderly env c (updates k) = by_still env c _ (request_remote_update-IsStill env c k)
step-IsOrderly env c checks = by_still env c _ (request_group_update_check-IsStill env c)
step-IsOrderly env c (downloads tag url current latest) =
    by_still env c _ (request_group_update_download-IsStill env c tag url current latest)
step-IsOrderly env c (loses k) = IsLed-IsOrderly env c _ (on_peer_unbound-IsLed env c k)
step-IsOrderly env c (ticks deadline last) =
    IsCalm-IsOrderly env c _ (control_tick-IsCalm env c deadline last)
step-IsOrderly env c (hears peer frame) = dispatch-IsOrderly env c peer frame
step-IsOrderly env c (routes o) = IsLed-IsOrderly env c _ record {
  active = step-active c.router c.ctx env.registry o;
  controller = λ k e. inl e;
  epoch = refl;
}

-- The router has an active target after a step only if it had it before, if the step is a grant of that target
-- to the own node that comes from the elected coordinator, or if the step is the activation of that target by an
-- operation of the router itself.
pub step-Grants :
    (env : Around) (c : Client) (e : Event) (k : String)
    → (step env c e).0.router.active_target_id ≡ some k
    → (c.router.active_target_id ≡ some k) ⊎ Grants env c e k
step-Grants env c e k h = (step-IsOrderly env c e).active k h

-- The sink obeys a controller after a step only if it did before, or if the step is a lease update about the
-- own node that names that controller and comes from the elected coordinator.
pub step-Tells :
    (env : Around) (c : Client) (e : Event) (k : String)
    → (step env c e).0.sink.authorized_controller_id ≡ some k
    → (c.sink.authorized_controller_id ≡ some k) ⊎ Tells env c e k
step-Tells env c e k h = (step-IsOrderly env c e).controller k h

-- Whatever happens, the epoch that the client goes by is not replaced by an older one of the same coordinator:
-- where there is one before and after a step, the comparison of the program does not find the new one below.
pub step-IsNotOlder :
    (env : Around) (c : Client) (e : Event)
    → IsNotOlder env.int_of c.coordinator_epoch (step env c e).0.coordinator_epoch
step-IsNotOlder env c e = (step-IsOrderly env c e).epoch
