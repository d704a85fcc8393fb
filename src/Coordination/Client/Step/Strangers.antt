-- ===== src/Coordination/Client/Step/Strangers.antt =====
-- The frames of a node that is not the coordinator.
use multi_controller.Prelude.{
  ◌≡◌, refl, arith, Bool, true, false, none, some, [], String, if_both, option_both, if_given,
}
use multi_controller.Prelude.Text.{given}
use multi_controller.Coordination.Client.{Client, Around, client_id, names, id_of}
use multi_controller.Coordination.Client.Calm.{accepting-names}
use multi_controller.Coordination.Client.Targets.{on_grant, on_deny, on_lease_update}
use multi_controller.Coordination.Client.Layouts.{
  take_update, on_layout_edit_grant, on_layout_edit_deny, on_layout_state, on_layout_update,
}
use multi_controller.Coordination.Client.Nodes.{
  on_monitor_inventory_state, on_monitor_inventory_refresh_status, on_node_note_update_state,
  on_node_list_state,
}
use multi_controller.Coordination.Client.Updates.{on_update_check_state, on_update_download_state}
use multi_controller.Coordination.Client.Step.{
  Heard, grant, deny, lease_update, layout_edit_grant, layout_edit_deny, layout_state,
  layout_update, monitor_inventory_state, monitor_inventory_refresh_request,
  monitor_inventory_refresh_status, node_note_update_state, node_list_state, remote_update_command,
  remote_update_status, update_check_command, update_check_state, update_download_command,
  update_download_state, dispatch,
}

-- The frames that only the coordinator may send: all but the layout at the start of a connection, the commands,
-- the request to detect monitors, and the status of an update, which the target sends to the coordinator.
abbrev pub IsGuarded : Heard → Type 0
IsGuarded (layout_update u reload) = u.bootstrap ≡ false
IsGuarded (monitor_inventory_refresh_request node_id) = ⊥
IsGuarded (remote_update_command target requester request) = ⊥
IsGuarded (remote_update_status u) = ⊥
IsGuarded (update_check_command job) = ⊥
IsGuarded (update_download_command job url tag) = ⊥
IsGuarded _ = Unit

-- A guarded frame of a node that is not the elected coordinator, or of any node while there is no coordinator, is
-- ignored: the state of the client, its router and its sink stay as they are, and nothing is sent or told.
pub dispatch-IsGuarded :
    (env : Around) (c : Client) (peer : String) (frame : Heard)
    → IsGuarded frame
    → names (id_of env.coordinator) peer ≡ false
    → dispatch env c peer frame ≡ (c, [])
unfolding dispatch on_grant on_deny on_lease_update on_layout_edit_grant on_layout_edit_deny
    on_layout_state on_layout_update on_monitor_inventory_state on_monitor_inventory_refresh_status
    on_node_note_update_state on_node_list_state on_update_check_state on_update_download_state
dispatch-IsGuarded env c peer (grant target controller epoch) g h =
    option_both (λ o. o ≡ (c, [])) (given target) _ _ refl
      (λ k.
        if_both (λ o. o ≡ (c, [])) (names controller (client_id c)) _ _
          (accepting-names env c peer epoch _ h) refl)
dispatch-IsGuarded env c peer (deny target controller epoch reason) g h =
    option_both (λ o. o ≡ (c, [])) (given target) _ _ refl
      (λ k.
        if_both (λ o. o ≡ (c, [])) (names controller (client_id c)) _ _
          (accepting-names env c peer epoch _ h) refl)
dispatch-IsGuarded env c peer (lease_update target controller epoch) g h =
    if_both (λ o. o ≡ (c, [])) (names target (client_id c)) _ _
      (accepting-names env c peer epoch _ h) refl
dispatch-IsGuarded env c peer (layout_edit_grant editor epoch) g h =
    if_both (λ o. o ≡ (c, [])) (names editor (client_id c)) _ _
      (accepting-names env c peer epoch _ h) refl
dispatch-IsGuarded env c peer (layout_edit_deny editor reason current epoch) g h =
    if_both (λ o. o ≡ (c, [])) (names editor (client_id c)) _ _
      (accepting-names env c peer epoch _ h) refl
dispatch-IsGuarded env c peer (layout_state editor epoch) g h = accepting-names env c peer epoch _ h
dispatch-IsGuarded env c peer (layout_update u reload) g h =
    if_given (λ o. o ≡ (c, [])) u.bootstrap _ _ (λ t. absurd (differ u.bootstrap t g))
      (λ f. accepting-names env c peer u.epoch (λ c'. take_update env c' u reload) h)
  where
    differ : (b : Bool) → b ≡ true → b ≡ false → ⊥
    differ b t f = ground arith
dispatch-IsGuarded env c peer (monitor_inventory_state snapshot epoch reload) g h =
    accepting-names env c peer epoch _ h
dispatch-IsGuarded env c peer (monitor_inventory_refresh_request node_id) g h = absurd g
dispatch-IsGuarded env c peer
      (monitor_inventory_refresh_status requester node_id none detail request epoch) g h =
    refl
dispatch-IsGuarded env c peer
      (monitor_inventory_refresh_status requester node_id (some s) detail request epoch) g h =
    option_both (λ o. o ≡ (c, [])) (given node_id) _ _ refl
      (λ k.
        if_both (λ o. o ≡ (c, [])) (names requester (client_id c)) _ _
          (accepting-names env c peer epoch _ h) refl)
dispatch-IsGuarded env c peer (node_note_update_state node_id none request epoch reload) g h = refl
dispatch-IsGuarded env c peer (node_note_update_state node_id (some text) request epoch reload) g
      h =
    option_both (λ o. o ≡ (c, [])) (given node_id) _ _ refl
      (λ k. accepting-names env c peer epoch _ h)
dispatch-IsGuarded env c peer (node_list_state l reload) g h =
    accepting-names env c peer l.epoch _ h
dispatch-IsGuarded env c peer (remote_update_command target requester request) g h = absurd g
dispatch-IsGuarded env c peer (remote_update_status u) g h = absurd g
dispatch-IsGuarded env c peer (update_check_command job) g h = absurd g
dispatch-IsGuarded env c peer
      (update_check_state requester request status detail result source epoch) g h =
    if_both (λ o. o ≡ (c, [])) (names requester (client_id c)) _ _
      (accepting-names env c peer epoch _ h) refl
dispatch-IsGuarded env c peer (update_download_command job url tag) g h = absurd g
dispatch-IsGuarded env c peer (update_download_state requester request status detail share epoch) g
      h =
    if_both (λ o. o ≡ (c, [])) (names requester (client_id c)) _ _
      (accepting-names env c peer epoch _ h) refl
