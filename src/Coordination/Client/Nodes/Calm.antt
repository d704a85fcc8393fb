-- ===== src/Coordination/Client/Nodes/Calm.antt =====
-- What the monitors and the list of nodes leave alone.
use multi_controller.Prelude.{
  refl, Bool, Option, none, some, List, [], ◌∷◌, String, ◌==◌, if_both, option_both, Bool-cases,
  inl, inr,
}
use multi_controller.Prelude.Int.{ltb_ℤ}
use multi_controller.Prelude.Text.{given, strip, text_of}
use multi_controller.Prelude.Dict.{Dict}
use multi_controller.Context.{NodeInfo, get_node, replace_nodes, note_nodes}
use multi_controller.Display.Inventory.{MonitorInventorySnapshot}
use multi_controller.Coordination.Protocol.{Request}
use multi_controller.Coordination.Client.{
  Client, Around, Effect, client_id, names, reaches_coordinator, track_one_shot_request,
  to_coordinator, refreshes_monitors,
}
use multi_controller.Coordination.Client.Calm.{
  IsStill, still, IsCalm, IsStill-IsCalm, accepting-IsCalm,
}
use multi_controller.Coordination.Client.Requests.{resolve_one_shot_request}
use multi_controller.Coordination.Client.Layouts.{Reload}
use multi_controller.Coordination.Client.Layouts.Calm.{
  resolve-IsStill, send_tracked-IsStill, IsStill-trans,
}
use multi_controller.Coordination.Client.Nodes.{
  NodeList, publish_monitor_inventory, ask_refresh, set_refresh_state,
  request_monitor_inventory_refresh, request_node_note_update, request_node_list_update,
  keep_snapshot, take_snapshot, on_monitor_inventory_state, on_monitor_inventory_refresh_status,
  take_note, on_node_note_update_state, take_node_list, on_node_list_state, revision_of,
  notify_node_list, added_node_ids, has_remote_peer,
}

set_refresh_state-IsStill :
    (c : Client) (k status detail : String) (did : List Effect)
    → IsStill c (set_refresh_state k status detail c, did)
unfolding set_refresh_state
set_refresh_state-IsStill c k status detail did = record {
  router = refl;
  sink = refl;
  epoch = refl;
}

module _ (env : Around) where
  pub publish_monitor_inventory-IsStill :
      (c : Client) (snapshot : MonitorInventorySnapshot)
      → IsStill c (publish_monitor_inventory env c snapshot)
  unfolding publish_monitor_inventory
  publish_monitor_inventory-IsStill c snapshot = record { router = refl; sink = refl; epoch = refl }

  ask_refresh-IsStill : (c : Client) (k : String) → IsStill c (ask_refresh env c k)
  unfolding ask_refresh
  ask_refresh-IsStill c k =
      if_both (IsStill c) _ _ _ (send_tracked-IsStill env c _ _ _)
        (set_refresh_state-IsStill c _ _ _ [])

  pub request_monitor_inventory_refresh-IsStill :
      (c : Client) (k : String) (starts : Bool)
      → IsStill c (request_monitor_inventory_refresh env c k starts)
  unfolding request_monitor_inventory_refresh
  request_monitor_inventory_refresh-IsStill c k starts =
      if_both (IsStill c) (k == "") _ _ (still c []) (
        if_both (IsStill c) (k == client_id c) _ _
          (if_both (λ x. IsStill c (x, refreshes_monitors ∷ [])) starts _ _
            (set_refresh_state-IsStill c k _ _ _) (set_refresh_state-IsStill c k _ _ _))
          (IsStill-trans env c _ _ (set_refresh_state-IsStill c _ _ _ [])
            (ask_refresh-IsStill _ k)))

  pub request_node_note_update-IsStill :
      (c : Client) (k text : String) → IsStill c (request_node_note_update env c k text)
  unfolding request_node_note_update
  request_node_note_update-IsStill c k text = send_tracked-IsStill env c _ _ _

  abbrev asked : Client → List NodeInfo → Dict String → List Effect
  asked c nodes renames =
      to_coordinator (
        Request.node_list_update_request nodes (client_id c) c.node_list_revision renames env.fresh)
      ∷ []

  pub request_node_list_update-IsStill :
      (c : Client) (nodes : List NodeInfo) (renames : Dict String)
      → IsStill c (request_node_list_update env c nodes renames)
  unfolding request_node_list_update track_one_shot_request
  request_node_list_update-IsStill c nodes renames =
      if_both (IsStill c) (reaches_coordinator c env) _ _
        (elim (Bool-cases (has_remote_peer c env)) [
          | inl h ↦ rw h (
              if_both (λ x. IsStill c (x, asked c nodes renames)) (env.fresh == "") c _ (still c _)
                record { router = refl; sink = refl; epoch = refl })
          | inr h ↦ rw h (still c _)
        ])
        (still c [])

  take_snapshot-IsStill :
      (c : Client) (snapshot : Option MonitorInventorySnapshot) (reload : Option Reload)
      → IsStill c (take_snapshot env c snapshot reload, [])
  unfolding take_snapshot keep_snapshot set_refresh_state
  take_snapshot-IsStill c none reload = still c []
  take_snapshot-IsStill c (some snapshot) none =
      if_both (λ x. IsStill c (x, [])) (snapshot.node_id == "") _ _ (still c [])
        record { router = refl; sink = refl; epoch = refl }
  take_snapshot-IsStill c (some snapshot) (some reload) =
      if_both (λ x. IsStill c (x, [])) (snapshot.node_id == "") _ _ (still c [])
        record { router = refl; sink = refl; epoch = refl }

  pub on_monitor_inventory_state-IsCalm :
      (c : Client) (peer : String) (snapshot : Option MonitorInventorySnapshot)
      (epoch : Option String) (reload : Option Reload)
      → IsCalm env c (on_monitor_inventory_state env c peer snapshot epoch reload)
  unfolding on_monitor_inventory_state
  on_monitor_inventory_state-IsCalm c peer snapshot epoch reload =
      accepting-IsCalm env c peer epoch _ (λ c'. take_snapshot-IsStill c' snapshot reload)

  pub on_monitor_inventory_refresh_status-IsCalm :
      (c : Client) (peer : String) (requester node_id status detail request epoch : Option String)
      → IsCalm env c (
          on_monitor_inventory_refresh_status env c peer requester node_id status detail request
            epoch)
  unfolding on_monitor_inventory_refresh_status
  on_monitor_inventory_refresh_status-IsCalm c peer requester node_id none detail request epoch =
      IsStill-IsCalm env c _ (still c [])
  on_monitor_inventory_refresh_status-IsCalm c peer requester node_id (some status) detail request
        epoch =
      option_both (IsCalm env c) (given node_id) _ _ (IsStill-IsCalm env c _ (still c [])) (λ k.
        if_both (IsCalm env c) (names requester (client_id c)) _ _
          (accepting-IsCalm env c peer epoch _ (λ c'.
            IsStill-trans env c' _ _ (set_refresh_state-IsStill c' k status (text_of detail) [])
              (resolve-IsStill _ request [])))
          (IsStill-IsCalm env c _ (still c [])))

  take_note-IsStill :
      (c : Client) (k text : String) (request : Option String) (reload : Option Reload)
      → IsStill c (take_note env c k text request reload, [])
  unfolding take_note
  take_note-IsStill c k text request (some reload) =
      if_both (λ x. IsStill c (x, [])) reload.raised _ _
        record { router = refl; sink = refl; epoch = refl }
        (IsStill-trans env c (record c { ctx = reload.context }) _
          record { router = refl; sink = refl; epoch = refl }
          (resolve-IsStill (record c { ctx = reload.context }) request []))
  take_note-IsStill c k text request none =
      option_both (λ x. IsStill c (x, [])) (get_node c.ctx k) _ _ (still c [])
        (λ n.
          IsStill-trans env c
            (record c { ctx = replace_nodes c.ctx (note_nodes k text c.ctx.nodes) }) _
            record { router = refl; sink = refl; epoch = refl }
            (resolve-IsStill
              (record c { ctx = replace_nodes c.ctx (note_nodes k text c.ctx.nodes) }) request []))

  pub on_node_note_update_state-IsCalm :
      (c : Client) (peer : String) (node_id text request epoch : Option String)
      (reload : Option Reload)
      → IsCalm env c (on_node_note_update_state env c peer node_id text request epoch reload)
  unfolding on_node_note_update_state
  on_node_note_update_state-IsCalm c peer node_id none request epoch reload =
      IsStill-IsCalm env c _ (still c [])
  on_node_note_update_state-IsCalm c peer node_id (some text) request epoch reload =
      option_both (IsCalm env c) (given node_id) _ _ (IsStill-IsCalm env c _ (still c [])) (λ k.
        accepting-IsCalm env c peer epoch _ (λ c'. take_note-IsStill c' k text request reload))

  take_node_list-IsStill :
      (c : Client) (l : NodeList) (reload : Reload) → IsStill c (take_node_list env c l reload)
  unfolding take_node_list resolve_one_shot_request
  take_node_list-IsStill c l reload =
      if_both (IsStill c) (ltb_ℤ (revision_of env c l) c.node_list_revision) _ _ (still c []) (
        if_both (IsStill c) reload.raised _ _ record { router = refl; sink = refl; epoch = refl }
          (if_both
            (λ x.
              IsStill c
                (x, notify_node_list env l (revision_of env c l) (added_node_ids c.ctx l.nodes)))
            (strip (text_of l.request_id) == "") _ _
            record { router = refl; sink = refl; epoch = refl }
            record { router = refl; sink = refl; epoch = refl }))

  pub on_node_list_state-IsCalm :
      (c : Client) (peer : String) (l : NodeList) (reload : Reload)
      → IsCalm env c (on_node_list_state env c peer l reload)
  unfolding on_node_list_state
  on_node_list_state-IsCalm c peer l reload =
      accepting-IsCalm env c peer l.epoch _ (λ c'. take_node_list-IsStill c' l reload)
