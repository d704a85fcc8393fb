-- ===== src/Coordination/Service/Nodes/Quiet.antt =====
-- The handlers of monitors, relayed requests and the node list leave the leases alone.
use multi_controller.Prelude.{
  refl, inl, inr, Bool, true, false, Bool-cases, Option, none, some, Option-cases, List, [], ◌∷◌,
  String, ◌==◌, All-append, if◌then◌else◌,
}
use multi_controller.Prelude.Int.{ℤ, pos, eqb_ℤ}
use multi_controller.Prelude.Text.{given, strip, text_of}
use multi_controller.Prelude.Dict.{Dict}
use multi_controller.Context.{NodeInfo, get_node}
use multi_controller.Registry
use multi_controller.Registry.{Registry, Conn}
use multi_controller.Display.Inventory.{MonitorInventorySnapshot}
use multi_controller.Coordination.Protocol.{
  remote_update_command, monitor_inventory_refresh_request,
}
use multi_controller.Coordination.Service.{Service, Delivery, self_id, reply, target_is_online}
use multi_controller.Coordination.Service.Leases.View.{AllOther, reply-AllOther, broadcast-AllOther}
use multi_controller.Coordination.Service.Leases.Quiet.{IsQuiet}
use multi_controller.Coordination.Service.Nodes.{
  Applied, no_reloader, raises, leaves, on_monitor_inventory_publish, refresh_status, ask_remote,
  refresh_target, on_monitor_inventory_refresh_request, command_target, on_remote_update_request,
  relay_status, on_remote_update_status, apply_nodes, on_node_list_update_request, note_node,
  on_node_note_update_request,
}

module _ (s : Service) (r : Registry) where
  sends : {ds : List Delivery} → AllOther ds → IsQuiet s (s, ds)
  sends h = record { leases = refl; epoch = refl; others = h }

  pub on_monitor_inventory_publish-IsQuiet :
      (snapshot : Option MonitorInventorySnapshot)
      → IsQuiet s (on_monitor_inventory_publish s r snapshot)
  unfolding on_monitor_inventory_publish
  on_monitor_inventory_publish-IsQuiet none = sends tt
  on_monitor_inventory_publish-IsQuiet (some snapshot) =
      elim (Bool-cases (snapshot.node_id == "")) [
        | inl e ↦ rw e (sends tt)
        | inr e ↦
            rw e (record { leases = refl; epoch = refl; others = broadcast-AllOther s r _ tt })
      ]

  refresh_status-AllOther :
      (target requester request status d : String)
      → AllOther (refresh_status s r target requester request status d)
  unfolding refresh_status
  refresh_status-AllOther target requester request status d = reply-AllOther s r requester _ tt

  asked-AllOther :
      (b : Bool) (target requester request : String)
      → AllOther (
          if b
          then (target, monitor_inventory_refresh_request target requester request) ∷ []
          else [])
  asked-AllOther true target requester request = (tt, tt)
  asked-AllOther false target requester request = tt

  ask_remote-AllOther :
      (target requester request : String) (conn : Option Conn)
      → AllOther (ask_remote s r target requester request conn)
  unfolding ask_remote
  ask_remote-AllOther target requester request none = reply-AllOther s r requester _ tt
  ask_remote-AllOther target requester request (some conn) =
      All-append _ _ _ (asked-AllOther conn.accepts target requester request)
        (reply-AllOther s r requester _ tt)

  refresh_target-AllOther :
      (target requester request : String) (node : Option NodeInfo)
      → AllOther (refresh_target s r target requester request node)
  unfolding refresh_target
  refresh_target-AllOther target requester request none = reply-AllOther s r requester _ tt
  refresh_target-AllOther target requester request (some node) =
      elim (Bool-cases (target == self_id s)) [
        | inl e ↦ rw e (tt, reply-AllOther s r requester _ tt)
        | inr e ↦ rw e (ask_remote-AllOther target requester request (Registry.get r target))
      ]

  pub on_monitor_inventory_refresh_request-IsQuiet :
      (p : String) (node_id requester_id request_id : Option String)
      → IsQuiet s (on_monitor_inventory_refresh_request s r p node_id requester_id request_id)
  unfolding on_monitor_inventory_refresh_request
  on_monitor_inventory_refresh_request-IsQuiet p node_id requester_id request_id =
      elim (Option-cases (given node_id)) [
        | inl e ↦ rw (e, on_monitor_inventory_refresh_request) (sends tt)
        | inr (target, e) ↦
            rw (e, on_monitor_inventory_refresh_request)
              (sends (refresh_target-AllOther target _ _ (get_node s.ctx target)))
      ]

  command_target-AllOther :
      (target requester request : String) (node : Option NodeInfo)
      → AllOther (command_target s r target requester request node)
  unfolding command_target
  command_target-AllOther target requester request none = reply-AllOther s r requester _ tt
  command_target-AllOther target requester request (some node) =
      let command = remote_update_command target requester s.coordinator_epoch request in
      elim (Bool-cases (target_is_online s r target)) [
        | inl on ↦ rw on (elim (Bool-cases (reply s r target command).1) [
          | inl e ↦ rw e (
              All-append _ _ _ (reply-AllOther s r target command tt)
                (reply-AllOther s r requester _ tt))
          | inr e ↦ rw e (
              All-append _ _ _ (reply-AllOther s r target command tt)
                (reply-AllOther s r requester _ tt))
        ])
        | inr off ↦ rw off (reply-AllOther s r requester _ tt)
      ]

  pub on_remote_update_request-IsQuiet :
      (p : String) (target_id requester_id request_id : Option String)
      → IsQuiet s (on_remote_update_request s r p target_id requester_id request_id)
  unfolding on_remote_update_request
  on_remote_update_request-IsQuiet p target_id requester_id request_id =
      elim (Option-cases (given target_id)) [
        | inl e ↦ rw (e, on_remote_update_request) (sends tt)
        | inr (target, e) ↦
            rw (e, on_remote_update_request)
              (sends (command_target-AllOther target _ _ (get_node s.ctx target)))
      ]

  relay_status-AllOther :
      (p target requester : String) (status d : Option String) (a b c e f g : String)
      → AllOther (relay_status s r p target requester status d a b c e f g)
  unfolding relay_status
  relay_status-AllOther p target requester none d a b c e f g = tt
  relay_status-AllOther p target requester (some status) none a b c e f g = tt
  relay_status-AllOther p target requester (some status) (some d) a b c e f g =
      elim (Bool-cases (p == target)) [
        | inl h ↦ rw h (reply-AllOther s r requester _ tt)
        | inr h ↦ rw h tt
      ]

  pub on_remote_update_status-IsQuiet :
      (p : String) (target_id requester_id status d a b c e f g : Option String)
      → IsQuiet s (on_remote_update_status s r p target_id requester_id status d a b c e f g)
  unfolding on_remote_update_status
  on_remote_update_status-IsQuiet p target_id requester_id status d a b c e f g =
      elim (Option-cases (given target_id)) [
        | inl h ↦ rw (h, on_remote_update_status) (sends tt)
        | inr (target, h) ↦
            rw (h, on_remote_update_status)
              (elim (Option-cases (given requester_id)) [
                | inl k ↦ rw k (sends tt)
                | inr (requester, k) ↦
                    rw k (sends (relay_status-AllOther p target requester status d _ _ _ _ _ _))
              ])
      ]

  apply_nodes-IsQuiet :
      (p : String) (base : ℤ) (renames : Dict String) (request : String) (applied : Applied)
      → IsQuiet s (apply_nodes s r p base renames request applied)
  unfolding apply_nodes
  apply_nodes-IsQuiet p base renames request no_reloader = sends tt
  apply_nodes-IsQuiet p base renames request raises =
      elim (Bool-cases (eqb_ℤ base (pos s.node_list_revision))) [
        | inl e ↦ rw e (sends (reply-AllOther s r p _ tt))
        | inr e ↦ rw e (sends (reply-AllOther s r p _ tt))
      ]
  apply_nodes-IsQuiet p base renames request (leaves ctx) =
      elim (Bool-cases (eqb_ℤ base (pos s.node_list_revision))) [
        | inl e ↦ rw e (record {
          leases = refl;
          epoch = refl;
          others = broadcast-AllOther (record s { ctx = ctx }) r _ tt;
        })
        | inr e ↦ rw e (sends (reply-AllOther s r p _ tt))
      ]

  pub on_node_list_update_request-IsQuiet :
      (p : String) (renames : Option (Dict String)) (base : Option ℤ) (request_id : Option String)
      (applied : Applied)
      → IsQuiet s (on_node_list_update_request s r p renames base request_id applied)
  unfolding on_node_list_update_request
  on_node_list_update_request-IsQuiet p none base request_id applied = sends tt
  on_node_list_update_request-IsQuiet p (some renames) none request_id applied = sends tt
  on_node_list_update_request-IsQuiet p (some renames) (some base) request_id applied =
      apply_nodes-IsQuiet p base renames (strip (text_of request_id)) applied

  note_node-IsQuiet :
      (target note request : String) (node : Option NodeInfo)
      → IsQuiet s (note_node s r target note request node)
  unfolding note_node
  note_node-IsQuiet target note request none = sends tt
  note_node-IsQuiet target note request (some node) = record {
    leases = refl;
    epoch = refl;
    others = broadcast-AllOther _ r _ tt;
  }

  pub on_node_note_update_request-IsQuiet :
      (node_id note request_id : Option String)
      → IsQuiet s (on_node_note_update_request s r node_id note request_id)
  unfolding on_node_note_update_request
  on_node_note_update_request-IsQuiet node_id none request_id = sends tt
  on_node_note_update_request-IsQuiet node_id (some note) request_id =
      elim (Option-cases (given node_id)) [
        | inl e ↦ rw (e, on_node_note_update_request) (sends tt)
        | inr (target, e) ↦
            rw (e, on_node_note_update_request)
              (note_node-IsQuiet target note (strip (text_of request_id)) (get_node s.ctx target))
      ]
