-- ===== src/Tests/Client.antt =====
-- The desk coordinates the group; the laptop is controlled by it and wants to control the desk.
use multi_controller.Prelude.{
  ◌+◌, ltb, false, ◌≡◌, ◌⊎◌, refl, true, false, Option, none, some, [], ◌∷◌, String, ◌==◌,
  if◌then◌else◌, In, Option,
}
use multi_controller.Prelude.Int.{ℤ, pos, ◌≤ℤ◌}
use multi_controller.Prelude.Text.{given, split_at, strip, text_of}
use multi_controller.Prelude.Dict
use multi_controller.Prelude.Dict.{filtered}
use multi_controller.Context.{find_node, get_node}
use multi_controller.Registry
use multi_controller.Coordination.Service.LayoutEdit.{builds}
use multi_controller.Routing.Sink.{set_authorized_controller, authorize}
use multi_controller.Routing.Router.{
  Router, active, activate_target, is_target, swap_state, swapped, apply_pending_handoff,
  send_anchor, reset_local_held_state,
}
use multi_controller.Routing.Router
use multi_controller.Coordination.Client.{
  Client, Around, Effect, track_one_shot_request, OneShot, accepting, accept_coordinator_frame,
  accept_epoch, compare_epoch_tokens, reaches_coordinator,
}
use multi_controller.Coordination.Client.Calm.{IsNotOlder}
use multi_controller.Coordination.Client.Requests.{
  one_shot_timeout_for_kind, expire_pending_one_shot_requests,
}
use multi_controller.Coordination.Client.Requests.Expired.{
  IsTimeout, expire_pending_one_shot_requests-track_one_shot_request,
}
use multi_controller.Coordination.Client.Targets.{on_grant, granted, activate, on_lease_update}
use multi_controller.Coordination.Client.Layouts.{
  LayoutUpdate, on_layout_update, take_update, take_layout, apply_update, answered,
}
use multi_controller.Coordination.Client.Layouts.Revision.{on_layout_update-revision}
use multi_controller.Coordination.Client.Tick.{control_tick}
use multi_controller.Coordination.Client.Tick.Heartbeats.{IsAt, beats, control_tick-beats}
use multi_controller.Coordination.Client.Tick.Changed.{HasForgotten, control_tick-HasForgotten}
use multi_controller.Coordination.Client.Step.{Heard, grant, lease_update, hears, dispatch, step}
use multi_controller.Coordination.Client.Step.Orderly.{
  Grants, Tells, step-Grants, step-Tells, step-IsNotOlder,
}
use multi_controller.Coordination.Client.Step.Strangers.{dispatch-IsGuarded}
use multi_controller.Coordination.Service.{holder}
use multi_controller.Coordination.Service.Step.{run}
use multi_controller.Coordination.Link.{follow, follow-run}
use multi_controller.Tests.Steps.{history, history-StaysReached}
use multi_controller.Tests.Samples.{desk, laptop, laptop_registry, context_of, leased}
use multi_controller.Tests.Router.{sink}

abbrev count : String → Option ℤ
count s = if s == "2" then some (pos 2) else some (pos 1)

abbrev around : Around
around = record {
  coordinator = some desk;
  registry = laptop_registry;
  now = 60000;
  fresh = "r2";
  int_of = count;
}

abbrev waiting : OneShot
waiting = record { kind = "auto_switch"; target_id = ""; started_at = 50000 }

-- A check of the group may take longer.
abbrev checking : OneShot
checking = record { kind = "update_check"; target_id = ""; started_at = 50000 }

abbrev client_at : Router → Client
client_at router = record {
  ctx = context_of laptop;
  router = router;
  sink = sink;
  requested_target_id = some "desk";
  requested_target_source = none;
  last_coordinator_id = some "desk";
  coordinator_epoch = some "desk:1";
  layout_editor_id = none;
  layout_edit_requested = false;
  layout_edit_requested_at = 0;
  layout_last_deny_reason = none;
  layout_last_update_revision = pos 4;
  node_list_revision = pos 0;
  latest_monitor_inventory = none;
  monitor_inventory_refresh_states = [];
  local_override_pending_controller_id = none;
  pending_one_shot_requests = ("r0", waiting) ∷ ("r1", checking) ∷ [];
}

abbrev idle : Client
idle = client_at record {
  mode = Router.inactive;
  requested_target_id = none;
  active_target_id = none;
  held_entries = [];
  remote_pressed_entries = [];
  pending_handoff_entries = [];
  handoff_anchor_event = none;
  last_remote_anchor_event = none;
  pending_local_return_anchor_event = none;
  last_pointer_event = none;
}

abbrev busy : Client
busy = client_at record {
  mode = active;
  requested_target_id = some "desk";
  active_target_id = some "desk";
  held_entries = [];
  remote_pressed_entries = [];
  pending_handoff_entries = [];
  handoff_anchor_event = none;
  last_remote_anchor_event = none;
  pending_local_return_anchor_event = none;
  last_pointer_event = none;
}

abbrev grant_desk : Heard
grant_desk = grant (some "desk") (some "laptop") (some "desk:2")

abbrev update_lease : Heard
update_lease = lease_update (some "laptop") (some "tower") (some "desk:1")

abbrev layout_of_five : LayoutUpdate
layout_of_five = record {
  layout = builds record {
    nodes = [];
    auto_switch = record { enabled = true; cooldown_ms = pos 1; return_guard_ms = pos 1 };
  };
  revision = some (pos 5);
  bootstrap = false;
  editor_id = none;
  change_kind = none;
  requester_id = none;
  request_id = none;
  epoch = some "desk:1";
}

granted_desk : (step around idle (hears "desk" grant_desk)).0.router.active_target_id ≡ some "desk"
unfolding step dispatch on_grant accepting accept_coordinator_frame accept_epoch
    compare_epoch_tokens split_at given granted activate activate_target is_target get_node
    find_node swap_state swapped apply_pending_handoff send_anchor reset_local_held_state
granted_desk = refl

step-Grants_example :
    (idle.router.active_target_id ≡ some "desk")
    ⊎ Grants around idle (hears "desk" grant_desk) "desk"
step-Grants_example = step-Grants around idle (hears "desk" grant_desk) "desk" granted_desk

told_tower :
    (step around idle (hears "desk" update_lease)).0.sink.authorized_controller_id ≡ some "tower"
unfolding step dispatch on_lease_update accepting accept_coordinator_frame accept_epoch
    compare_epoch_tokens given set_authorized_controller authorize
told_tower = refl

step-Tells_example :
    (idle.sink.authorized_controller_id ≡ some "tower")
    ⊎ Tells around idle (hears "desk" update_lease) "tower"
step-Tells_example = step-Tells around idle (hears "desk" update_lease) "tower" told_tower

step-IsNotOlder_example :
    IsNotOlder count
      (some "desk:1")
      (step around idle (hears "desk" grant_desk)).0.coordinator_epoch
step-IsNotOlder_example = step-IsNotOlder around idle (hears "desk" grant_desk)

dispatch-IsGuarded_example : dispatch around idle "tower" grant_desk ≡ (idle, [])
dispatch-IsGuarded_example = dispatch-IsGuarded around idle "tower" grant_desk tt refl

abbrev idle_and_tracked : Client
idle_and_tracked = track_one_shot_request idle around "update_check" "desk"

expire_pending_one_shot_requests-track_one_shot_request_example :
    (Dict.get "r2"
        (expire_pending_one_shot_requests 105000 idle_and_tracked).0.pending_one_shot_requests
      ≡ (if ltb 105000 (60000 + one_shot_timeout_for_kind "update_check")
          then some (record { kind = "update_check"; target_id = "desk"; started_at = 60000 })
          else none))
    × (ltb 105000 (60000 + one_shot_timeout_for_kind "update_check") ≡ false
        → (e : Effect) × In e (expire_pending_one_shot_requests 105000 idle_and_tracked).1
          × IsTimeout "r2" e)
    × ((id : String)
        → ("r2" == id) ≡ false
        → Dict.get id
            (expire_pending_one_shot_requests 105000 idle_and_tracked).0.pending_one_shot_requests
          ≡ filtered
              (λ p. ltb 105000 (p.started_at + one_shot_timeout_for_kind p.kind))
              (Dict.get id idle.pending_one_shot_requests))
unfolding Dict.get
expire_pending_one_shot_requests-track_one_shot_request_example =
    expire_pending_one_shot_requests-track_one_shot_request idle around "update_check" "desk" 105000
      (refl, (refl, tt)) refl

reaches_desk : reaches_coordinator busy around ≡ true
unfolding reaches_coordinator Registry.get Dict.get
reaches_desk = refl

busy-IsAt : IsAt busy "desk"
unfolding given
busy-IsAt = record { mode = refl; target = refl }

-- Half a second later the window has asked for the layout editor.
abbrev later : Client
later = record busy { layout_edit_requested = true; layout_edit_requested_at = 60000 }

reaches_desk_later : reaches_coordinator later around ≡ true
unfolding reaches_coordinator Registry.get Dict.get
reaches_desk_later = refl

later-IsAt : IsAt later "desk"
unfolding given
later-IsAt = record { mode = refl; target = refl }

control_tick-beats_example :
    In (beats busy "desk") (control_tick around busy 0 none).0.1
    ⊎ In
        (beats later "desk")
        (control_tick around later
          (control_tick around busy 0 none).1
          (control_tick around busy 0 none).2).0.1
control_tick-beats_example =
    control_tick-beats around around busy later 0 none "desk" busy-IsAt later-IsAt reaches_desk
      reaches_desk_later

abbrev alone : Around
alone = record around { coordinator = some laptop }

control_tick-HasForgotten_example :
    HasForgotten (some "laptop") (control_tick alone busy 0 none).0.0
control_tick-HasForgotten_example = control_tick-HasForgotten alone busy 0 none refl

stays_desk :
    (on_layout_update around idle "desk" layout_of_five none).0.coordinator_epoch ≡ some "desk:1"
unfolding on_layout_update take_update take_layout apply_update answered accepting
    accept_coordinator_frame accept_epoch compare_epoch_tokens given strip text_of
stays_desk = refl

on_layout_update-revision_example :
    pos 4 ≤ℤ (on_layout_update around idle "desk" layout_of_five none).0.layout_last_update_revision
on_layout_update-revision_example =
    on_layout_update-revision around idle "desk" layout_of_five none refl stays_desk

-- The laptop obeys the desk, as the coordinator has it.
abbrev obedient : Client
obedient = record idle { coordinator_epoch = some "desk" }

follow-run_example :
    (follow around "desk" obedient (run leased history).1).sink.authorized_controller_id
    ≡ holder (run leased history).0 "laptop"
unfolding holder Dict.get
follow-run_example =
    follow-run around "desk" obedient leased history refl refl refl refl (refl, tt)
      history-StaysReached
