-- ===== src/Tests/Router.antt =====
-- The desk asks for the laptop, presses a key there and takes its keyboard back.
use multi_controller.Prelude.{◌≡◌, refl, true, some, [], ◌∷◌}
use multi_controller.Prelude.Int.{ℤ, pos}
use multi_controller.Prelude.Text.{after_prefix, given}
use multi_controller.Prelude.Dict
use multi_controller.Context.{find_node, get_node}
use multi_controller.Registry
use multi_controller.Routing.Sink.{Sink, is_authorized}
use multi_controller.Routing.Sink.Released.{a_key, after_calls}
use multi_controller.Routing.Router.{
  Position, Captured, History, sets_pending, activates, clears, routes, initial, run, step,
  is_target, set_pending_target, swap_state, swapped, activate_target, apply_pending_handoff,
  send_anchor, reset_local_held_state, route, forward, deliver, send_event, build_remote_event,
}
use multi_controller.Routing.Router.Coherent.{IsCoherent, step-IsCoherent}
use multi_controller.Routing.Router.Delivered.{presses, IsHeardThroughout}
use multi_controller.Routing.Link.{receive, run-receive}
use multi_controller.Tests.Samples.{desk, desk_registry, context_of}

abbrev place : Position → ℤ × ℤ
place p = (pos 3, pos 4)

abbrev operations : History
operations =
    (context_of desk, desk_registry, sets_pending (some "laptop"))
    ∷ (context_of desk, desk_registry, activates "laptop")
    ∷ (context_of desk, desk_registry, routes (Captured.key_down "a"))
    ∷ (context_of desk, desk_registry, clears)
    ∷ []

abbrev pub sink : Sink
sink = record {
  pressed = [];
  authorized_controller_id = some "desk";
  require_authorization = true;
  last_remote_input_at = 0;
}

initial-IsCoherent : IsCoherent initial
unfolding initial
initial-IsCoherent = tt

operations-IsHeardThroughout : IsHeardThroughout initial operations
unfolding initial step is_target get_node find_node set_pending_target swap_state swapped
    activate_target apply_pending_handoff send_anchor reset_local_held_state route forward
    send_event build_remote_event deliver after_prefix given Registry.get Dict.get
operations-IsHeardThroughout = (refl, (refl, (refl, (refl, tt))))

step-IsCoherent_example :
    IsCoherent (step initial (context_of desk) desk_registry (activates "laptop")).0
step-IsCoherent_example =
    step-IsCoherent initial (context_of desk) desk_registry (activates "laptop") initial-IsCoherent

run-receive_example :
    after_calls
      (a_key "a")
      (presses initial "laptop" (a_key "a"))
      (receive place 20 "desk" "laptop" sink (run initial operations).1).1
    ≡ presses (run initial operations).0 "laptop" (a_key "a")
unfolding after_prefix is_authorized
run-receive_example =
    run-receive place 20 "desk" "laptop" (a_key "a") initial operations sink refl initial-IsCoherent
      operations-IsHeardThroughout refl
