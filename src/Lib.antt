-- ===== src/Lib.antt =====
-- Multi Screen Pass: several computers of one network share a keyboard and a mouse. Every node runs the
-- same program (main.py); the node that is elected coordinator owns the leases, which say who controls
-- which target, and the layout of the group.
--
-- The parts, and the files that model them:
-- - control/coordination/election.py: the choice of the coordinator. Coordination/Election, with Order
--   (the order of the sort keys), Online (who is online) and Agreement; CoordinatorElection with its hold-down
--   and health grace is Coordination/HoldDown.
-- - control/coordination/service.py, CoordinatorService: Coordination/Service has the state and how frames
--   are sent; its children have the handlers: Leases (_on_claim, _on_release, _on_local_input_override,
--   _on_heartbeat), LayoutEdit (_on_layout_edit_begin, _on_layout_edit_end, _on_layout_update,
--   _on_auto_switch_update_request), Updates and Downloads (the jobs that several nodes share), Nodes
--   (monitor inventories, remote updates, the node list), Events (_on_registry_event, _expire_once) and Step,
--   one step and a history of steps of the service.
-- - control/coordination/client.py, CoordinatorClient: Coordination/Client has the state, how the client sends and
--   which frames it accepts; its children have the handlers: Targets (the target that the node controls, and who
--   controls it), Layouts, Nodes, Updates, Requests (what waits for one answer), Tick (_control_tick and
--   _on_coordinator_changed) and Step, one step of the client. Calm and Led say what a handler leaves alone.
-- - Coordination/Link puts the service of the coordinator and the client of a target together.
-- - app/update/app_version.py: Update/Version, the parts of a version and the comparison of versions, with Order and
--   Labels.
-- - control/coordination/protocol.py: the frames that the service and the client send. Coordination/Protocol.
-- - transport/peer/peer_registry.py: Registry. The listeners of the registry hear `bound` and `unbound`,
--   which are events of the service.
-- - transport/peer/handshake.py, and make_hello of transport/peer/frames.py: Transport/Handshake, the line that both
--   nodes send first, how it is read from the socket and what is read from it; Ends and Read prove what holds of it.
-- - control/routing/sink.py: Routing/Sink, the injection of input at a target, which the lease authorizes. Released,
--   Authorized, Controller and Held prove what is down at the target.
-- - control/routing/router.py: Routing/Router, the target of the captured input and the frames that go to it.
--   Coherent, Released, Delivered and Targets have what holds of it. Routing/Link puts the router of a controller
--   and the sink of its target together.
-- - control/routing/routing_table.py and edge_routing.py: Routing/Edges, the displays behind an edge and the route of a
--   pointer that presses it; Behind and Crossing prove where a route can lead.
-- - control/routing/edge_detection.py: Routing/Press, which edge of a display a pointer presses.
-- - control/state/context.py: Context, the configured nodes and the own node.
-- - model/display/layouts.py: Display/Layout. model/display/monitor_inventory.py: Display/Inventory.
--
-- How the model stands to the code. A handler is a function from the state of the service, the connections
-- and the frame to the new state and the list of frames that were delivered, with the node that each one
-- reached; the code holds a lock for the change of the state, and a handler is one step here, also
-- _on_node_list_update_request, which takes the lock once to compare the revision and once to raise it. The state is the
-- record Service, with the fields that the class has; a dictionary is an association list in the order of
-- insertion. A missing field of a frame is none. A connection has a flag `closed` and a flag `accepts`, which
-- is what its send_frame returns; whether the connection is being closed at that moment is not known to the handler, so
-- every value of it is allowed. Frames to the own node go through the dispatcher and always arrive. Times are
-- milliseconds of the monotonic clock, an argument of the step; nothing is assumed of how they run. What
-- build_layout_config and the config reloader answer, and the identifier of a new job, are arguments too.
-- The loop over the candidates of an update job is a recursion on the list of candidates. Only
-- the loop of recv_hello runs on fuel, 8194 rounds, two more than the bytes that it takes: a round that goes on has
-- read at least one byte. What json.loads makes of the line is an argument. The JSON result of an update check
-- is a text, and a priority is an integer of any size.
--
-- A step of the client gives its new state, with the router and the sink of the session, and what it does
-- outside, in order: frames, input for the operating system, and calls of listeners. What int() makes of a text,
-- which characters are digits, the coordinator that the election names, the connections and a fresh id are arguments of a step.
--
-- Not modelled: a frame that a client sends to its own node is dispatched before _send returns; here the service
-- takes it in a later step. A send that finds its connection closed by the thread that receives on it returns false, and
-- the unbind of that thread is a later step. A send that fails by itself, with an error of the socket or after its
-- time, is not modelled: it closes the connection and so runs the registry's listeners within the handler that sends,
-- where a claim loses its lease again before the grant goes out, and an update job dispatches its next candidate twice.
-- Sockets and threads (transport/peer besides the registry and the HELLO), the queue and
-- the event processors of the router and the rest of the pointer's routing (control/routing), the
-- user interface, configuration files, logs, downloads, and the Windows layer (app, msp_platform).
--
-- Prelude holds what the parts share: tests on numbers, lists, dictionaries, texts, integers. Tests runs the
-- definitions on a group of three nodes.
pub mod Prelude
pub mod Display
pub mod Context
pub mod Registry
pub mod Coordination
pub mod Routing
pub mod Update
pub mod Transport
pub mod Tests
