-- ===== src/Coordination/Client/Tick.antt =====
-- control/coordination/client.py: one round of the control loop, and the change of the coordinator.
pub mod Calm
pub mod Heartbeats
pub mod Changed
use multi_controller.Prelude.{
  ℕ, ◌+◌, Bool, true, false, not, ◌&&◌, ◌||◌, Option, none, some, List, [], ◌∷◌, ◌++◌, String, ◌==◌,
  if◌then◌else◌, leb,
}
use multi_controller.Prelude.Int.{pos, negsuc}
use multi_controller.Prelude.Text.{given}
use multi_controller.Display.Inventory.{MonitorInventorySnapshot}
use multi_controller.Routing.Sink.{set_authorized_controller}
use multi_controller.Routing.Router.{Mode, inactive, pending, active, same_target}
use multi_controller.Coordination.Protocol.{Request}
use multi_controller.Coordination.Client.{
  Client, Around, Effect, Outcome, ◌then_do◌, client_id, send, reaches_coordinator, id_of,
  with_sink, to_coordinator,
}
use multi_controller.Coordination.Client.Requests.{expire_pending_one_shot_requests}
use multi_controller.Coordination.Client.Targets.{claim, heartbeat}
use multi_controller.Coordination.Client.Layouts.{is_layout_editor, request_layout_edit}

-- In milliseconds.
abbrev pub heartbeat_interval_ms : ℕ
heartbeat_interval_ms = 1000

abbrev pub control_poll_interval_ms : ℕ
control_poll_interval_ms = 500

abbrev pub layout_edit_retry_interval_ms : ℕ
layout_edit_retry_interval_ms = 1000

-- What the first lines of `_on_coordinator_changed` set.
abbrev pub forgotten : Client → Option String → Client
forgotten c coordinator = record c {
  last_coordinator_id = coordinator;
  coordinator_epoch = none;
  layout_editor_id = none;
  layout_last_update_revision = negsuc 0;
  node_list_revision = pos 0;
  layout_edit_requested_at = 0;
  local_override_pending_controller_id = none;
}

module _ (env : Around) where
  unfoldable pub ask_layout_edit : Client → Outcome
  unfolding request_layout_edit
  ask_layout_edit c = if c.layout_edit_requested then request_layout_edit env c else (c, [])

  send_inventory : Client → Option MonitorInventorySnapshot → List Effect
  send_inventory c none = []
  send_inventory c (some snapshot) = send c env (Request.monitor_inventory_publish snapshot)

  -- The claim of a pending target and the heartbeat of an active one.
  renew : Client → Mode → Option String → List Effect
  unfolding claim heartbeat
  renew c pending (some k) = claim env c k
  renew c active (some k) = heartbeat env c k
  renew c _ _ = []

  unfoldable pub on_coordinator_changed : Client → Option String → Outcome
  unfolding ask_layout_edit send_inventory renew
  on_coordinator_changed c coordinator =
      with_sink (forgotten c coordinator) (set_authorized_controller c.sink env.now none)
      then_do ask_layout_edit
      then_do (λ c'. (c', send_inventory c' c'.latest_monitor_inventory))
      then_do (λ c'. (c', renew c' c'.router.mode (given c'.router.requested_target_id)))

  unfoldable pub watch_coordinator : Client → Outcome
  unfolding on_coordinator_changed
  watch_coordinator c =
      if same_target (id_of env.coordinator) c.last_coordinator_id
      then (c, [])
      else on_coordinator_changed c (id_of env.coordinator)

  unfoldable pub retry_layout_edit : Client → Outcome
  retry_layout_edit c =
      if c.layout_edit_requested
        && not (is_layout_editor c)
        && leb (c.layout_edit_requested_at + layout_edit_retry_interval_ms) env.now
        && reaches_coordinator c env
      then (
        record c { layout_edit_requested_at = env.now },
        to_coordinator (Request.layout_edit_begin (client_id c)) ∷ [],
      )
      else (c, [])

  -- What the end of the round sends, the time since the last heartbeat and the target that it saw.
  beat : Client → ℕ → Mode → Option String → List Effect × ℕ × Option String
  unfolding claim heartbeat
  beat c waited mode none = ([], 0, none)
  beat c waited pending (some k) = (claim env c k, 0, some k)
  beat c waited active (some k) =
      if leb heartbeat_interval_ms (waited + control_poll_interval_ms)
      then (heartbeat env c k, 0, some k)
      else ([], waited + control_poll_interval_ms, some k)
  beat c waited inactive (some k) = ([], 0, some k)

  abbrev since : Client → ℕ → Option String → ℕ
  since c waited last = if same_target c.router.requested_target_id last then waited else 0

  unfoldable pub before_beat : Client → Outcome
  unfolding expire_pending_one_shot_requests watch_coordinator retry_layout_edit
  before_beat c =
      expire_pending_one_shot_requests env.now c then_do watch_coordinator then_do retry_layout_edit

  unfoldable pub control_tick :
      Client → (deadline : ℕ) → (last : Option String) → Outcome × ℕ × Option String
  unfolding before_beat beat
  control_tick c deadline last =
      let (c', did) = before_beat c in
      let (more, waited, seen) =
        beat c' (since c' deadline last) c'.router.mode (given c'.router.requested_target_id) in
      ((c', did ++ more), waited, seen)
