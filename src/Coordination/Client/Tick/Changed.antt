-- ===== src/Coordination/Client/Tick/Changed.antt =====
-- The first round after the coordinator has changed.
use multi_controller.Prelude.{
  ℕ, ◌+◌, ◌≡◌, refl, false, not, ◌&&◌, Option, none, String, leb, if_both,
}
use multi_controller.Prelude.Int.{pos, negsuc}
use multi_controller.Routing.Sink.{set_authorized_controller}
use multi_controller.Routing.Router.{same_target}
use multi_controller.Coordination.Client.{Client, Around, Outcome, reaches_coordinator, id_of}
use multi_controller.Coordination.Client.Calm.{set_authorized_controller-sets}
use multi_controller.Coordination.Client.Layouts.{request_layout_edit, is_layout_editor}
use multi_controller.Coordination.Client.Requests.{expire_pending_one_shot_requests}
use multi_controller.Coordination.Client.Tick.{
  layout_edit_retry_interval_ms, forgotten, ask_layout_edit, on_coordinator_changed,
  watch_coordinator, retry_layout_edit, before_beat, control_tick,
}

-- Nothing is left of the old coordinator, and nobody may send input until the new one says so.
abbrev pub HasForgotten : Option String → Client → Type 0
HasForgotten coordinator c =
    (c.last_coordinator_id ≡ coordinator)
    × (c.coordinator_epoch ≡ none)
    × (c.layout_editor_id ≡ none)
    × (c.layout_last_update_revision ≡ negsuc 0)
    × (c.node_list_revision ≡ pos 0)
    × (c.local_override_pending_controller_id ≡ none)
    × (c.sink.authorized_controller_id ≡ none)

module _ (env : Around) (coordinator : Option String) where
  ask_layout_edit-HasForgotten :
      (c : Client) → HasForgotten coordinator c → HasForgotten coordinator (ask_layout_edit env c).0
  unfolding ask_layout_edit request_layout_edit
  ask_layout_edit-HasForgotten c h =
      if_both {A = Outcome} (λ o. HasForgotten coordinator o.0) c.layout_edit_requested _ _
        (if_both {A = Outcome} (λ o. HasForgotten coordinator o.0) (is_layout_editor c) _ _ h h) h

  retry_layout_edit-HasForgotten :
      (c : Client)
      → HasForgotten coordinator c
      → HasForgotten coordinator (retry_layout_edit env c).0
  unfolding retry_layout_edit
  retry_layout_edit-HasForgotten c h =
      if_both {A = Outcome} (λ o. HasForgotten coordinator o.0)
        (c.layout_edit_requested
          && not (is_layout_editor c)
          && leb (c.layout_edit_requested_at + layout_edit_retry_interval_ms) env.now
          && reaches_coordinator c env)
        _ _ h h

  on_coordinator_changed-HasForgotten :
      (c : Client) → HasForgotten coordinator (on_coordinator_changed env c coordinator).0
  unfolding on_coordinator_changed
  on_coordinator_changed-HasForgotten c =
      ask_layout_edit-HasForgotten
        (record (forgotten c coordinator) {
          sink = (set_authorized_controller c.sink env.now none).0;
        })
        (refl, refl, refl, refl, refl, refl, set_authorized_controller-sets c.sink env.now none)

-- In the first round of the control loop after the coordinator has changed, or was lost, the client forgets all
-- that the old one had told: the epoch, the editor of the layout and both revisions, and its sink obeys nobody.
pub control_tick-HasForgotten :
    (env : Around) (c : Client) (deadline : ℕ) (last : Option String)
    → same_target (id_of env.coordinator) c.last_coordinator_id ≡ false
    → HasForgotten (id_of env.coordinator) (control_tick env c deadline last).0.0
unfolding control_tick before_beat watch_coordinator expire_pending_one_shot_requests
control_tick-HasForgotten env c deadline last h = rw h (
    retry_layout_edit-HasForgotten env (id_of env.coordinator) _ (
      on_coordinator_changed-HasForgotten env (id_of env.coordinator)
        (expire_pending_one_shot_requests env.now c).0))
