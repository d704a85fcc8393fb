-- ===== src/Coordination/Client/Tick/Calm.antt =====
-- What a round of the control loop leaves alone.
use multi_controller.Prelude.{
  refl, sym, inr, ℕ, ap, ◌∙◌, subst, not, ◌&&◌, Option, none, [], String, if_both, leb, ◌+◌,
}
use multi_controller.Coordination.Client.{Client, Around, ◌then_do◌, id_of, reaches_coordinator}
use multi_controller.Coordination.Client.Calm.{
  IsStill, still, IsCalm, IsStill-IsCalm, IsCalm-then_do, IsNotOlder, IsNoOther,
  set_authorized_controller-sets, IsNotOlder-none,
}
use multi_controller.Coordination.Client.Layouts.{is_layout_editor}
use multi_controller.Coordination.Client.Layouts.Calm.{request_layout_edit-IsStill}
use multi_controller.Coordination.Client.Requests.{expire_pending_one_shot_requests}
use multi_controller.Routing.Router.{same_target}
use multi_controller.Routing.Sink.{set_authorized_controller}
use multi_controller.Coordination.Client.Tick.{
  layout_edit_retry_interval_ms, forgotten, ask_layout_edit, on_coordinator_changed,
  watch_coordinator, retry_layout_edit, before_beat, control_tick,
}

pub expire-IsStill : (c : Client) (now : ℕ) → IsStill c (expire_pending_one_shot_requests now c)
unfolding expire_pending_one_shot_requests
expire-IsStill c now = record { router = refl; sink = refl; epoch = refl }

module _ (env : Around) where
  ask_layout_edit-IsStill : (c : Client) → IsStill c (ask_layout_edit env c)
  unfolding ask_layout_edit
  ask_layout_edit-IsStill c =
      if_both (IsStill c) c.layout_edit_requested _ _ (request_layout_edit-IsStill env c)
        (still c [])

  -- The new coordinator has to say again who controls the own node.
  on_coordinator_changed-IsCalm :
      (c : Client) (coordinator : Option String)
      → IsCalm env c (on_coordinator_changed env c coordinator)
  unfolding on_coordinator_changed
  on_coordinator_changed-IsCalm c coordinator =
      let told = record (forgotten c coordinator) {
        sink = (set_authorized_controller c.sink env.now none).0;
      } in
      let h = ask_layout_edit-IsStill told in
      record {
        router = h.router;
        controller = inr (
            ap (λ s. s.authorized_controller_id) h.sink
            ∙ set_authorized_controller-sets c.sink env.now none);
        epoch =
            subst (IsNotOlder env.int_of c.coordinator_epoch) (sym h.epoch)
              (IsNotOlder-none env.int_of c.coordinator_epoch);
      }

  pub watch_coordinator-IsCalm : (c : Client) → IsCalm env c (watch_coordinator env c)
  unfolding watch_coordinator
  watch_coordinator-IsCalm c =
      if_both (IsCalm env c) (same_target (id_of env.coordinator) c.last_coordinator_id) _ _
        (IsStill-IsCalm env c _ (still c []))
        (on_coordinator_changed-IsCalm c (id_of env.coordinator))

  pub retry_layout_edit-IsStill : (c : Client) → IsStill c (retry_layout_edit env c)
  unfolding retry_layout_edit
  retry_layout_edit-IsStill c =
      if_both (IsStill c)
        (c.layout_edit_requested
          && not (is_layout_editor c)
          && leb (c.layout_edit_requested_at + layout_edit_retry_interval_ms) env.now
          && reaches_coordinator c env)
        _ _ record { router = refl; sink = refl; epoch = refl } (still c [])

  pub before_beat-IsCalm : (c : Client) → IsCalm env c (before_beat env c)
  unfolding before_beat
  before_beat-IsCalm c =
      let expired = expire_pending_one_shot_requests env.now c in
      let h = expire-IsStill c env.now in
      let k = watch_coordinator-IsCalm expired.0 in
      IsCalm-then_do env c (expired then_do watch_coordinator env) (retry_layout_edit env)
        record {
          router = k.router ∙ h.router;
          controller =
              subst
                (λ s.
                  IsNoOther s.authorized_controller_id
                    (watch_coordinator env expired.0).0.sink.authorized_controller_id)
                h.sink k.controller;
          epoch =
              subst
                (λ x. IsNotOlder env.int_of x (watch_coordinator env expired.0).0.coordinator_epoch)
                h.epoch k.epoch;
        }
        (retry_layout_edit-IsStill (watch_coordinator env expired.0).0)

  pub control_tick-IsCalm :
      (c : Client) (deadline : ℕ) (last : Option String)
      → IsCalm env c (control_tick env c deadline last).0
  unfolding control_tick
  control_tick-IsCalm c deadline last =
      let h = before_beat-IsCalm c in
      record { router = h.router; controller = h.controller; epoch = h.epoch }
