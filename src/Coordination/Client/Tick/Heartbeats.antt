-- ===== src/Coordination/Client/Tick/Heartbeats.antt =====
-- The heartbeats that keep the lease of the active target.
use multi_controller.Prelude.{
  ℕ, ◌+◌, ◌≡◌, refl, sym, ◌∙◌, ◌⊎◌, subst, inl, inr, true, false, not, ◌&&◌, Option, none, some, [],
  ◌++◌, String, eq_refl, arith, leb, In, In-right, Bool-cases, if_both,
}
use multi_controller.Prelude.Text.{given}
use multi_controller.Routing.Sink.{set_authorized_controller}
use multi_controller.Routing.Router.{active, same_target}
use multi_controller.Coordination.Protocol.{Request}
use multi_controller.Coordination.Client.{
  Client, Around, Effect, Outcome, client_id, send, reaches_coordinator, id_of, to_coordinator,
}
use multi_controller.Coordination.Client.Layouts.{request_layout_edit, is_layout_editor}
use multi_controller.Coordination.Client.Requests.{expire_pending_one_shot_requests}
use multi_controller.Coordination.Client.Targets.{heartbeat}
use multi_controller.Coordination.Client.Tick.Calm.{before_beat-IsCalm}
use multi_controller.Coordination.Client.Tick.{
  heartbeat_interval_ms, control_poll_interval_ms, layout_edit_retry_interval_ms, ask_layout_edit,
  forgotten, on_coordinator_changed, watch_coordinator, retry_layout_edit, before_beat, beat, since,
  control_tick,
}

module _ (env : Around) where
  ask_layout_edit-ctx : (c : Client) → (ask_layout_edit env c).0.ctx ≡ c.ctx
  unfolding ask_layout_edit request_layout_edit
  ask_layout_edit-ctx c =
      if_both {A = Outcome} (λ o. o.0.ctx ≡ c.ctx) c.layout_edit_requested _ _
        (if_both {A = Outcome} (λ o. o.0.ctx ≡ c.ctx) (is_layout_editor c) _ _ refl refl) refl

  on_coordinator_changed-ctx :
      (c : Client) (coordinator : Option String)
      → (on_coordinator_changed env c coordinator).0.ctx ≡ c.ctx
  unfolding on_coordinator_changed
  on_coordinator_changed-ctx c coordinator = ask_layout_edit-ctx (record (forgotten c coordinator) {
    sink = (set_authorized_controller c.sink env.now none).0;
  })

  watch_coordinator-ctx : (c : Client) → (watch_coordinator env c).0.ctx ≡ c.ctx
  unfolding watch_coordinator
  watch_coordinator-ctx c =
      if_both {A = Outcome} (λ o. o.0.ctx ≡ c.ctx)
        (same_target (id_of env.coordinator) c.last_coordinator_id) _ _ refl
        (on_coordinator_changed-ctx c (id_of env.coordinator))

  retry_layout_edit-ctx : (c : Client) → (retry_layout_edit env c).0.ctx ≡ c.ctx
  unfolding retry_layout_edit
  retry_layout_edit-ctx c =
      if_both {A = Outcome} (λ o. o.0.ctx ≡ c.ctx)
        (c.layout_edit_requested
          && not (is_layout_editor c)
          && leb (c.layout_edit_requested_at + layout_edit_retry_interval_ms) env.now
          && reaches_coordinator c env)
        _ _ refl refl

  pub before_beat-ctx : (c : Client) → (before_beat env c).0.ctx ≡ c.ctx
  unfolding before_beat expire_pending_one_shot_requests
  before_beat-ctx c =
      let expired = (expire_pending_one_shot_requests env.now c).0 in
      retry_layout_edit-ctx (watch_coordinator env expired).0 ∙ watch_coordinator-ctx expired

abbrev pub beats : Client → String → Effect
beats c k = to_coordinator (Request.heartbeat k (client_id c))

heartbeat-sent :
    (env : Around) (c c' : Client) (k : String)
    → c'.ctx ≡ c.ctx
    → reaches_coordinator c env ≡ true
    → In (beats c k) (heartbeat env c' k)
unfolding heartbeat send reaches_coordinator
heartbeat-sent env c c' k p h =
    subst (λ x. In (beats c k) (heartbeat env (record c { ctx = x }) k)) (sym p) (rw h (inl refl))

given→some : (o : Option String) (k : String) → given o ≡ some k → o ≡ some k
unfolding given
given→some none k h = ground arith
given→some (some j) k h = ground arith

same_target_refl : (o : Option String) → same_target o o ≡ true
same_target_refl none = refl
same_target_refl (some k) = eq_refl k

-- The end of one round.
beat_now :
    (env : Around) (c : Client) (waited : ℕ) (k : String)
    → leb heartbeat_interval_ms (waited + control_poll_interval_ms) ≡ true
    → (beat env c waited active (some k)).0 ≡ heartbeat env c k
unfolding beat
beat_now env c waited k h = rw h refl

beat_later :
    (env : Around) (c : Client) (waited : ℕ) (k : String)
    → leb heartbeat_interval_ms (waited + control_poll_interval_ms) ≡ false
    → beat env c waited active (some k) ≡ ([], waited + control_poll_interval_ms, some k)
unfolding beat
beat_later env c waited k h = rw h refl

-- A client that is at its target.
pub record IsAt (c : Client) (k : String) : Type 0 where
  pub mode : c.router.mode ≡ active
  pub target : given c.router.requested_target_id ≡ some k

IsAt-before_beat :
    (env : Around) (c : Client) (k : String) → IsAt c k → IsAt (before_beat env c).0 k
IsAt-before_beat env c k h =
    let same = sym (before_beat-IsCalm env c).router in
    record {
      mode = subst (λ r. r.mode ≡ active) same h.mode;
      target = subst (λ r. given r.requested_target_id ≡ some k) same h.target;
    }

tick_at :
    (env : Around) (c : Client) (deadline : ℕ) (last : Option String) (k : String)
    → IsAt c k
    → (control_tick env c deadline last ≡ (
      (
        (before_beat env c).0,
        (before_beat env c).1
            ++ (beat env
                (before_beat env c).0
                (since env (before_beat env c).0 deadline last)
                active
                (some k)).0,
      ),
      (beat env
          (before_beat env c).0
          (since env (before_beat env c).0 deadline last)
          active
          (some k)).1,
      (beat env
          (before_beat env c).0
          (since env (before_beat env c).0 deadline last)
          active
          (some k)).2,
    ))
unfolding control_tick
tick_at env c deadline last k h =
    let at = IsAt-before_beat env c k h in rw (at.mode, at.target) refl

since_same :
    (env : Around) (c : Client) (waited : ℕ) (k : String)
    → IsAt c k
    → since env c waited (some k) ≡ waited
since_same env c waited k h =
    rw (given→some c.router.requested_target_id k h.target) (rw (same_target_refl (some k)) refl)

-- What is waited when a round sends no heartbeat is enough for the next one.
second_beat :
    (env : Around) (c c' : Client) (waited : ℕ) (k : String)
    → IsAt c' k
    → c'.ctx ≡ c.ctx
    → reaches_coordinator c env ≡ true
    → In
        (beats c k)
        (beat env c' (since env c' (waited + control_poll_interval_ms) (some k)) active (some k)).0
second_beat env c c' waited k at p r =
    rw (since_same env c' (waited + control_poll_interval_ms) k at) (
      subst (In (beats c k))
        (sym (beat_now env c' (waited + control_poll_interval_ms) k (ground arith)))
        (heartbeat-sent env c c' k p r))

In-second :
    (env : Around) (c c' : Client) (waited : ℕ) (k : String)
    → IsAt c' k
    → c'.ctx ≡ c.ctx
    → reaches_coordinator c env ≡ true
    → In (beats c k) (control_tick env c' (waited + control_poll_interval_ms) (some k)).0.1
In-second env c c' waited k at p r =
    let then_at = IsAt-before_beat env c' k at in
    subst (λ t. In (beats c k) t.0.1)
      (sym (tick_at env c' (waited + control_poll_interval_ms) (some k) k at))
      (In-right (beats c k) (before_beat env c').1 _
        (second_beat env c (before_beat env c').0 waited k then_at (before_beat-ctx env c' ∙ p) r))

-- Two rounds of the control loop, one after the other, whatever the client does between them. If in each of them the
-- client is at the target k and can reach the coordinator, one of the two sends the heartbeat for k. What the loop
-- keeps between the rounds is what the first one leaves; what it had waited for before does not matter, nor does a
-- change of the coordinator.
pub control_tick-beats :
    (env env' : Around) (c c' : Client) (deadline : ℕ) (last : Option String) (k : String)
    → IsAt c k
    → IsAt c' k
    → reaches_coordinator c env ≡ true
    → reaches_coordinator c' env' ≡ true
    → let first = control_tick env c deadline last in
      In (beats c k) first.0.1 ⊎ In (beats c' k) (control_tick env' c' first.1 first.2).0.1
control_tick-beats env env' c c' deadline last k at at' r r' =
    let next = (before_beat env c).0 in
    let waited = since env next deadline last in
    subst (λ t. In (beats c k) t.0.1 ⊎ In (beats c' k) (control_tick env' c' t.1 t.2).0.1)
      (sym (tick_at env c deadline last k at))
      (elim (Bool-cases (leb heartbeat_interval_ms (waited + control_poll_interval_ms))) [
        | inl n ↦ inl (
            In-right (beats c k) (before_beat env c).1 _ (
              subst (In (beats c k)) (sym (beat_now env next waited k n))
                (heartbeat-sent env c next k (before_beat-ctx env c) r)))
        | inr n ↦
            rw (beat_later env next waited k n) (inr (In-second env' c' c' waited k at' refl r'))
      ])
