-- ===== src/Coordination/Client/Targets.antt =====
-- control/coordination/client.py: the target that the own node controls and who controls the own node. The
-- Boolean that a request returns to the user interface is left out.
pub mod Led
pub mod Rules
use multi_controller.Prelude.{
  Bool, true, false, not, ◌&&◌, ◌||◌, Option, none, some, List, [], ◌∷◌, ◌++◌, String, ◌==◌,
  if◌then◌else◌,
}
use multi_controller.Prelude.Text.{given}
use multi_controller.Routing.Sink.{set_authorized_controller}
use multi_controller.Routing.Router.{
  pending, same_mode, same_target, set_pending_target, activate_target,
}
use multi_controller.Routing.Router
use multi_controller.Coordination.Protocol.{Request}
use multi_controller.Coordination.Client.{
  Client, Around, Effect, Outcome, ◌then_do◌, client_id, send, reaches_coordinator, names,
  with_router, with_sink, accepting, to_coordinator, notify_target_result,
}

module _ (env : Around) where
  unfoldable pub claim : Client → String → List Effect
  claim c target = send c env (Request.claim target (client_id c))

  unfoldable pub release : Client → String → List Effect
  release c target = send c env (Request.release target (client_id c))

  unfoldable pub heartbeat : Client → String → List Effect
  heartbeat c target = send c env (Request.heartbeat target (client_id c))

  -- The claim, or the notice that the coordinator was not reached.
  claim_or_notify : Client → String → List Effect
  unfolding claim notify_target_result
  claim_or_notify c target =
      if reaches_coordinator c env
      then claim c target
      else notify_target_result "failed" target (some "coordinator_unreachable")
          c.requested_target_source

  -- The target that is requested already.
  claim_again : Client → String → Outcome
  unfolding claim_or_notify
  claim_again c target =
      if same_mode c.router.mode pending then (c, claim_or_notify c target) else (c, [])

  release_previous : Client → Option String → String → List Effect
  unfolding release
  release_previous c none target = []
  release_previous c (some k) target = if k == target then [] else release c k

  clear_if_requested : Client → String → Outcome
  clear_if_requested c target =
      if names c.router.requested_target_id target
      then with_router c (Router.clear_target c.router env.registry)
      else (c, [])

  -- A claim that is not sent takes the request back.
  claim_pending : Client → String → Outcome
  unfolding claim notify_target_result clear_if_requested
  claim_pending c target =
      if reaches_coordinator c env
      then (c, claim c target)
      else (clear_if_requested
            (record c { requested_target_id = none; requested_target_source = none }) target
          then_do λ c'. (
            c',
            notify_target_result "failed" target (some "coordinator_unreachable")
                c.requested_target_source,
          ))

  ask_target : Client → Option String → String → Option String → Outcome
  unfolding release_previous claim_pending
  ask_target c previous target source =
      let next = record c { requested_target_id = some target; requested_target_source = source } in
      (next, release_previous next previous target)
      then_do (λ c'.
          with_router c' (set_pending_target c'.router c'.ctx env.registry (some target)))
      then_do (λ c'. claim_pending c' target)

  abbrev with_source : Client → Option String → Client
  with_source c none = c
  with_source c (some source) = record c { requested_target_source = some source }

  unfoldable pub request_target : Client → String → Option String → Outcome
  unfolding claim_again ask_target
  request_target c target source =
      if names c.requested_target_id target
      then claim_again (with_source c source) target
      else ask_target c (given c.requested_target_id) target source

  release_given : Client → Option String → List Effect
  unfolding release
  release_given c none = []
  release_given c (some k) = release c k

  unfoldable pub clear_target : Client → Outcome
  unfolding release_given
  clear_target c =
      let next = record c { requested_target_id = none; requested_target_source = none } in
      (next, release_given next (given c.requested_target_id)) then_do λ c'.
      with_router c' (Router.clear_target c'.router env.registry)

  -- The request ends, and its source is told why.
  drop_target : Client → String → Option String → Outcome
  unfolding notify_target_result
  drop_target c target reason =
      with_router (record c { requested_target_id = none; requested_target_source = none })
        (Router.clear_target c.router env.registry)
      then_do λ c'. (c', notify_target_result "failed" target reason c.requested_target_source)

  unfoldable pub on_peer_unbound : Client → String → Outcome
  unfolding drop_target
  on_peer_unbound c node =
      if names (given c.router.requested_target_id) node
      then drop_target c node (some "target_offline")
      else (c, [])

  unfoldable pub activate : Client → String → Outcome
  unfolding notify_target_result
  activate c target =
      with_router (record c { requested_target_id = some target })
        (activate_target c.router c.ctx env.registry target)
      then_do λ c'. (c', notify_target_result "active" target none c.requested_target_source)

  -- A grant for another target than the one that is requested now is given back.
  unfoldable pub granted : Client → Option String → String → Outcome
  unfolding activate release
  granted c none target = activate c target
  granted c (some k) target = if target == k then activate c target else (c, release c target)

  unfoldable pub on_grant : Client → String → (target controller epoch : Option String) → Outcome
  unfolding granted
  on_grant c peer target controller epoch = elim (given target) [
    | none ↦ (c, [])
    | some k ↦
        if names controller (client_id c)
        then accepting c env peer epoch (λ c'. granted c' (given c'.requested_target_id) k)
        else (c, [])
  ]

  denied : Client → String → Option String → Outcome
  unfolding drop_target
  denied c target reason =
      if names c.requested_target_id target then drop_target c target reason else (c, [])

  unfoldable pub on_deny :
      Client → String → (target controller epoch reason : Option String) → Outcome
  unfolding denied
  on_deny c peer target controller epoch reason = elim (given target) [
    | none ↦ (c, [])
    | some k ↦
        if names controller (client_id c)
        then accepting c env peer epoch (λ c'. denied c' k reason)
        else (c, [])
  ]

  unfoldable pub authorize : Client → Option String → Outcome
  authorize c controller =
      with_sink
        (record c {
          local_override_pending_controller_id =
              if same_target controller c.local_override_pending_controller_id
              then c.local_override_pending_controller_id
              else none;
        })
        (set_authorized_controller c.sink env.now controller)

  unfoldable pub on_lease_update :
      Client → String → (target controller epoch : Option String) → Outcome
  unfolding authorize
  on_lease_update c peer target controller epoch =
      if names target (client_id c)
      then accepting c env peer epoch (λ c'. authorize c' controller)
      else (c, [])

  override : Client → String → Outcome
  override c controller =
      if controller == client_id c || names c.local_override_pending_controller_id controller
      then (c, [])
      else if reaches_coordinator c env
      then (
        record c { local_override_pending_controller_id = some controller },
        to_coordinator (Request.local_input_override (client_id c) controller) ∷ [],
      )
      else (c, [])

  unfoldable pub notify_local_input_override : Client → Outcome
  unfolding override
  notify_local_input_override c = elim (given c.sink.authorized_controller_id) [
    | none ↦ (c, [])
    | some controller ↦ override c controller
  ]
