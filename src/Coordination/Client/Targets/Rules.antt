-- ===== src/Coordination/Client/Targets/Rules.antt =====
-- What each handler of targets does to the target of the router and the controller of the sink.
use multi_controller.Prelude.{
  ◌≡◌, refl, sym, ◌∙◌, subst, inl, inr, true, ◌||◌, Option, none, some, [], String, ◌==◌, if_both,
  option_both, Bool-cases, Option-cases,
}
use multi_controller.Prelude.Text.{given}
use multi_controller.Routing.Router.{pending, same_mode, set_pending_target}
use multi_controller.Routing.Router.Targets.{
  clear_target-active, set_pending_target-active, activate_target-active,
}
use multi_controller.Coordination.Client.{
  Client, Around, client_id, reaches_coordinator, names, id_of,
}
use multi_controller.Coordination.Client.Calm.{IsStill, still, set_authorized_controller-sets}
use multi_controller.Coordination.Client.Targets.{
  claim_again, claim_pending, clear_if_requested, ask_target, with_source, request_target,
  clear_target, drop_target, on_peer_unbound, activate, granted, on_grant, denied, on_deny,
  authorize, on_lease_update, override, notify_local_input_override,
}
use multi_controller.Coordination.Client.Targets.Led.{
  IsLed, IsOrderly, IsLed-still, IsAway, IsAway-IsLed, IsLed-IsOrderly, accepting-IsOrderly,
}

module _ (env : Around) where
  claim_pending-IsAway :
      (c : Client) (k : String)
      → c.router.active_target_id ≡ none
      → IsAway c (claim_pending env c k)
  unfolding claim_pending clear_if_requested
  claim_pending-IsAway c k a = elim (Bool-cases (reaches_coordinator c env)) [
    | inl h ↦ rw h record { active = a; sink = refl; epoch = refl }
    | inr h ↦ rw h (elim (Bool-cases (names c.router.requested_target_id k)) [
      | inl n ↦
          rw n
            record { active = clear_target-active c.router env.registry; sink = refl; epoch = refl }
      | inr n ↦ rw n record { active = a; sink = refl; epoch = refl }
    ])
  ]

  ask_target-IsAway :
      (c : Client) (previous : Option String) (k : String) (source : Option String)
      → IsAway c (ask_target env c previous k source)
  unfolding ask_target
  ask_target-IsAway c previous k source =
      let asked = record c {
        requested_target_id = some k;
        requested_target_source = source;
        router = (set_pending_target c.router c.ctx env.registry (some k)).0;
      } in
      let h =
        claim_pending-IsAway asked k
          (set_pending_target-active c.router c.ctx env.registry (some k)) in
      record { active = h.active; sink = h.sink; epoch = h.epoch }

  clear_target-IsAway : (c : Client) → IsAway c (clear_target env c)
  unfolding clear_target
  clear_target-IsAway c = record {
    active = clear_target-active c.router env.registry;
    sink = refl;
    epoch = refl;
  }

  drop_target-IsAway :
      (c : Client) (k : String) (reason : Option String) → IsAway c (drop_target env c k reason)
  unfolding drop_target
  drop_target-IsAway c k reason = record {
    active = clear_target-active c.router env.registry;
    sink = refl;
    epoch = refl;
  }

  override-IsStill : (c : Client) (k : String) → IsStill c (override env c k)
  unfolding override
  override-IsStill c k =
      if_both (IsStill c) (k == client_id c || names c.local_override_pending_controller_id k) _ _
        (still c [])
        (if_both (IsStill c) (reaches_coordinator c env) _ _
          record { router = refl; sink = refl; epoch = refl } (still c []))

  pub notify_local_input_override-IsStill :
      (c : Client) → IsStill c (notify_local_input_override env c)
  unfolding notify_local_input_override
  notify_local_input_override-IsStill c =
      option_both (IsStill c) (given c.sink.authorized_controller_id) _ _ (still c [])
        (override-IsStill c)

-- The predicates of the events that activate no target and tell of no controller.
module _ {Granted Told : String → Type 0} (env : Around) where
  claim_again-IsLed : (c : Client) (k : String) → IsLed Granted Told c (claim_again env c k)
  unfolding claim_again
  claim_again-IsLed c k =
      if_both (IsLed Granted Told c) (same_mode c.router.mode pending) _ _ (IsLed-still c _)
        (IsLed-still c [])

  renewed-IsLed :
      (c : Client) (k : String) (source : Option String)
      → IsLed Granted Told c (claim_again env (with_source env c source) k)
  renewed-IsLed c k none = claim_again-IsLed c k
  renewed-IsLed c k (some source) =
      let h = claim_again-IsLed (with_source env c (some source)) k in
      record { active = h.active; controller = h.controller; epoch = h.epoch }

  pub request_target-IsLed :
      (c : Client) (k : String) (source : Option String)
      → IsLed Granted Told c (request_target env c k source)
  unfolding request_target
  request_target-IsLed c k source =
      if_both (IsLed Granted Told c) (names c.requested_target_id k) _ _ (renewed-IsLed c k source)
        (IsAway-IsLed c _ (ask_target-IsAway env c (given c.requested_target_id) k source))

  pub clear_target-IsLed : (c : Client) → IsLed Granted Told c (clear_target env c)
  clear_target-IsLed c = IsAway-IsLed c _ (clear_target-IsAway env c)

  pub on_peer_unbound-IsLed :
      (c : Client) (k : String) → IsLed Granted Told c (on_peer_unbound env c k)
  unfolding on_peer_unbound
  on_peer_unbound-IsLed c k =
      if_both (IsLed Granted Told c) (names (given c.router.requested_target_id) k) _ _
        (IsAway-IsLed c _ (drop_target-IsAway env c k (some "target_offline"))) (IsLed-still c [])

  denied-IsLed :
      (c : Client) (k : String) (reason : Option String)
      → IsLed Granted Told c (denied env c k reason)
  unfolding denied
  denied-IsLed c k reason =
      if_both (IsLed Granted Told c) (names c.requested_target_id k) _ _
        (IsAway-IsLed c _ (drop_target-IsAway env c k reason)) (IsLed-still c [])

  pub on_deny-IsOrderly :
      (c : Client) (peer : String) (target controller epoch reason : Option String)
      → IsOrderly env Granted Told c (on_deny env c peer target controller epoch reason)
  unfolding on_deny
  on_deny-IsOrderly c peer target controller epoch reason =
      option_both (IsOrderly env Granted Told c) (given target) _ _
        (IsLed-IsOrderly env c _ (IsLed-still c []))
        (λ k.
          if_both (IsOrderly env Granted Told c) (names controller (client_id c)) _ _
            (accepting-IsOrderly env c peer epoch _ (λ h c'. denied-IsLed c' k reason))
            (IsLed-IsOrderly env c _ (IsLed-still c [])))

  activate-IsLed : (c : Client) (k : String) → Granted k → IsLed Granted Told c (activate env c k)
  unfolding activate
  activate-IsLed c k g = record {
    active =
        λ j e. inr (subst Granted (activate_target-active c.router c.ctx env.registry k j e) g);
    controller = λ j e. inl e;
    epoch = refl;
  }

  granted-IsLed :
      (c : Client) (requested : Option String) (k : String)
      → Granted k
      → IsLed Granted Told c (granted env c requested k)
  unfolding granted
  granted-IsLed c none k g = activate-IsLed c k g
  granted-IsLed c (some j) k g =
      if_both (IsLed Granted Told c) (k == j) _ _ (activate-IsLed c k g) (IsLed-still c _)

  authorize-IsLed :
      (c : Client) (controller : Option String)
      → ((k : String) → controller ≡ some k → Told k)
      → IsLed Granted Told c (authorize env c controller)
  unfolding authorize
  authorize-IsLed c controller told = record {
    active = λ k e. inl e;
    controller =
        λ k e. inr (told k (sym (set_authorized_controller-sets c.sink env.now controller) ∙ e));
    epoch = refl;
  }

-- A grant for the own node from the coordinator.
abbrev pub IsGrant :
    Around → Client → String → (target controller : Option String) → String → Type 0
IsGrant env c peer target controller k =
    (given target ≡ some k)
    × (names controller (client_id c) ≡ true)
    × (names (id_of env.coordinator) peer ≡ true)

-- A lease update about the own node from the coordinator.
abbrev pub IsLease :
    Around → Client → String → (target controller : Option String) → String → Type 0
IsLease env c peer target controller k =
    (controller ≡ some k)
    × (names target (client_id c) ≡ true)
    × (names (id_of env.coordinator) peer ≡ true)

module _ (env : Around) where
  pub on_grant-IsOrderly :
      {Told : String → Type 0} (c : Client) (peer : String)
      (target controller epoch : Option String)
      → IsOrderly env
          (IsGrant env c peer target controller)
          Told
          c
          (on_grant env c peer target controller epoch)
  unfolding on_grant
  on_grant-IsOrderly {Told} c peer target controller epoch = elim (Option-cases (given target)) [
    | inl e ↦ rw (e, on_grant) (IsLed-IsOrderly env c _ (IsLed-still c []))
    | inr (k, e) ↦
        rw (e, on_grant)
          (elim (Bool-cases (names controller (client_id c))) [
            | inr n ↦ rw n (IsLed-IsOrderly env c _ (IsLed-still c []))
            | inl n ↦ rw n (
                accepting-IsOrderly env c peer epoch
                  (λ c'. granted env c' (given c'.requested_target_id) k)
                  (λ h c'. granted-IsLed env c' (given c'.requested_target_id) k (e, n, h)))
          ])
  ]

  pub on_lease_update-IsOrderly :
      {Granted : String → Type 0} (c : Client) (peer : String)
      (target controller epoch : Option String)
      → IsOrderly env Granted
          (IsLease env c peer target controller)
          c
          (on_lease_update env c peer target controller epoch)
  unfolding on_lease_update
  on_lease_update-IsOrderly {Granted} c peer target controller epoch =
      elim (Bool-cases (names target (client_id c))) [
        | inr n ↦ rw n (IsLed-IsOrderly env c _ (IsLed-still c []))
        | inl n ↦ rw n (
            accepting-IsOrderly env c peer epoch (λ c'. authorize env c' controller)
              (λ h c'. authorize-IsLed env c' controller (λ k e. (e, n, h))))
      ]
