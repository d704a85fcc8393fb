-- ===== src/Coordination/Client/Targets/Led.antt =====
-- How the target of the router and the controller of the sink can change in the handlers of targets.
use multi_controller.Prelude.{
  ◌≡◌, ◌⊎◌, sym, ap, ◌∙◌, subst, inl, inr, true, Option, none, some, List, [], String, Bool-cases,
}
use multi_controller.Routing.Router.Targets.{no_some}
use multi_controller.Coordination.Client.{
  Client, Around, Effect, Outcome, names, id_of, accepting, after_accepting,
}
use multi_controller.Coordination.Client.Calm.{
  IsStill, IsCalm, still, IsNotOlder, IsCalmAnswer, accept_coordinator_frame-IsCalm,
  accepting-names, IsNotOlder-refl,
}

-- A target that is active afterwards was active, or `Granted`; a controller was the controller, or `Told`.
pub record IsLed (Granted Told : String → Type 0) (c : Client) (o : Outcome) : Type 0 where
  pub active :
      (k : String)
      → o.0.router.active_target_id ≡ some k
      → (c.router.active_target_id ≡ some k) ⊎ Granted k
  pub controller :
      (k : String)
      → o.0.sink.authorized_controller_id ≡ some k
      → (c.sink.authorized_controller_id ≡ some k) ⊎ Told k
  pub epoch : o.0.coordinator_epoch ≡ c.coordinator_epoch

-- The same, where the epoch may become a newer one.
pub record IsOrderly (env : Around) (Granted Told : String → Type 0) (c : Client) (o : Outcome)
    : Type 0 where
  pub active :
      (k : String)
      → o.0.router.active_target_id ≡ some k
      → (c.router.active_target_id ≡ some k) ⊎ Granted k
  pub controller :
      (k : String)
      → o.0.sink.authorized_controller_id ≡ some k
      → (c.sink.authorized_controller_id ≡ some k) ⊎ Told k
  pub epoch : IsNotOlder env.int_of c.coordinator_epoch o.0.coordinator_epoch

-- No target is active afterwards.
pub record IsAway (c : Client) (o : Outcome) : Type 0 where
  pub active : o.0.router.active_target_id ≡ none
  pub sink : o.0.sink ≡ c.sink
  pub epoch : o.0.coordinator_epoch ≡ c.coordinator_epoch

module _ {Granted Told : String → Type 0} where
  pub IsStill-IsLed : (c : Client) (o : Outcome) → IsStill c o → IsLed Granted Told c o
  IsStill-IsLed c o h = record {
    active = λ k e. inl (sym (ap (λ r. r.active_target_id) h.router) ∙ e);
    controller = λ k e. inl (sym (ap (λ s. s.authorized_controller_id) h.sink) ∙ e);
    epoch = h.epoch;
  }

  pub IsLed-still : (c : Client) (did : List Effect) → IsLed Granted Told c (c, did)
  IsLed-still c did = IsStill-IsLed c (c, did) (still c did)

  pub IsAway-IsLed : (c : Client) (o : Outcome) → IsAway c o → IsLed Granted Told c o
  IsAway-IsLed c o h = record {
    active = λ k e. no_some h.active e;
    controller = λ k e. inl (sym (ap (λ x. x.authorized_controller_id) h.sink) ∙ e);
    epoch = h.epoch;
  }

  pub IsLed-IsOrderly :
      (env : Around) (c : Client) (o : Outcome)
      → IsLed Granted Told c o
      → IsOrderly env Granted Told c o
  IsLed-IsOrderly env c o h = record {
    active = h.active;
    controller = h.controller;
    epoch =
        subst (IsNotOlder env.int_of c.coordinator_epoch) (sym h.epoch)
          (IsNotOlder-refl env.int_of c.coordinator_epoch);
  }

  pub IsCalm-IsOrderly :
      (env : Around) (c : Client) (o : Outcome) → IsCalm env c o → IsOrderly env Granted Told c o
  IsCalm-IsOrderly env c o h = record {
    active = λ k e. inl (sym (ap (λ r. r.active_target_id) h.router) ∙ e);
    controller = λ k e. elim h.controller [ inl p ↦ inl (sym p ∙ e) | inr p ↦ no_some p e ];
    epoch = h.epoch;
  }

  after_accepting-IsOrderly :
      (env : Around) (c : Client) (a : Option Outcome) (next : Client → Outcome)
      → IsCalmAnswer env c a
      → ((c' : Client) → IsLed Granted Told c' (next c'))
      → IsOrderly env Granted Told c (after_accepting c a next)
  after_accepting-IsOrderly env c none next h led = IsLed-IsOrderly env c _ (IsLed-still c [])
  after_accepting-IsOrderly env c (some o) next h led =
      let n = led o.0 in
      record {
        active = λ k e. elim (n.active k e) [
          | inl p ↦ inl (sym (ap (λ r. r.active_target_id) h.router) ∙ p)
          | inr g ↦ inr g
        ];
        controller = λ k e. elim (n.controller k e) [
          | inl p ↦ elim h.controller [ inl q ↦ inl (sym q ∙ p) | inr q ↦ no_some q p ]
          | inr t ↦ inr t
        ];
        epoch = subst (IsNotOlder env.int_of c.coordinator_epoch) (sym n.epoch) h.epoch;
      }

  -- A frame that is refused changes nothing, and one that is accepted comes from the coordinator.
  pub accepting-IsOrderly :
      (env : Around) (c : Client) (peer : String) (epoch : Option String) (next : Client → Outcome)
      → (names (id_of env.coordinator) peer ≡ true
          → (c' : Client) → IsLed Granted Told c' (next c'))
      → IsOrderly env Granted Told c (accepting c env peer epoch next)
  unfolding accepting
  accepting-IsOrderly env c peer epoch next led =
      elim (Bool-cases (names (id_of env.coordinator) peer)) [
        | inl h ↦
            after_accepting-IsOrderly env c _ next
              (accept_coordinator_frame-IsCalm env c peer epoch) (led h)
        | inr h ↦
            subst (IsOrderly env Granted Told c) (sym (accepting-names env c peer epoch next h))
              (IsLed-IsOrderly env c (c, []) (IsLed-still c []))
      ]
