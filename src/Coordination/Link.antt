-- ===== src/Coordination/Link.antt =====
-- The service of the coordinator and the client of a target together: the lease updates that reach the target,
-- in order, are the frames that its dispatcher hands to the client.
use multi_controller.Prelude.{
  ◌≡◌, refl, sym, ap, ◌∙◌, subst, inl, inr, true, false, Option, some, List, [], ◌∷◌, String, ◌==◌,
  eq_refl, if◌then◌else◌, Bool-cases, if_both, ℕ,
}
use multi_controller.Prelude.Text.{given}
use multi_controller.Prelude.Dict.{HasUniqueKeys}
use multi_controller.Coordination.Protocol.{Frame, lease_update, grant}
use multi_controller.Coordination.Service.{Service, Delivery, holder}
use multi_controller.Coordination.Service.Leases.View.{view, seen}
use multi_controller.Coordination.Service.Leases.Stamped.{AllStamped, HasEpoch}
use multi_controller.Coordination.Service.Step.{History, run}
use multi_controller.Coordination.Service.Step.Leases.{StaysReached, run-synced}
use multi_controller.Coordination.Service.Step.Stamped.{run-AllStamped}
use multi_controller.Coordination.Client.{
  Client, Around, client_id, names, id_of, accept_epoch, accept_coordinator_frame, accepting,
  after_accepting, compare_epoch_tokens,
}
use multi_controller.Coordination.Client.Calm.{set_authorized_controller-sets}
use multi_controller.Coordination.Client.Targets.{on_lease_update, authorize}

module _ (env : Around) (coordinator : String) where
  hear : Client → Frame → Client
  hear c (lease_update target controller epoch ttl) =
      (on_lease_update env c coordinator (some target) controller (some epoch)).0
  hear c (grant a b e ttl) = c
  hear c _ = c

  -- What the client of a node makes of the lease updates among the frames that reach it.
  unfoldable pub follow : Client → List Delivery → Client
  unfolding hear
  follow c [] = c
  follow c ((peer, frame) ∷ ds) = follow (if peer == client_id c then hear c frame else c) ds

  accept_same : (c : Client) (epoch : String) → accept_epoch c env epoch (some epoch) ≡ some (c, [])
  unfolding accept_epoch compare_epoch_tokens
  accept_same c epoch = rw (eq_refl epoch, accept_epoch, compare_epoch_tokens) refl

  accepted :
      (c : Client) (epoch : String)
      → names (id_of env.coordinator) coordinator ≡ true
      → (epoch == "") ≡ false
      → c.coordinator_epoch ≡ some epoch
      → accept_coordinator_frame c env coordinator (some epoch) ≡ some (c, [])
  unfolding accept_coordinator_frame given
  accepted c epoch n e p = rw (n, e) (ap (accept_epoch c env epoch) p ∙ accept_same c epoch)

  authorized :
      (c : Client) (controller : Option String) (epoch : String)
      → accept_coordinator_frame c env coordinator (some epoch) ≡ some (c, [])
      → (accepting c env coordinator (some epoch) (λ c'. authorize env c' controller)).0
        ≡ (authorize env c controller).0
  unfolding accepting
  authorized c controller epoch a =
      ap (λ o. (after_accepting c o (λ c'. authorize env c' controller)).0) a

  hear_lease :
      (c : Client) (k : String) (controller : Option String) (epoch : String) (ttl : ℕ)
      → accept_coordinator_frame c env coordinator (some epoch) ≡ some (c, [])
      → hear c (lease_update k controller epoch ttl)
        ≡ (if k == client_id c then (authorize env c controller).0 else c)
  unfolding hear on_lease_update
  hear_lease c k controller epoch ttl a = elim (Bool-cases (k == client_id c)) [
    | inl h ↦ rw (h, hear, on_lease_update) (authorized c controller epoch a)
    | inr h ↦ rw (h, hear, on_lease_update) refl
  ]

  -- The client is the same node, goes by the epoch, and obeys the controller that the frames have named.
  abbrev Knows : Client → String → Option String → Client → Type 0
  Knows c epoch known c' =
      (c'.ctx ≡ c.ctx)
      × (c'.coordinator_epoch ≡ some epoch)
      × (c'.sink.authorized_controller_id ≡ known)

  authorize-Knows :
      (c : Client) (epoch : String) (controller : Option String)
      → c.coordinator_epoch ≡ some epoch
      → Knows c epoch controller (authorize env c controller).0
  unfolding authorize
  authorize-Knows c epoch controller p =
      (refl, p, set_authorized_controller-sets c.sink env.now controller)

  hear-Knows :
      (c : Client) (epoch peer : String) (f : Frame) (known : Option String)
      → names (id_of env.coordinator) coordinator ≡ true
      → (epoch == "") ≡ false
      → HasEpoch epoch f
      → Knows c epoch known c
      → Knows c epoch
          (seen (client_id c) known (peer, f))
          (if peer == client_id c then hear c f else c)
  unfolding seen
  hear-Knows c epoch peer (lease_update k controller e ttl) known n ne st h =
      elim (Bool-cases (peer == client_id c)) [
        | inr q ↦ rw q h
        | inl q ↦ rw q (
            subst (λ x. Knows c epoch (if k == client_id c then controller else known) x)
              (sym (
                hear_lease c k controller e ttl (
                  subst (λ x. accept_coordinator_frame c env coordinator (some x) ≡ some (c, []))
                    (sym st) (accepted c epoch n ne h.1))))
              (elim (Bool-cases (k == client_id c)) [
                | inl b ↦ rw b (authorize-Knows c epoch controller h.1)
                | inr b ↦ rw b h
              ]))
      ]
  hear-Knows c epoch peer (grant a b e ttl) known n ne st h =
      if_both (Knows c epoch known) (peer == client_id c) _ _ (unfold hear in h) h
  hear-Knows c epoch peer f known n ne st h =
      if_both (Knows c epoch known) (peer == client_id c) _ _ (unfold hear in h) h

  pub follow-view :
      (ds : List Delivery) (c : Client) (epoch : String) (known : Option String)
      → names (id_of env.coordinator) coordinator ≡ true
      → (epoch == "") ≡ false
      → AllStamped epoch ds
      → Knows c epoch known c
      → (follow c ds).sink.authorized_controller_id ≡ view (client_id c) known ds
  unfolding follow view
  follow-view [] c epoch known n ne st h = h.2
  follow-view ((peer, f) ∷ ds) c epoch known n ne st h =
      let c' = (if peer == client_id c then hear c f else c) in
      let k = hear-Knows c epoch peer f known n ne st.0 h in
      follow-view ds c' epoch (seen (client_id c) known (peer, f)) n ne st.1 (refl, k.1, k.2)
      ∙ ap (λ x. view x.self_node.node_id (seen (client_id c) known (peer, f)) ds) k.0

  -- The lease that the coordinator keeps and the sink that it governs: a target that can be reached throughout a
  -- history of the coordinator service, whose client goes by the epoch of that service and obeys the holder of
  -- its lease at the start, obeys the holder of its lease at the end, or nobody if nobody holds it.
  pub follow-run :
      (c : Client) (s : Service) (es : History)
      → names (id_of env.coordinator) coordinator ≡ true
      → (s.coordinator_epoch == "") ≡ false
      → c.coordinator_epoch ≡ some s.coordinator_epoch
      → c.sink.authorized_controller_id ≡ holder s (client_id c)
      → HasUniqueKeys s.leases
      → StaysReached (client_id c) s es
      → (follow c (run s es).1).sink.authorized_controller_id ≡ holder (run s es).0 (client_id c)
  follow-run c s es n ne p a u h =
      follow-view (run s es).1 c s.coordinator_epoch (holder s (client_id c)) n ne
        (run-AllStamped s es) (refl, p, a)
      ∙ run-synced (client_id c) s es u h
