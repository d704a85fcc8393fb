-- ===== src/Coordination/HoldDown/Flapping.antt =====
-- A node whose connection is lost and comes back starts its health grace again.
use multi_controller.Prelude.{
  ℕ, ◌+◌, ◌<◌, ◌≡◌, ◌≢◌, refl, sym, ◌∙◌, ap, Bool, true, false, inl, inr, none, some, List, [], ◌∷◌,
  map, String, ◌==◌, eq_iff, arith, any, Option-cases,
}
use multi_controller.Prelude.Dict
use multi_controller.Prelude.Dict.{
  Dict, HasUniqueKeys, filtered, get-set, get-delete, get-retain, set-HasUniqueKeys,
  delete-HasUniqueKeys,
}
use multi_controller.Context.{NodeInfo, Context, get_node}
use multi_controller.Registry.{Registry, bound, unbound}
use multi_controller.Coordination.Election.{online_nodes}
use multi_controller.Coordination.HoldDown.{
  Election, set_default, track_all, sync_online_tracking, is_healthy, current_among,
  clear_challenger, pick, on_registry_event,
}
use multi_controller.Coordination.HoldDown.Rules.{pick-HasWaited}

set_default-HasUniqueKeys :
    (k : String) (now : ℕ) (m : Dict ℕ) → HasUniqueKeys m → HasUniqueKeys (set_default k now m)
unfolding set_default
set_default-HasUniqueKeys k now m u = elim (Option-cases (Dict.get k m)) [
  | inl e ↦ rw (e, set_default) (set-HasUniqueKeys k now m u)
  | inr (t, e) ↦ rw (e, set_default) u
]

get-set_default :
    (j k : String) (now t : ℕ) (m : Dict ℕ)
    → Dict.get k m ≡ some t
    → Dict.get k (set_default j now m) ≡ some t
unfolding set_default
get-set_default j k now t m h = elim (Option-cases (Dict.get j m)) [
  | inl e ↦ rw (e, set_default) (ground (arith, get-set j k now m, eq_iff j k))
  | inr (x, e) ↦ rw (e, set_default) h
]

track_all-HasUniqueKeys :
    (now : ℕ) (ks : List String) (m : Dict ℕ) → HasUniqueKeys m → HasUniqueKeys (track_all now ks m)
unfolding track_all
track_all-HasUniqueKeys now [] m u = u
track_all-HasUniqueKeys now (k ∷ ks) m u =
    track_all-HasUniqueKeys now ks (set_default k now m) (set_default-HasUniqueKeys k now m u)

get-track_all :
    (now t : ℕ) (k : String) (ks : List String) (m : Dict ℕ)
    → Dict.get k m ≡ some t
    → Dict.get k (track_all now ks m) ≡ some t
unfolding track_all
get-track_all now t k [] m h = h
get-track_all now t k (j ∷ ks) m h =
    get-track_all now t k ks (set_default j now m) (get-set_default j k now t m h)

-- A node that has been online for less than the grace is not healthy.
sync-unhealthy :
    (e : Election) (ctx : Context) (r : Registry) (now t : ℕ) (k : String)
    → HasUniqueKeys e.online_since
    → Dict.get k e.online_since ≡ some t
    → k ≢ ctx.self_node.node_id
    → now < t + e.health_grace_ms
    → is_healthy (sync_online_tracking e ctx r now) ctx now k ≡ false
unfolding is_healthy sync_online_tracking
sync-unhealthy e ctx r now t k u h ne early =
    let ids = ctx.self_node.node_id ∷ map (λ n. n.node_id) (online_nodes ctx r none) in
    let kept =
      get-retain (λ j x. any (λ i. i == j) ids) k (track_all now ids e.online_since)
        (track_all-HasUniqueKeys now ids e.online_since u) in
    let there = get-track_all now t k ids e.online_since h in
    ground (arith, eq_iff k ctx.self_node.node_id, kept, there)

contradiction : {b : Bool} → b ≡ true → b ≡ false → ⊥
contradiction h g = ground arith

-- The election after the connection of a node is lost at one time and comes back at another.
abbrev pub reconnected : Election → Context → String → ℕ → ℕ → Election
reconnected e ctx k lost back =
    on_registry_event (on_registry_event e ctx lost (unbound k)) ctx back (bound k)

return_lem :
    (e : Election) (ctx : Context) (k : String) (back : ℕ) (n : NodeInfo)
    → Dict.get k e.online_since ≡ none
    → k ≢ ctx.self_node.node_id
    → get_node ctx k ≡ some n
    → on_registry_event e ctx back (bound k)
      ≡ record e { online_since = Dict.set k back e.online_since }
unfolding on_registry_event set_default
return_lem e ctx k back n gone ne known =
    let other : (k == ctx.self_node.node_id) ≡ false =
      ground (arith, eq_iff k ctx.self_node.node_id) in
    rw (other, known, gone, set_default) refl

module _ (e : Election) (ctx : Context) (k : String) (lost back : ℕ) where
  abbrev after_loss : Election
  after_loss = on_registry_event e ctx lost (unbound k)

  loss_keeps :
      (after_loss.current_coordinator_id ≡ e.current_coordinator_id)
      × (after_loss.health_grace_ms ≡ e.health_grace_ms)
      × (after_loss.online_since ≡ Dict.delete k e.online_since)
  unfolding on_registry_event clear_challenger
  loss_keeps = ground arith

  after_loss-none : Dict.get k after_loss.online_since ≡ none
  after_loss-none =
      ap (Dict.get k) loss_keeps.2 ∙ get-delete k k e.online_since ∙ rw ((eq_iff k k).1 refl) refl

  module _ (n : NodeInfo) (ne : k ≢ ctx.self_node.node_id) (known : get_node ctx k ≡ some n) where
    came_back :
        reconnected e ctx k lost back
        ≡ record after_loss { online_since = Dict.set k back after_loss.online_since }
    came_back = return_lem after_loss ctx k back n after_loss-none ne known

    reconnected-unhealthy :
        (r : Registry) (now : ℕ)
        → HasUniqueKeys e.online_since
        → now < back + e.health_grace_ms
        → is_healthy (sync_online_tracking (reconnected e ctx k lost back) ctx r now) ctx now k
          ≡ false
    reconnected-unhealthy r now u early =
        let since = after_loss.online_since in
        sync-unhealthy (reconnected e ctx k lost back) ctx r now back k
          (rw came_back (
            set-HasUniqueKeys k back since
              (rw loss_keeps.2 (delete-HasUniqueKeys k e.online_since u))))
          (rw came_back (get-set k k back since ∙ rw ((eq_iff k k).1 refl) refl)) ne
          (rw came_back (rw loss_keeps.1 early))

-- A configured node, not the own one, that has lost its connection and come back does not take over
-- from another coordinator that is online before it has been back for the health grace; the times since
-- which nodes are online have one entry for each node.
pub pick-reconnected :
    (e : Election) (ctx : Context) (r : Registry) (k : String) (lost back now : ℕ)
    (n current : NodeInfo)
    → HasUniqueKeys e.online_since
    → k ≢ ctx.self_node.node_id
    → get_node ctx k ≡ some n
    → current_among (reconnected e ctx k lost back) (online_nodes ctx r none) ≡ some current
    → current.node_id ≢ k
    → now < back + e.health_grace_ms
    → (pick (reconnected e ctx k lost back) ctx r now).1.node_id ≢ k
pick-reconnected e ctx r k lost back now n current u ne known h other early =
    elim (pick-HasWaited (reconnected e ctx k lost back) ctx r now current h) [
      | inl same ↦ λ is_k. other (sym (ap (λ m. m.node_id) same) ∙ is_k)
      | inr (waited, healthy, before) ↦ λ is_k.
          contradiction
            (sym (
                ap
                  (is_healthy (sync_online_tracking (reconnected e ctx k lost back) ctx r now) ctx
                    now)
                  is_k)
              ∙ healthy)
            (reconnected-unhealthy e ctx k lost back n ne known r now u early)
    ]
