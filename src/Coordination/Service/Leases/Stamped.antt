-- ===== src/Coordination/Service/Leases/Stamped.antt =====
-- Every lease update carries the epoch of the service, which no handler changes.
use multi_controller.Prelude.{
  ℕ, ◌≡◌, refl, ◌∙◌, Option, none, some, List, [], ◌∷◌, ◌++◌, String, ◌==◌, arith, All, All-append,
  if_both, option_both,
}
use multi_controller.Prelude.Text.{given, given_or}
use multi_controller.Context.{get_node}
use multi_controller.Registry.{Registry}
use multi_controller.Coordination.Protocol.{Frame, lease_update}
use multi_controller.Coordination.Service.{
  Service, Delivery, Outcome, ◌then_do◌, reply, make_lease_update_frame, send_lease_update,
  target_is_online, holder,
}
use multi_controller.Coordination.Service.Leases.{
  LeaseFrame, set_lease, drop_lease, send_deny, is_holder, is_free_for, claim_lease, claim_target,
  on_claim, release_lease, on_release, override_lease, on_local_input_override, renew_lease,
  drop_offline, heartbeat_target, on_heartbeat,
}
use multi_controller.Coordination.Service.Leases.View.{
  AllOther, IsOther, reply-AllOther, send_deny-AllOther,
}
use multi_controller.Coordination.Service.Leases.Quiet.{IsQuiet}

abbrev pub HasEpoch : String → Frame → Type 0
HasEpoch epoch (lease_update target controller e ttl) = e ≡ epoch
HasEpoch epoch _ = Unit

abbrev pub AllStamped : String → List Delivery → Type 0
AllStamped epoch = All (λ d. HasEpoch epoch d.1)

pub record IsStamped (s : Service) (o : Outcome) : Type 0 where
  pub epoch : o.0.coordinator_epoch ≡ s.coordinator_epoch
  pub frames : AllStamped s.coordinator_epoch o.1

HasEpoch-other : (epoch : String) (f : Frame) → IsOther f → HasEpoch epoch f
HasEpoch-other epoch (lease_update a b c d) h = absurd h
HasEpoch-other epoch _ h = tt

pub AllStamped-AllOther : (epoch : String) (ds : List Delivery) → AllOther ds → AllStamped epoch ds
AllStamped-AllOther epoch [] h = tt
AllStamped-AllOther epoch ((p, f) ∷ ds) h =
    (HasEpoch-other epoch f h.0, AllStamped-AllOther epoch ds h.1)

pub IsStamped-IsQuiet : (s : Service) (o : Outcome) → IsQuiet s o → IsStamped s o
IsStamped-IsQuiet s o q = record {
  epoch = q.epoch;
  frames = AllStamped-AllOther s.coordinator_epoch o.1 q.others;
}

pub then_do-IsStamped :
    (s : Service) (o : Outcome) (next : Service → Outcome)
    → IsStamped s o
    → ((s' : Service) → IsQuiet s' (next s'))
    → IsStamped s (o then_do next)
then_do-IsStamped s o next h more = record {
  epoch = (more o.0).epoch ∙ h.epoch;
  frames =
      All-append _ o.1 (next o.0).1 h.frames
        (AllStamped-AllOther s.coordinator_epoch (next o.0).1 (more o.0).others);
}

module _ (s : Service) (r : Registry) where
  abbrev Stamped : List Delivery → Type 0
  Stamped = AllStamped s.coordinator_epoch

  pub send_lease_update-AllStamped :
      (k : String) (c : Option String) → Stamped (send_lease_update s r k c)
  unfolding send_lease_update reply make_lease_update_frame
  send_lease_update-AllStamped k c = ground arith

  others : (ds : List Delivery) → AllOther ds → Stamped ds
  others ds h = AllStamped-AllOther s.coordinator_epoch ds h

  denied : (peer k c reason : String) → IsStamped s (s, send_deny s r peer k c reason)
  denied peer k c reason = record {
    epoch = refl;
    frames = others _ (send_deny-AllOther s r peer k c reason);
  }

  idle : IsStamped s (s, [])
  idle = record { epoch = refl; frames = tt }

  claim_lease-IsStamped : (now : ℕ) (peer k c : String) → IsStamped s (claim_lease s r now peer k c)
  unfolding claim_lease set_lease
  claim_lease-IsStamped now peer k c =
      if_both (IsStamped s) (is_free_for (holder s k) c) _ _
        record {
          epoch = refl;
          frames =
              All-append _ (send_lease_update s r k (some c)) _
                (send_lease_update-AllStamped k (some c)) (others _ (reply-AllOther s r peer _ tt));
        }
        (denied peer k c "held_by_other")

  pub on_claim-IsStamped :
      (now : ℕ) (peer : String) (f : LeaseFrame) → IsStamped s (on_claim s r now peer f)
  unfolding on_claim claim_target
  on_claim-IsStamped now peer f = option_both (IsStamped s) (given f.target_id) _ _ idle (λ k.
      option_both (IsStamped s) (get_node s.ctx k) _ _
        (denied peer k (given_or f.controller_id peer) "unknown_target")
        (λ n.
          if_both (IsStamped s) (target_is_online s r k) _ _
            (claim_lease-IsStamped now peer k (given_or f.controller_id peer))
            (denied peer k (given_or f.controller_id peer) "target_offline")))

  release_lease-IsStamped : (k c : String) → IsStamped s (release_lease s r k c)
  unfolding release_lease drop_lease
  release_lease-IsStamped k c =
      if_both (IsStamped s) (is_holder (holder s k) c) _ _
        record { epoch = refl; frames = send_lease_update-AllStamped k none } idle

  pub on_release-IsStamped : (peer : String) (f : LeaseFrame) → IsStamped s (on_release s r peer f)
  unfolding on_release
  on_release-IsStamped peer f =
      option_both (IsStamped s) (given f.target_id) _ _ idle
        (λ k. release_lease-IsStamped k (given_or f.controller_id peer))

  dropped :
      (k c reason : String)
      → IsStamped s (drop_lease s r k, send_lease_update s r k none ++ send_deny s r c k c reason)
  unfolding drop_lease
  dropped k c reason = record {
    epoch = refl;
    frames =
        All-append _ (send_lease_update s r k none) _ (send_lease_update-AllStamped k none)
          (others _ (send_deny-AllOther s r c k c reason));
  }

  override_lease-IsStamped : (peer k c : String) → IsStamped s (override_lease s r peer k c)
  unfolding override_lease
  override_lease-IsStamped peer k c =
      if_both (IsStamped s) (k == peer) _ _
        (if_both (IsStamped s) (is_holder (holder s k) c) _ _ (dropped k c "local_activity") idle)
        idle

  pub on_local_input_override-IsStamped :
      (peer : String) (f : LeaseFrame) → IsStamped s (on_local_input_override s r peer f)
  unfolding on_local_input_override
  on_local_input_override-IsStamped peer f =
      option_both (IsStamped s) (given f.target_id) _ _ idle (λ k.
        option_both (IsStamped s) (given f.controller_id) _ _ idle
          (override_lease-IsStamped peer k))

  renew_lease-IsStamped : (now : ℕ) (k c : String) → IsStamped s (renew_lease s r now k c)
  unfolding renew_lease set_lease
  renew_lease-IsStamped now k c =
      if_both (IsStamped s) (is_free_for (holder s k) c) _ _
        record {
          epoch = refl;
          frames =
              if_both Stamped (is_holder (holder s k) c) _ _ tt
                (send_lease_update-AllStamped k (some c));
        }
        idle

  drop_offline-IsStamped : (k c : String) → IsStamped s (drop_offline s r k c)
  unfolding drop_offline
  drop_offline-IsStamped k c =
      if_both (IsStamped s) (is_holder (holder s k) c) _ _ (dropped k c "target_offline")
        (denied c k c "target_offline")

  pub on_heartbeat-IsStamped :
      (now : ℕ) (peer : String) (f : LeaseFrame) → IsStamped s (on_heartbeat s r now peer f)
  unfolding on_heartbeat heartbeat_target
  on_heartbeat-IsStamped now peer f = option_both (IsStamped s) (given f.target_id) _ _ idle (λ k.
      option_both (IsStamped s) (get_node s.ctx k) _ _ idle (λ n.
        if_both (IsStamped s) (target_is_online s r k) _ _
          (renew_lease-IsStamped now k (given_or f.controller_id peer))
          (drop_offline-IsStamped k (given_or f.controller_id peer))))
