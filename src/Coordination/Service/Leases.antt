-- ===== src/Coordination/Service/Leases.antt =====
-- control/coordination/service.py: the frames that claim, release, override and renew a lease.
pub mod View
pub mod Sound
pub mod Quiet
pub mod Rules
pub mod Renewal
pub mod Grants
pub mod Stamped
use multi_controller.Prelude.{
  ℕ, Bool, true, false, Option, none, some, List, [], ◌∷◌, ◌++◌, String, ◌==◌, if◌then◌else◌,
}
use multi_controller.Prelude.Text.{given, given_or}
use multi_controller.Prelude.Dict
use multi_controller.Context.{get_node}
use multi_controller.Registry.{Registry}
use multi_controller.Coordination.Protocol.{grant, deny, default_lease_ttl_ms}
use multi_controller.Coordination.Service.{
  Service, Delivery, Outcome, reply, send_lease_update, target_is_online, holder, lease_expiry,
}

-- The two fields of a claim, release, override or heartbeat frame; either may be missing.
pub record LeaseFrame : Type 0 where
  pub target_id : Option String
  pub controller_id : Option String

-- The holder is the controller.
abbrev pub is_holder : Option String → String → Bool
is_holder none controller = false
is_holder (some h) controller = h == controller

-- Nobody holds the target, or the controller does.
abbrev pub is_free_for : Option String → String → Bool
is_free_for none controller = true
is_free_for (some h) controller = h == controller

module _ (s : Service) (r : Registry) where
  pub set_lease : ℕ → String → String → Service
  unfolding lease_expiry
  set_lease now target controller = record s {
    leases =
        Dict.set target (record { controller_id = controller; expires_at = lease_expiry now })
          s.leases;
  }

  unfoldable pub drop_lease : String → Service
  drop_lease target = record s { leases = Dict.delete target s.leases }

  unfoldable pub send_deny : String → String → String → String → List Delivery
  unfolding reply
  send_deny peer target controller reason =
      (reply s r peer (deny target controller reason s.coordinator_epoch)).0

  claim_lease : ℕ → String → String → String → Outcome
  unfolding set_lease send_deny
  claim_lease now peer target controller =
      if is_free_for (holder s target) controller
      then (
        set_lease now target controller,
        send_lease_update s r target (some controller)
            ++ (reply s r peer
                (grant target controller s.coordinator_epoch default_lease_ttl_ms)).0,
      )
      else (s, send_deny peer target controller "held_by_other")

  claim_target : ℕ → String → String → String → Outcome
  unfolding claim_lease
  claim_target now peer target controller = elim (get_node s.ctx target) [
    | none ↦ (s, send_deny peer target controller "unknown_target")
    | some node ↦
        if target_is_online s r target
        then claim_lease now peer target controller
        else (s, send_deny peer target controller "target_offline")
  ]

  unfoldable pub on_claim : ℕ → String → LeaseFrame → Outcome
  unfolding claim_target
  on_claim now peer frame = elim (given frame.target_id) [
    | none ↦ (s, [])
    | some target ↦ claim_target now peer target (given_or frame.controller_id peer)
  ]

  release_lease : String → String → Outcome
  unfolding drop_lease
  release_lease target controller =
      if is_holder (holder s target) controller
      then (drop_lease target, send_lease_update s r target none)
      else (s, [])

  unfoldable pub on_release : String → LeaseFrame → Outcome
  unfolding release_lease
  on_release peer frame = elim (given frame.target_id) [
    | none ↦ (s, [])
    | some target ↦ release_lease target (given_or frame.controller_id peer)
  ]

  override_lease : String → String → String → Outcome
  unfolding drop_lease send_deny
  override_lease peer target controller =
      if target == peer
      then (if is_holder (holder s target) controller
          then (
            drop_lease target,
            send_lease_update s r target none
                ++ send_deny controller target controller "local_activity",
          )
          else (s, []))
      else (s, [])

  unfoldable pub on_local_input_override : String → LeaseFrame → Outcome
  unfolding override_lease
  on_local_input_override peer frame = elim (given frame.target_id) [
    | none ↦ (s, [])
    | some target ↦ elim (given frame.controller_id) [
      | none ↦ (s, [])
      | some controller ↦ override_lease peer target controller
    ]
  ]

  renew_lease : ℕ → String → String → Outcome
  unfolding set_lease
  renew_lease now target controller =
      if is_free_for (holder s target) controller
      then (
        set_lease now target controller,
        if is_holder (holder s target) controller
            then []
            else send_lease_update s r target (some controller),
      )
      else (s, [])

  drop_offline : String → String → Outcome
  unfolding drop_lease send_deny
  drop_offline target controller =
      if is_holder (holder s target) controller
      then (
        drop_lease target,
        send_lease_update s r target none
            ++ send_deny controller target controller "target_offline",
      )
      else (s, send_deny controller target controller "target_offline")

  heartbeat_target : ℕ → String → String → Outcome
  unfolding renew_lease drop_offline
  heartbeat_target now target controller = elim (get_node s.ctx target) [
    | none ↦ (s, [])
    | some node ↦
        if target_is_online s r target
        then renew_lease now target controller
        else drop_offline target controller
  ]

  unfoldable pub on_heartbeat : ℕ → String → LeaseFrame → Outcome
  unfolding heartbeat_target
  on_heartbeat now peer frame = elim (given frame.target_id) [
    | none ↦ (s, [])
    | some target ↦ heartbeat_target now target (given_or frame.controller_id peer)
  ]
