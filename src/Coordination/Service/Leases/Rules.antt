-- ===== src/Coordination/Service/Leases/Rules.antt =====
-- The lease of each target as a lock: what each lease frame does to it, and what a controller is told.
use multi_controller.Prelude.{
  ℕ, ◌≡◌, refl, inl, inr, Bool, true, false, ◌&&◌, Option, none, some, String, ◌==◌, eq_iff, arith,
  Option-cases, if◌then◌else◌,
}
use multi_controller.Prelude.Text.{given, given_or}
use multi_controller.Context.{get_node}
use multi_controller.Registry.{Registry}
use multi_controller.Coordination.Service.{Service, target_is_online, holder}
use multi_controller.Coordination.Service.Leases.{
  LeaseFrame, is_holder, claim_lease, claim_target, on_claim, release_lease, on_release,
  override_lease, on_local_input_override, renew_lease, drop_offline, heartbeat_target,
  on_heartbeat,
}
use multi_controller.Coordination.Service.Leases.Sound.{holder-set_lease, holder-drop_lease}

-- The lock of one target: a claim takes it if it is free, and only its holder gives it up.
unfoldable pub acquire : String → Option String → Option String
acquire c none = some c
acquire c (some h) = some h

unfoldable pub give_up : String → Option String → Option String
give_up c h = if is_holder h c then none else h

-- The target is configured and can be reached.
unfoldable pub is_usable : Service → Registry → String → Bool
is_usable s r k = elim (get_node s.ctx k) [ none ↦ false | some n ↦ target_is_online s r k ]

unfoldable pub is_known : Service → String → Bool
is_known s k = elim (get_node s.ctx k) [ none ↦ false | some n ↦ true ]

module _ (s : Service) (r : Registry) where
  claim_lease-acquire :
      (now : ℕ) (p k c t : String)
      → holder (claim_lease s r now p k c).0 t
        ≡ (if k == t then acquire c (holder s k) else holder s t)
  unfolding claim_lease acquire
  claim_lease-acquire now p k c t = split (holder s k) refl
    where
      split :
          (h : Option String)
          → holder s k ≡ h
          → holder (claim_lease s r now p k c).0 t ≡ (if k == t then acquire c h else holder s t)
      split none e = ground (arith, holder-set_lease s r now k c t, eq_iff k t, e)
      split (some x) e = ground (arith, holder-set_lease s r now k c t, eq_iff k t, eq_iff x c, e)

  -- A claim takes the lock of a known target that is online if it is free, and changes no lock
  -- otherwise.
  pub on_claim-acquire :
      (now : ℕ) (p k t : String) (f : LeaseFrame)
      → given f.target_id ≡ some k
      → holder (on_claim s r now p f).0 t ≡ (
          if k == t && is_usable s r k
          then acquire (given_or f.controller_id p) (holder s t)
          else holder s t)
  unfolding on_claim is_usable
  on_claim-acquire now p k t f e =
      rw (e, on_claim)
        (elim (Option-cases (get_node s.ctx k)) [
          | inl u ↦ rw (u, claim_target) (ground arith)
          | inr (n, u) ↦
              rw (u, claim_target)
                (ground
                  (arith, claim_lease-acquire now p k (given_or f.controller_id p) t, eq_iff k t))
        ])

  release_lease-give_up :
      (k c t : String)
      → holder (release_lease s r k c).0 t ≡ (if k == t then give_up c (holder s t) else holder s t)
  unfolding release_lease give_up
  release_lease-give_up k c t = ground (arith, holder-drop_lease s r k t, eq_iff k t)

  -- A release gives the lock of its target up if it is held by the controller of the frame, which is the
  -- sender where the frame names none, and changes no lock otherwise.
  pub on_release-give_up :
      (p k t : String) (f : LeaseFrame)
      → given f.target_id ≡ some k
      → holder (on_release s r p f).0 t
        ≡ (if k == t then give_up (given_or f.controller_id p) (holder s t) else holder s t)
  unfolding on_release
  on_release-give_up p k t f e =
      rw (e, on_release) (release_lease-give_up k (given_or f.controller_id p) t)

  override_lease-give_up :
      (p k c t : String)
      → holder (override_lease s r p k c).0 t
        ≡ (if k == t && k == p then give_up c (holder s t) else holder s t)
  unfolding override_lease give_up
  override_lease-give_up p k c t = ground (arith, holder-drop_lease s r k t, eq_iff k t)

  -- Local input at a target takes its lock from the controller that the frame names; a frame for another
  -- node than its sender, or for a controller that is not the holder, changes no lock.
  pub on_local_input_override-give_up :
      (p k c t : String) (f : LeaseFrame)
      → given f.target_id ≡ some k
      → given f.controller_id ≡ some c
      → holder (on_local_input_override s r p f).0 t
        ≡ (if k == t && k == p then give_up c (holder s t) else holder s t)
  unfolding on_local_input_override
  on_local_input_override-give_up p k c t f e e' =
      rw (e, e', on_local_input_override) (override_lease-give_up p k c t)

  renew_lease-acquire :
      (now : ℕ) (k c t : String)
      → holder (renew_lease s r now k c).0 t
        ≡ (if k == t then acquire c (holder s t) else holder s t)
  unfolding renew_lease acquire
  renew_lease-acquire now k c t = split (holder s k) refl
    where
      split :
          (h : Option String)
          → holder s k ≡ h
          → holder (renew_lease s r now k c).0 t
            ≡ (if k == t then acquire c (holder s t) else holder s t)
      split none e = ground (arith, holder-set_lease s r now k c t, eq_iff k t, e)
      split (some x) e = ground (arith, holder-set_lease s r now k c t, eq_iff k t, eq_iff x c, e)

  drop_offline-give_up :
      (k c t : String)
      → holder (drop_offline s r k c).0 t ≡ (if k == t then give_up c (holder s t) else holder s t)
  unfolding drop_offline give_up
  drop_offline-give_up k c t = ground (arith, holder-drop_lease s r k t, eq_iff k t)

  -- A heartbeat takes the lock of a known target that is online if it is free, so a lost lease is
  -- restored; it gives up a lock that its controller holds on a known target that is offline, and
  -- changes no lock otherwise.
  pub on_heartbeat-lock :
      (now : ℕ) (p k t : String) (f : LeaseFrame)
      → given f.target_id ≡ some k
      → holder (on_heartbeat s r now p f).0 t ≡ (
          if k == t && is_known s k
          then (if target_is_online s r k
              then acquire (given_or f.controller_id p) (holder s t)
              else give_up (given_or f.controller_id p) (holder s t))
          else holder s t)
  unfolding on_heartbeat is_known
  on_heartbeat-lock now p k t f e =
      rw (e, on_heartbeat)
        (elim (Option-cases (get_node s.ctx k)) [
          | inl u ↦ rw (u, heartbeat_target) (ground arith)
          | inr (n, u) ↦
              rw (u, heartbeat_target)
                (ground (
                  arith,
                  renew_lease-acquire now k (given_or f.controller_id p) t,
                  drop_offline-give_up k (given_or f.controller_id p) t,
                  eq_iff k t,
                ))
        ])
