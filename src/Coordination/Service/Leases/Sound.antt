-- ===== src/Coordination/Service/Leases/Sound.antt =====
-- One outcome seen from one target: its lease does not pass from one controller to another, and a target
-- that can be reached knows its lease afterwards if it knew it before.
use multi_controller.Prelude.{
  ℕ, true, ◌≡◌, refl, sym, subst, ◌∙◌, inl, inr, Option, none, some, List, [], ◌++◌, String, ◌==◌,
  eq_iff, arith, Bool-cases, Option-cases, if◌then◌else◌,
}
use mathlib.Core.List.{append-nil}
use multi_controller.Prelude.Text.{given, given_or}
use multi_controller.Prelude.Dict.{
  HasUniqueKeys, get-set, get-delete, set-HasUniqueKeys, delete-HasUniqueKeys,
}
use multi_controller.Context.{get_node}
use multi_controller.Registry.{Registry}
use multi_controller.Coordination.Service.{
  Service, Lease, lease_expiry, Delivery, Outcome, send_lease_update, target_is_online, holder,
}
use multi_controller.Coordination.Service.Leases.{
  LeaseFrame, set_lease, drop_lease, send_deny, is_holder, is_free_for, claim_lease, claim_target,
  on_claim, release_lease, on_release, override_lease, on_local_input_override, renew_lease,
  drop_offline, heartbeat_target, on_heartbeat,
}
use multi_controller.Coordination.Service.Leases.View.{
  view, reaches, view-append, view-AllOther, view-send_lease_update, AllOther, reply-AllOther,
  send_deny-AllOther,
}

pub record IsSound (s : Service) (r : Registry) (t : String) (o : Outcome) : Type 0 where
  pub kept : (a b : String) → holder s t ≡ some a → holder o.0 t ≡ some b → a ≡ b
  pub synced : reaches s r t ≡ true → view t (holder s t) o.1 ≡ holder o.0 t
  pub unique : HasUniqueKeys s.leases → HasUniqueKeys o.0.leases

module _ (s : Service) (r : Registry) where
  pub holder-set_lease :
      (now : ℕ) (k c t : String)
      → holder (set_lease s r now k c) t ≡ (if k == t then some c else holder s t)
  unfolding holder set_lease
  holder-set_lease now k c t =
      let lease : Lease = record { controller_id = c; expires_at = lease_expiry now } in
      ground (arith, get-set k t lease s.leases, eq_iff k t)

  pub holder-drop_lease :
      (k t : String) → holder (drop_lease s r k) t ≡ (if k == t then none else holder s t)
  unfolding holder drop_lease
  holder-drop_lease k t = ground (arith, get-delete k t s.leases, eq_iff k t)

  set_lease-HasUniqueKeys :
      (now : ℕ) (k c : String)
      → HasUniqueKeys s.leases
      → HasUniqueKeys (set_lease s r now k c).leases
  unfolding set_lease
  set_lease-HasUniqueKeys now k c = set-HasUniqueKeys k _ s.leases

  drop_lease-HasUniqueKeys :
      (k : String) → HasUniqueKeys s.leases → HasUniqueKeys (drop_lease s r k).leases
  unfolding drop_lease
  drop_lease-HasUniqueKeys k = delete-HasUniqueKeys k s.leases

  -- Nothing about leases happens.
  pub quiet-IsSound :
      (t : String) (s' : Service) (ds : List Delivery)
      → holder s' t ≡ holder s t
      → (HasUniqueKeys s.leases → HasUniqueKeys s'.leases)
      → AllOther ds
      → IsSound s r t (s', ds)
  quiet-IsSound t s' ds same keys other = record {
    kept = λ a b h k. ground arith;
    synced = λ _. view-AllOther t (holder s t) ds other ∙ sym same;
    unique = keys;
  }

  -- A lease that is set for a controller which may have it, and announced.
  set-IsSound :
      (t : String) (now : ℕ) (k c : String) (ds : List Delivery)
      → is_free_for (holder s k) c ≡ true
      → AllOther ds
      → IsSound s r t (set_lease s r now k c, send_lease_update s r k (some c) ++ ds)
  set-IsSound t now k c ds free other = record {
    kept = λ a b h e. ground (arith, holder-set_lease now k c t, eq_iff k t, eq_iff a c);
    synced = λ on. ground (
      arith,
      holder-set_lease now k c t,
      eq_iff k t,
      view-append t (holder s t) (send_lease_update s r k (some c)) ds,
      view-send_lease_update s r t k (holder s t) (some c),
      view-AllOther t (view t (holder s t) (send_lease_update s r k (some c))) ds other,
    );
    unique = set_lease-HasUniqueKeys now k c;
  }

  -- A lease that its holder had is dropped, and the target hears of it.
  drop-IsSound :
      (t : String) (k : String) (ds : List Delivery)
      → AllOther ds
      → IsSound s r t (drop_lease s r k, send_lease_update s r k none ++ ds)
  drop-IsSound t k ds other = record {
    kept = λ a b h e. ground (arith, holder-drop_lease k t, eq_iff k t);
    synced = λ on. ground (
      arith,
      holder-drop_lease k t,
      eq_iff k t,
      view-append t (holder s t) (send_lease_update s r k none) ds,
      view-send_lease_update s r t k (holder s t) none,
      view-AllOther t (view t (holder s t) (send_lease_update s r k none)) ds other,
    );
    unique = drop_lease-HasUniqueKeys k;
  }

  -- A renewal by the holder is not announced, since nothing changes for the target.
  renew-IsSound :
      (t : String) (now : ℕ) (k c : String)
      → is_holder (holder s k) c ≡ true
      → IsSound s r t (set_lease s r now k c, [])
  renew-IsSound t now k c held =
      quiet-IsSound t (set_lease s r now k c) []
        (ground (arith, holder-set_lease now k c t, eq_iff k t, same (holder s k) held))
        (set_lease-HasUniqueKeys now k c) tt
    where
      same : (h : Option String) → is_holder h c ≡ true → h ≡ some c
      same none e = cc
      same (some x) e = ground (arith, eq_iff x c)

  deny-IsSound : (t p k c reason : String) → IsSound s r t (s, send_deny s r p k c reason)
  deny-IsSound t p k c reason =
      quiet-IsSound t s (send_deny s r p k c reason) refl (λ u. u)
        (send_deny-AllOther s r p k c reason)

  nothing-IsSound : (t : String) → IsSound s r t (s, [])
  nothing-IsSound t = quiet-IsSound t s [] refl (λ u. u) tt

  -- `[]` behind a lease update, as the lemmas above want it.
  alone :
      (t : String) (s' : Service) (ds : List Delivery)
      → IsSound s r t (s', ds ++ [])
      → IsSound s r t (s', ds)
  alone t s' ds h = subst (λ l. IsSound s r t (s', l)) (append-nil ds) h

  claim_lease-IsSound :
      (t : String) (now : ℕ) (p k c : String) → IsSound s r t (claim_lease s r now p k c)
  unfolding claim_lease
  claim_lease-IsSound t now p k c = elim (Bool-cases (is_free_for (holder s k) c)) [
    | inl free ↦ rw free (set-IsSound t now k c _ free (reply-AllOther s r p _ tt))
    | inr taken ↦ rw taken (deny-IsSound t p k c "held_by_other")
  ]

  claim_target-IsSound :
      (t : String) (now : ℕ) (p k c : String) → IsSound s r t (claim_target s r now p k c)
  unfolding claim_target
  claim_target-IsSound t now p k c = elim (Option-cases (get_node s.ctx k)) [
    | inl unknown ↦ rw (unknown, claim_target) (deny-IsSound t p k c "unknown_target")
    | inr (node, known) ↦
        rw (known, claim_target)
          (elim (Bool-cases (target_is_online s r k)) [
            | inl on ↦ rw on (claim_lease-IsSound t now p k c)
            | inr off ↦ rw off (deny-IsSound t p k c "target_offline")
          ])
  ]

  pub on_claim-IsSound :
      (t : String) (now : ℕ) (p : String) (f : LeaseFrame) → IsSound s r t (on_claim s r now p f)
  unfolding on_claim
  on_claim-IsSound t now p f = elim (Option-cases (given f.target_id)) [
    | inl e ↦ rw (e, on_claim) (nothing-IsSound t)
    | inr (k, e) ↦ rw (e, on_claim) (claim_target-IsSound t now p k (given_or f.controller_id p))
  ]

  release_lease-IsSound : (t k c : String) → IsSound s r t (release_lease s r k c)
  unfolding release_lease
  release_lease-IsSound t k c = elim (Bool-cases (is_holder (holder s k) c)) [
    | inl held ↦ rw held (alone t _ _ (drop-IsSound t k [] tt))
    | inr other ↦ rw other (nothing-IsSound t)
  ]

  pub on_release-IsSound : (t p : String) (f : LeaseFrame) → IsSound s r t (on_release s r p f)
  unfolding on_release
  on_release-IsSound t p f = elim (Option-cases (given f.target_id)) [
    | inl e ↦ rw (e, on_release) (nothing-IsSound t)
    | inr (k, e) ↦ rw (e, on_release) (release_lease-IsSound t k (given_or f.controller_id p))
  ]

  override_lease-IsSound : (t p k c : String) → IsSound s r t (override_lease s r p k c)
  unfolding override_lease
  override_lease-IsSound t p k c = elim (Bool-cases (k == p)) [
    | inl own ↦ rw own (elim (Bool-cases (is_holder (holder s k) c)) [
      | inl held ↦ rw held (drop-IsSound t k _ (send_deny-AllOther s r c k c "local_activity"))
      | inr other ↦ rw other (nothing-IsSound t)
    ])
    | inr foreign ↦ rw foreign (nothing-IsSound t)
  ]

  pub on_local_input_override-IsSound :
      (t p : String) (f : LeaseFrame) → IsSound s r t (on_local_input_override s r p f)
  unfolding on_local_input_override
  on_local_input_override-IsSound t p f = elim (Option-cases (given f.target_id)) [
    | inl e ↦ rw (e, on_local_input_override) (nothing-IsSound t)
    | inr (k, e) ↦
        rw (e, on_local_input_override)
          (elim (Option-cases (given f.controller_id)) [
            | inl e' ↦ rw e' (nothing-IsSound t)
            | inr (c, e') ↦ rw e' (override_lease-IsSound t p k c)
          ])
  ]

  renew_lease-IsSound :
      (t : String) (now : ℕ) (k c : String) → IsSound s r t (renew_lease s r now k c)
  unfolding renew_lease
  renew_lease-IsSound t now k c = elim (Bool-cases (is_free_for (holder s k) c)) [
    | inl free ↦ rw free (elim (Bool-cases (is_holder (holder s k) c)) [
      | inl held ↦ rw held (renew-IsSound t now k c held)
      | inr fresh ↦ rw fresh (alone t _ _ (set-IsSound t now k c [] free tt))
    ])
    | inr taken ↦ rw taken (nothing-IsSound t)
  ]

  drop_offline-IsSound : (t k c : String) → IsSound s r t (drop_offline s r k c)
  unfolding drop_offline
  drop_offline-IsSound t k c = elim (Bool-cases (is_holder (holder s k) c)) [
    | inl held ↦ rw held (drop-IsSound t k _ (send_deny-AllOther s r c k c "target_offline"))
    | inr other ↦ rw other (deny-IsSound t c k c "target_offline")
  ]

  heartbeat_target-IsSound :
      (t : String) (now : ℕ) (k c : String) → IsSound s r t (heartbeat_target s r now k c)
  unfolding heartbeat_target
  heartbeat_target-IsSound t now k c = elim (Option-cases (get_node s.ctx k)) [
    | inl unknown ↦ rw (unknown, heartbeat_target) (nothing-IsSound t)
    | inr (node, known) ↦
        rw (known, heartbeat_target)
          (elim (Bool-cases (target_is_online s r k)) [
            | inl on ↦ rw on (renew_lease-IsSound t now k c)
            | inr off ↦ rw off (drop_offline-IsSound t k c)
          ])
  ]

  pub on_heartbeat-IsSound :
      (t : String) (now : ℕ) (p : String) (f : LeaseFrame)
      → IsSound s r t (on_heartbeat s r now p f)
  unfolding on_heartbeat
  on_heartbeat-IsSound t now p f = elim (Option-cases (given f.target_id)) [
    | inl e ↦ rw (e, on_heartbeat) (nothing-IsSound t)
    | inr (k, e) ↦
        rw (e, on_heartbeat) (heartbeat_target-IsSound t now k (given_or f.controller_id p))
  ]
