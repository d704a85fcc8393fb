-- ===== src/Coordination/Service/Leases/Renewal.antt =====
-- The lease that a heartbeat leaves.
use multi_controller.Prelude.{ℕ, ◌+◌, ◌≡◌, refl, ◌∙◌, true, some, String, eq_iff}
use multi_controller.Prelude.Text.{given, given_or}
use multi_controller.Prelude.Dict
use multi_controller.Prelude.Dict.{get-set}
use multi_controller.Context.{NodeInfo, get_node}
use multi_controller.Registry.{Registry}
use multi_controller.Coordination.Protocol.{default_lease_ttl_ms}
use multi_controller.Coordination.Service.{Service, Lease, target_is_online, holder}
use multi_controller.Coordination.Service.Leases.{
  LeaseFrame, set_lease, is_free_for, renew_lease, heartbeat_target, on_heartbeat,
}

-- The lease that a controller gets at a time.
abbrev pub fresh_lease : ℕ → String → Lease
fresh_lease now c = record { controller_id = c; expires_at = now + default_lease_ttl_ms }

module _ (s : Service) (r : Registry) where
  get-renew_lease :
      (now : ℕ) (k c : String)
      → is_free_for (holder s k) c ≡ true
      → Dict.get k (renew_lease s r now k c).0.leases ≡ some (fresh_lease now c)
  unfolding renew_lease set_lease
  get-renew_lease now k c free =
      rw free (get-set k k (fresh_lease now c) s.leases ∙ rw ((eq_iff k k).1 refl))

  pub get-on_heartbeat :
      (now : ℕ) (p k c : String) (n : NodeInfo) (f : LeaseFrame)
      → given f.target_id ≡ some k
      → given_or f.controller_id p ≡ c
      → get_node s.ctx k ≡ some n
      → target_is_online s r k ≡ true
      → is_free_for (holder s k) c ≡ true
      → Dict.get k (on_heartbeat s r now p f).0.leases ≡ some (fresh_lease now c)
  unfolding on_heartbeat
  get-on_heartbeat now p k c n f e e' u on free =
      rw (e, on_heartbeat)
        (rw (u, heartbeat_target)
          (rw on (rw e' (unfold renew_lease in get-renew_lease now k c free))))
