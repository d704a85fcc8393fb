-- ===== src/Coordination/Service/Events/Expiry.antt =====
-- Which leases the sweep leaves, and how long a heartbeat keeps a lease alive.
use multi_controller.Prelude.{
  ℕ, ◌+◌, ◌≡◌, ◌∙◌, ap, Bool, true, none, some, List, String, arith, ltb, if◌then◌else◌,
}
use multi_controller.Prelude.Text.{given, given_or}
use multi_controller.Prelude.Dict
use multi_controller.Prelude.Dict.{Dict, HasUniqueKeys, get-set, get-retain, filtered}
use multi_controller.Context.{NodeInfo, get_node}
use multi_controller.Registry.{Registry}
use multi_controller.Coordination.Protocol.{default_lease_ttl_ms}
use multi_controller.Coordination.Service.{Service, Outcome, target_is_online, holder, ◌then_do◌}
use multi_controller.Coordination.Service.Leases.{LeaseFrame, is_free_for, on_heartbeat}
use multi_controller.Coordination.Service.Leases.Renewal.{get-on_heartbeat}
use multi_controller.Coordination.Service.Leases.Sound.{on_heartbeat-IsSound}
use multi_controller.Coordination.Service.Events.{
  retry_check, retry_all, sweep, expire_once, check_timed_out, timed_out, job_keys, expired_updates,
  update_download_candidate_timeout_ms,
}
use multi_controller.Coordination.Service.Events.Sound.{
  retry_check-IsQuiet, retry_downloads-IsQuiet,
}

module _ (r : Registry) (now : ℕ) where
  leases-retry_all :
      (wanted : Bool) (keys : List String) (o : Outcome)
      → (retry_all r now wanted keys o).0.leases ≡ o.0.leases
  unfolding retry_all
  leases-retry_all wanted keys o =
      (retry_downloads-IsQuiet r now keys (o then_do retry_check r now wanted).0).leases
      ∙ (retry_check-IsQuiet r now wanted o.0).leases

  -- From leases with one entry for each target, the sweep removes exactly the leases whose time has
  -- come, and leaves every other as it is.
  pub get-expire_once :
      (s : Service) (t : String)
      → HasUniqueKeys s.leases
      → Dict.get t (expire_once r now s).0.leases
        ≡ filtered (λ l. ltb now l.expires_at) (Dict.get t s.leases)
  unfolding expire_once sweep
  get-expire_once s t u =
      ap (Dict.get t) (
        leases-retry_all (check_timed_out r now s.update_check_inflight)
          (job_keys (λ d. timed_out r now update_download_candidate_timeout_ms d.job)
            s.update_download_jobs)
          (sweep r now s, expired_updates r now s s.leases))
      ∙ get-retain (λ k l. ltb now l.expires_at) t s.leases u

-- From leases with one entry for each target, a heartbeat for a known target that is online, and that
-- nobody else holds, keeps its lease through every sweep before the time to live has passed since, and
-- through none after that.
pub expire_once-on_heartbeat :
    (s : Service) (r r' : Registry) (now later : ℕ) (p k c : String) (n : NodeInfo) (f : LeaseFrame)
    → HasUniqueKeys s.leases
    → given f.target_id ≡ some k
    → given_or f.controller_id p ≡ c
    → get_node s.ctx k ≡ some n
    → target_is_online s r k ≡ true
    → is_free_for (holder s k) c ≡ true
    → holder (expire_once r' later (on_heartbeat s r now p f).0).0 k
      ≡ (if ltb later (now + default_lease_ttl_ms) then some c else none)
unfolding holder
expire_once-on_heartbeat s r r' now later p k c n f u e e' known on free = ground (
  arith,
  get-expire_once r' later (on_heartbeat s r now p f).0 k
      ((on_heartbeat-IsSound s r k now p f).unique u),
  get-on_heartbeat s r now p k c n f e e' known on free,
)
