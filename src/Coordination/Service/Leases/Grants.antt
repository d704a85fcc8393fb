-- ===== src/Coordination/Service/Leases/Grants.antt =====
-- What a claim tells the nodes is true of the leases that it leaves.
use multi_controller.Prelude.{
  ℕ, ◌≡◌, inl, inr, Bool-cases, some, Option-cases, String, eq_iff, arith, All, All-append, List,
  true, In, In-left,
}
use multi_controller.Prelude.Text.{given, given_or}
use multi_controller.Context.{get_node}
use multi_controller.Registry.{Registry}
use multi_controller.Coordination.Protocol.{Frame, grant, lease_update}
use multi_controller.Coordination.Service.{
  Service, Delivery, make_lease_update_frame, reply, reply-In, send_lease_update, target_is_online,
  holder,
}
use multi_controller.Coordination.Service.Leases.{
  LeaseFrame, set_lease, send_deny, is_free_for, claim_lease, claim_target, on_claim,
}
use multi_controller.Coordination.Service.Leases.Sound.{holder-set_lease}

-- A lease update names the holder of the lease. So does a grant, and the target has been told of it among the frames.
abbrev pub IsTruthful : Service → List Delivery → Delivery → Type 0
IsTruthful s sent (p, grant k c e ttl) =
    (holder s k ≡ some c) × In (k, make_lease_update_frame s k (some c)) sent
IsTruthful s sent (p, lease_update k c e ttl) = holder s k ≡ c
IsTruthful s sent _ = Unit

-- If the target is online, its connection takes what it is sent.
abbrev pub IsReached : Service → Registry → String → Type 0
IsReached s r k = target_is_online s r k ≡ true → (f : Frame) → (reply s r k f).1 ≡ true

module _ (s : Service) (r : Registry) where
  reply-IsTruthful :
      (s' : Service) (sent : List Delivery) (p : String) (f : Frame)
      → IsTruthful s' sent (p, f)
      → All (IsTruthful s' sent) (reply s r p f).0
  unfolding reply
  reply-IsTruthful s' sent p f h = ground arith

  deny-IsTruthful :
      (s' : Service) (sent : List Delivery) (p k c reason : String)
      → All (IsTruthful s' sent) (send_deny s r p k c reason)
  unfolding send_deny
  deny-IsTruthful s' sent p k c reason = reply-IsTruthful s' sent p _ tt

  claim_lease-IsTruthful :
      (now : ℕ) (p k c : String)
      → ((f : Frame) → (reply s r k f).1 ≡ true)
      → let o = claim_lease s r now p k c in All (IsTruthful o.0 o.1) o.1
  unfolding claim_lease send_lease_update make_lease_update_frame
  claim_lease-IsTruthful now p k c reached = elim (Bool-cases (is_free_for (holder s k) c)) [
    | inl free ↦ rw free (
        All-append _ _ _ (reply-IsTruthful _ _ k _ set) (
          reply-IsTruthful _ _ p _ (
            set,
            In-left _ _ _ (reply-In s r k (make_lease_update_frame s k (some c)) (reached _)),
          )))
    | inr taken ↦ rw taken (deny-IsTruthful s _ p k c "held_by_other")
  ]
    where
      set : holder (set_lease s r now k c) k ≡ some c
      set = ground (arith, holder-set_lease s r now k c k, eq_iff k k)

  -- For a claim of a target that takes what it is sent, if it is online: every grant and every lease update that the
  -- claim sends names the holder that the claim leaves, and a grant is sent only together with the update that tells
  -- the target of its new controller.
  pub on_claim-IsTruthful :
      (now : ℕ) (p : String) (f : LeaseFrame)
      → ((k : String) → given f.target_id ≡ some k → IsReached s r k)
      → let o = on_claim s r now p f in All (IsTruthful o.0 o.1) o.1
  unfolding on_claim
  on_claim-IsTruthful now p f reached = elim (Option-cases (given f.target_id)) [
    | inl e ↦ rw (e, on_claim) tt
    | inr (k, e) ↦
        rw (e, on_claim)
          (elim (Option-cases (get_node s.ctx k)) [
            | inl u ↦ rw (u, claim_target) (deny-IsTruthful s _ p k _ "unknown_target")
            | inr (n, u) ↦
                rw (u, claim_target)
                  (elim (Bool-cases (target_is_online s r k)) [
                    | inl on ↦ rw on (
                        claim_lease-IsTruthful now p k (given_or f.controller_id p)
                          (reached k e on))
                    | inr off ↦ rw off (deny-IsTruthful s _ p k _ "target_offline")
                  ])
          ])
  ]
