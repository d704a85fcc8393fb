-- ===== src/Coordination/Service/Leases/View.antt =====
-- What a target knows of its own lease: the controller in the last lease update that reached it.
use multi_controller.Prelude.{
  Bool, false, ◌&&◌, ◌||◌, ◌≡◌, refl, Option, none, some, List, [], ◌∷◌, ◌++◌, String, ◌==◌, eq_iff,
  arith, All, All-append, if◌then◌else◌,
}
use multi_controller.Registry
use multi_controller.Registry.{Registry, Conn}
use multi_controller.Coordination.Protocol.{Frame, grant, lease_update}
use multi_controller.Coordination.Service.{
  Service, Delivery, self_id, reply, send_lease_update, broadcast, to_peers,
}
use multi_controller.Coordination.Service.Leases.{send_deny}

-- A frame for the target itself that names its controller changes what it knows.
unfoldable pub seen : String → Option String → Delivery → Option String
seen t known (peer, lease_update target controller e ttl) =
    if peer == t && target == t then controller else known
seen t known (peer, grant a b c d) = known
seen t known (peer, frame) = known

unfoldable pub view : String → Option String → List Delivery → Option String
view t known [] = known
view t known (d ∷ ds) = view t (seen t known d) ds

abbrev accepts : Option Conn → Bool
accepts none = false
accepts (some conn) = conn.accepts

-- A frame that is sent to the node now is delivered.
unfoldable pub reaches : Service → Registry → String → Bool
reaches s r t = t == self_id s || accepts (Registry.get r t)

pub view-append :
    (t : String) (known : Option String) (xs ys : List Delivery)
    → view t known (xs ++ ys) ≡ view t (view t known xs) ys
unfolding view
view-append t known [] ys = refl
view-append t known (x ∷ xs) ys = view-append t (seen t known x) xs ys

-- The frame says nothing of a lease.
abbrev pub IsOther : Frame → Type 0
IsOther (lease_update a b c d) = ⊥
IsOther (grant a b c d) = Unit
IsOther _ = Unit

seen-other :
    (t : String) (known : Option String) (p : String) (f : Frame)
    → IsOther f
    → seen t known (p, f) ≡ known
unfolding seen
seen-other t known p (lease_update a b c d) h = absurd h
seen-other t known p (grant a b c d) h = refl
seen-other t known p _ h = refl

-- None of the frames says anything of a lease.
abbrev pub AllOther : List Delivery → Type 0
AllOther = All (λ d. IsOther d.1)

pub view-AllOther :
    (t : String) (known : Option String) (ds : List Delivery)
    → AllOther ds
    → view t known ds ≡ known
unfolding view
view-AllOther t known [] h = refl
view-AllOther t known ((p, f) ∷ ds) h =
    rw (seen-other t known p f h.0) (view-AllOther t known ds h.1)

module _ (s : Service) (r : Registry) where
  pub reply-AllOther : (p : String) (f : Frame) → IsOther f → AllOther (reply s r p f).0
  unfolding reply
  reply-AllOther p f h = ground arith

  pub send_deny-AllOther : (p t c reason : String) → AllOther (send_deny s r p t c reason)
  unfolding send_deny
  send_deny-AllOther p t c reason = ground arith

  to_peers-AllOther : (conns : Registry) (f : Frame) → IsOther f → AllOther (to_peers conns f)
  unfolding to_peers
  to_peers-AllOther [] f h = tt
  to_peers-AllOther ((k, conn) ∷ rest) f h =
      All-append _ _ _ (ground arith) (to_peers-AllOther rest f h)

  pub broadcast-AllOther : (f : Frame) → IsOther f → AllOther (broadcast s r f)
  unfolding broadcast
  broadcast-AllOther f h = (h, to_peers-AllOther r f h)

  -- A lease update for a target that can be reached is what the target then knows.
  pub view-send_lease_update :
      (t k : String) (known c : Option String)
      → view t known (send_lease_update s r k c) ≡ (if k == t && reaches s r t then c else known)
  unfolding view seen send_lease_update reaches
  view-send_lease_update t k known c = ground (arith, eq_iff k t)
