-- ===== src/Tests/Leases.antt =====
-- The lease of the laptop, which the desk controls.
use multi_controller.Prelude.{
  String, subst, true, arith, ◌+◌, ◌&&◌, ◌≡◌, refl, none, some, ◌==◌, ltb, All, if◌then◌else◌,
}
use multi_controller.Prelude.Text.{given, given_or}
use multi_controller.Prelude.Dict
use multi_controller.Prelude.Dict.{filtered}
use multi_controller.Context.{get_node}
use multi_controller.Registry
use multi_controller.Coordination.Protocol.{Frame, default_lease_ttl_ms}
use multi_controller.Coordination.Service.{holder, reply, target_is_online}
use multi_controller.Coordination.Service.Leases.{on_claim, on_local_input_override, on_heartbeat}
use multi_controller.Coordination.Service.Leases.Rules.{
  acquire, give_up, is_usable, is_known, on_claim-acquire, on_local_input_override-give_up,
  on_heartbeat-lock,
}
use multi_controller.Coordination.Service.Leases.Grants.{IsTruthful, IsReached, on_claim-IsTruthful}
use multi_controller.Coordination.Service.Events.{expire_once}
use multi_controller.Coordination.Service.Events.Expiry.{get-expire_once, expire_once-on_heartbeat}
use multi_controller.Tests.Samples.{laptop, desk_registry, leased, lease_frame, bare_frame}

-- The tower claims the laptop, which the desk holds.
on_claim-acquire_example :
    holder (on_claim leased desk_registry 100 "tower" (bare_frame "laptop")).0 "laptop" ≡ (
      if "laptop" == "laptop" && is_usable leased desk_registry "laptop"
      then acquire "tower" (holder leased "laptop")
      else holder leased "laptop")
unfolding given given_or
on_claim-acquire_example =
    on_claim-acquire leased desk_registry 100 "tower" "laptop" "laptop" (bare_frame "laptop") refl

on_local_input_override-give_up_example :
    holder
      (on_local_input_override leased desk_registry "laptop" (lease_frame "laptop" "desk")).0
      "laptop"
    ≡ (if "laptop" == "laptop" && "laptop" == "laptop"
        then give_up "desk" (holder leased "laptop")
        else holder leased "laptop")
unfolding given
on_local_input_override-give_up_example =
    on_local_input_override-give_up leased desk_registry "laptop" "laptop" "desk" "laptop"
      (lease_frame "laptop" "desk") refl refl

on_heartbeat-lock_example :
    holder (on_heartbeat leased desk_registry 100 "tower" (bare_frame "laptop")).0 "laptop" ≡ (
      if "laptop" == "laptop" && is_known leased "laptop"
      then (if target_is_online leased desk_registry "laptop"
          then acquire "tower" (holder leased "laptop")
          else give_up "tower" (holder leased "laptop"))
      else holder leased "laptop")
unfolding given given_or
on_heartbeat-lock_example =
    on_heartbeat-lock leased desk_registry 100 "tower" "laptop" "laptop" (bare_frame "laptop") refl

takes_all : (f : Frame) → (reply leased desk_registry "laptop" f).1 ≡ true
unfolding reply Registry.get Dict.get
takes_all f = refl

laptop-IsReached :
    (k : String) → given (bare_frame "laptop").target_id ≡ some k → IsReached leased desk_registry k
unfolding given
laptop-IsReached k e =
    subst (IsReached leased desk_registry) (some_injective "laptop" k e) (λ on. takes_all)
  where
    some_injective : (a b : String) → some a ≡ some b → a ≡ b
    some_injective a b h = ground arith

on_claim-IsTruthful_example :
    All
      (IsTruthful
        (on_claim leased desk_registry 100 "desk" (bare_frame "laptop")).0
        (on_claim leased desk_registry 100 "desk" (bare_frame "laptop")).1)
      (on_claim leased desk_registry 100 "desk" (bare_frame "laptop")).1
on_claim-IsTruthful_example =
    on_claim-IsTruthful leased desk_registry 100 "desk" (bare_frame "laptop") laptop-IsReached

-- At 5000 the lease of the sample runs out.
get-expire_once_example :
    Dict.get "laptop" (expire_once desk_registry 5000 leased).0.leases
    ≡ filtered (λ l. ltb 5000 l.expires_at) (Dict.get "laptop" leased.leases)
get-expire_once_example =
    get-expire_once desk_registry 5000 leased "laptop" (unfold Dict.get in (refl, tt))

-- Renewed at 4000, it is still there at 5000.
expire_once-on_heartbeat_example :
    holder
      (expire_once desk_registry 5000
        (on_heartbeat leased desk_registry 4000 "desk" (bare_frame "laptop")).0).0
      "laptop"
    ≡ (if ltb 5000 (4000 + default_lease_ttl_ms) then some "desk" else none)
unfolding Dict.get given given_or get_node target_is_online Registry.get holder
expire_once-on_heartbeat_example =
    expire_once-on_heartbeat leased desk_registry desk_registry 4000 5000 "desk" "laptop" "desk"
      laptop (bare_frame "laptop") (refl, tt) refl refl refl refl refl
