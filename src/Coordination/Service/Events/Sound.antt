-- ===== src/Coordination/Service/Events/Sound.antt =====
-- A peer that connects, a peer that is lost and the sweep, seen from one target's lease.
use multi_controller.Prelude.{
  ℕ, ◌≡◌, refl, sym, ◌∙◌, ap, Bool, true, false, Option, none, some, List, [], ◌∷◌, String, ◌++◌,
  ◌==◌, eq_iff, arith, ltb, All-append, if_both, if◌then◌else◌,
}
use multi_controller.Prelude.Dict
use multi_controller.Prelude.Dict.{
  Dict, HasUniqueKeys, get-delete, get-retain, delete-HasUniqueKeys, retain-HasUniqueKeys,
}
use multi_controller.Registry.{Registry}
use multi_controller.Coordination.Service.{
  Service, Lease, Delivery, Outcome, send_lease_update, holder,
}
use multi_controller.Coordination.Service.LayoutEdit.{broadcast_layout_state}
use multi_controller.Coordination.Service.Leases.View.{
  view, reaches, view-append, view-AllOther, view-send_lease_update, AllOther, send_deny-AllOther,
  broadcast-AllOther,
}
use multi_controller.Coordination.Service.Leases.Sound.{IsSound}
use multi_controller.Coordination.Service.Leases.Stamped.{
  IsStamped, AllStamped, AllStamped-AllOther, send_lease_update-AllStamped, then_do-IsStamped,
}
use multi_controller.Coordination.Service.Leases.Quiet.{IsQuiet, then_do-IsQuiet, then_do-IsSound}
use multi_controller.Coordination.Service.Updates.Quiet.{
  dispatch_next_update_check_candidate-IsQuiet,
}
use multi_controller.Coordination.Service.Downloads.Quiet.{
  dispatch_next_update_download_candidate-IsQuiet,
}
use multi_controller.Coordination.Service.Events.{
  is_editing, lose_node, lost_lease, retry_check, retry_downloads, retry_all, on_unbound, sweep,
  expired_updates, expire_once,
}

module _ (r : Registry) (now : ℕ) where
  pub retry_check-IsQuiet : (wanted : Bool) (s : Service) → IsQuiet s (retry_check r now wanted s)
  unfolding retry_check
  retry_check-IsQuiet true s = dispatch_next_update_check_candidate-IsQuiet s r now
  retry_check-IsQuiet false s = record { leases = refl; epoch = refl; others = tt }

  pub retry_downloads-IsQuiet :
      (keys : List String) (s : Service) → IsQuiet s (retry_downloads r now keys s)
  unfolding retry_downloads
  retry_downloads-IsQuiet [] s = record { leases = refl; epoch = refl; others = tt }
  retry_downloads-IsQuiet (k ∷ ks) s =
      then_do-IsQuiet s _ _ (dispatch_next_update_download_candidate-IsQuiet s r now k)
        (retry_downloads-IsQuiet ks)

  -- The candidates that are asked anew do not touch the leases.
  retry_all-IsSound :
      (s : Service) (t : String) (wanted : Bool) (keys : List String) (o : Outcome)
      → IsSound s r t o
      → IsSound s r t (retry_all r now wanted keys o)
  unfolding retry_all
  retry_all-IsSound s t wanted keys o sound =
      then_do-IsSound s r t _ (retry_downloads r now keys)
        (then_do-IsSound s r t o (retry_check r now wanted) sound (retry_check-IsQuiet wanted))
        (retry_downloads-IsQuiet keys)

  holder-lose_node :
      (s : Service) (node t : String)
      → holder (lose_node r now s node) t ≡ (if node == t then none else holder s t)
  unfolding holder lose_node
  holder-lose_node s node t = ground (arith, get-delete node t s.leases, eq_iff node t)

  lost_frames : Service → String → List Delivery
  lost_frames s node =
      (if is_editing s.layout_editor_id node
        then broadcast_layout_state (lose_node r now s node) r
        else [])
      ++ lost_lease r now s node (holder s node)

  announced-AllOther :
      (s s' : Service) (b : Bool) → AllOther (if b then broadcast_layout_state s' r else [])
  unfolding broadcast_layout_state
  announced-AllOther s s' true = broadcast-AllOther s' r _ tt
  announced-AllOther s s' false = tt

  view-lost_lease :
      (s : Service) (node t : String) (known : Option String) (h : Option String)
      → h ≡ holder s node
      → reaches s r t ≡ true
      → known ≡ holder s t
      → view t known (lost_lease r now s node h) ≡ (if node == t then none else known)
  unfolding lost_lease
  view-lost_lease s node t known none e on k = unfold view in ground (arith, eq_iff node t)
  view-lost_lease s node t known (some c) e on k =
      view-append t known (send_lease_update s r node none) _
      ∙ view-AllOther t _ _ (send_deny-AllOther s r c node c "target_offline")
      ∙ view-send_lease_update s r t node known none
      ∙ rw on (ground arith)

  lose_node-IsSound :
      (s : Service) (node t : String) → IsSound s r t (lose_node r now s node, lost_frames s node)
  unfolding lost_frames
  lose_node-IsSound s node t = record {
    kept = λ a b h e. ground (arith, holder-lose_node s node t, eq_iff node t);
    synced = λ on.
        view-append t (holder s t) _ (lost_lease r now s node (holder s node))
        ∙ ap (λ k. view t k (lost_lease r now s node (holder s node)))
            (view-AllOther t (holder s t) _
              (announced-AllOther s (lose_node r now s node) (is_editing s.layout_editor_id node)))
        ∙ view-lost_lease s node t (holder s t) (holder s node) refl on refl
        ∙ sym (holder-lose_node s node t);
    unique = unfold lose_node in delete-HasUniqueKeys node s.leases;
  }

  pub on_unbound-IsSound : (s : Service) (node t : String) → IsSound s r t (on_unbound r now s node)
  unfolding on_unbound lost_frames
  on_unbound-IsSound s node t = retry_all-IsSound s t _ _ _ (lose_node-IsSound s node t)

  -- What the sweep leaves of a lease that the target knows.
  abbrev swept : Option String → Option Lease → Option String
  swept known none = known
  swept known (some l) = if ltb now l.expires_at then known else none

  view-expired_updates :
      (s : Service) (t : String) (known : Option String) (ls : Dict Lease)
      → HasUniqueKeys ls
      → reaches s r t ≡ true
      → view t known (expired_updates r now s ls) ≡ swept known (Dict.get t ls)
  unfolding expired_updates Dict.get
  view-expired_updates s t known [] u on = unfold view in refl
  view-expired_updates s t known ((k, l) ∷ ls) u on = ground (
    arith,
    eq_iff k t,
    view-append t known (send_lease_update s r k none) (expired_updates r now s ls),
    view-send_lease_update s r t k known none,
    view-expired_updates s t known ls u.1 on,
    view-expired_updates s t none ls u.1 on,
  )

  holder-sweep :
      (s : Service) (t : String)
      → HasUniqueKeys s.leases
      → holder (sweep r now s) t ≡ swept (holder s t) (Dict.get t s.leases)
  unfolding holder sweep
  holder-sweep s t u = ground (arith, get-retain (λ k l. ltb now l.expires_at) t s.leases u)

  sweep-IsSound :
      (s : Service) (t : String)
      → HasUniqueKeys s.leases
      → IsSound s r t (sweep r now s, expired_updates r now s s.leases)
  sweep-IsSound s t u = record {
    kept = λ a b h e. ground (arith, holder-sweep s t u);
    synced = λ on. view-expired_updates s t (holder s t) s.leases u on ∙ sym (holder-sweep s t u);
    unique = unfold sweep in retain-HasUniqueKeys (λ k l. ltb now l.expires_at) s.leases;
  }

  pub expire_once-IsSound :
      (s : Service) (t : String) → HasUniqueKeys s.leases → IsSound s r t (expire_once r now s)
  unfolding expire_once
  expire_once-IsSound s t u = retry_all-IsSound s t _ _ _ (sweep-IsSound s t u)

  retry_all-IsStamped :
      (s : Service) (wanted : Bool) (keys : List String) (o : Outcome)
      → IsStamped s o
      → IsStamped s (retry_all r now wanted keys o)
  unfolding retry_all
  retry_all-IsStamped s wanted keys o h =
      then_do-IsStamped s _ (retry_downloads r now keys)
        (then_do-IsStamped s o (retry_check r now wanted) h (retry_check-IsQuiet wanted))
        (retry_downloads-IsQuiet keys)

  lost_lease-AllStamped :
      (s : Service) (node : String) (h : Option String)
      → AllStamped s.coordinator_epoch (lost_lease r now s node h)
  unfolding lost_lease
  lost_lease-AllStamped s node none = tt
  lost_lease-AllStamped s node (some c) =
      All-append _ (send_lease_update s r node none) _ (send_lease_update-AllStamped s r node none)
        (AllStamped-AllOther s.coordinator_epoch _
          (send_deny-AllOther s r c node c "target_offline"))

  pub on_unbound-IsStamped : (s : Service) (node : String) → IsStamped s (on_unbound r now s node)
  unfolding on_unbound lose_node
  on_unbound-IsStamped s node = retry_all-IsStamped s _ _ _ record {
    epoch = refl;
    frames =
        All-append _ _ (lost_lease r now s node (holder s node))
          (AllStamped-AllOther s.coordinator_epoch _
            (announced-AllOther s (lose_node r now s node) (is_editing s.layout_editor_id node)))
          (lost_lease-AllStamped s node (holder s node));
  }

  expired_updates-AllStamped :
      (s : Service) (ls : Dict Lease) → AllStamped s.coordinator_epoch (expired_updates r now s ls)
  unfolding expired_updates
  expired_updates-AllStamped s [] = tt
  expired_updates-AllStamped s ((k, l) ∷ ls) =
      if_both (AllStamped s.coordinator_epoch) (ltb now l.expires_at) _ _
        (expired_updates-AllStamped s ls)
        (All-append _ (send_lease_update s r k none) _ (send_lease_update-AllStamped s r k none)
          (expired_updates-AllStamped s ls))

  pub expire_once-IsStamped : (s : Service) → IsStamped s (expire_once r now s)
  unfolding expire_once sweep
  expire_once-IsStamped s =
      retry_all-IsStamped s _ _ _
        record { epoch = refl; frames = expired_updates-AllStamped s s.leases }
