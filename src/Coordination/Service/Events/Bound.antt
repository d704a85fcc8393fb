-- ===== src/Coordination/Service/Events/Bound.antt =====
-- The frames to a peer that has just connected tell it its own lease and nothing else about leases.
use multi_controller.Prelude.{
  ◌≡◌, refl, ◌∙◌, Bool, true, false, Option, none, some, List, [], ◌∷◌, String, eq_iff, arith, All,
  All-append,
}
use multi_controller.Prelude.Dict.{Dict}
use multi_controller.Context.{NodeInfo, get_node}
use multi_controller.Registry.{Registry}
use multi_controller.Display.Layout.{LayoutConfig}
use multi_controller.Display.Inventory.{MonitorInventorySnapshot}
use multi_controller.Coordination.Protocol.{Frame}
use multi_controller.Coordination.Service.{Service, holder}
use multi_controller.Coordination.Service.Leases.View.{
  view, reaches, view-append, view-AllOther, view-send_lease_update, AllOther, IsOther,
  reply-AllOther,
}
use multi_controller.Coordination.Service.Leases.Sound.{IsSound}
use multi_controller.Coordination.Service.Leases.Stamped.{
  IsStamped, AllStamped, AllStamped-AllOther, send_lease_update-AllStamped,
}
use multi_controller.Coordination.Service.Events.{
  on_bound, monitor_frames, coordinator_frames, layout_frames, reply_frames, lease_frames,
  layout_frame,
}

module _ (s : Service) (r : Registry) (resolver : Option (Option NodeInfo)) where
  abbrev Others : List Frame → Type 0
  Others = All IsOther

  reply_frames-AllOther :
      (p : String) (fs : List Frame) → Others fs → AllOther (reply_frames s r resolver p fs)
  unfolding reply_frames
  reply_frames-AllOther p [] h = tt
  reply_frames-AllOther p (f ∷ fs) h =
      All-append _ _ _ (reply-AllOther s r p f h.0) (reply_frames-AllOther p fs h.1)

  layout_frames-Others :
      (wanted bootstrap : Bool) (layout : Option LayoutConfig)
      → Others (layout_frames s r resolver wanted bootstrap layout)
  unfolding layout_frame
  layout_frames-Others wanted bootstrap none = tt
  layout_frames-Others true bootstrap (some layout) = (tt, tt)
  layout_frames-Others false bootstrap (some layout) = tt

  monitor_frames-Others :
      (m : Dict MonitorInventorySnapshot) → Others (monitor_frames s r resolver m)
  unfolding monitor_frames
  monitor_frames-Others [] = tt
  monitor_frames-Others ((k, snapshot) ∷ m) = (tt, monitor_frames-Others m)

  coordinator_frames-Others : (b : Bool) → Others (coordinator_frames s r resolver b)
  coordinator_frames-Others false = tt
  coordinator_frames-Others true = (
    tt,
    (
      tt,
      All-append _ _ _ (layout_frames-Others true false s.ctx.layout)
          (monitor_frames-Others s.monitor_inventories),
    ),
  )

  view-lease_frames :
      (p t : String) (node : Option NodeInfo)
      → reaches s r t ≡ true
      → view t (holder s t) (lease_frames s r resolver p node) ≡ holder s t
  unfolding lease_frames
  view-lease_frames p t none on = unfold view in refl
  view-lease_frames p t (some node) on =
      ground (arith, eq_iff p t, view-send_lease_update s r t p (holder s t) (holder s p))

  pub on_bound-IsSound : (p t : String) → IsSound s r t (on_bound s r resolver p)
  unfolding on_bound
  on_bound-IsSound p t = record {
    kept = λ a b h e. ground arith;
    synced = λ on.
        view-append t (holder s t) (lease_frames s r resolver p (get_node s.ctx p)) _
        ∙ view-AllOther t _ _ (
            reply_frames-AllOther p _ (
              All-append _ _ _ (layout_frames-Others _ true s.ctx.layout)
                (coordinator_frames-Others _)))
        ∙ view-lease_frames p t (get_node s.ctx p) on;
    unique = λ u. u;
  }

  lease_frames-AllStamped :
      (p : String) (node : Option NodeInfo)
      → AllStamped s.coordinator_epoch (lease_frames s r resolver p node)
  unfolding lease_frames
  lease_frames-AllStamped p none = tt
  lease_frames-AllStamped p (some node) = send_lease_update-AllStamped s r p (holder s p)

  pub on_bound-IsStamped : (p : String) → IsStamped s (on_bound s r resolver p)
  unfolding on_bound
  on_bound-IsStamped p = record {
    epoch = refl;
    frames =
        All-append _ (lease_frames s r resolver p (get_node s.ctx p)) _
          (lease_frames-AllStamped p (get_node s.ctx p))
          (AllStamped-AllOther s.coordinator_epoch _ (
            reply_frames-AllOther p _ (
              All-append _ _ _ (layout_frames-Others _ true s.ctx.layout)
                (coordinator_frames-Others _))));
  }
