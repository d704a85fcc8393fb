-- ===== src/Coordination/Service/LayoutEdit/Quiet.antt =====
-- The layout handlers leave the leases alone.
use multi_controller.Prelude.{
  refl, inl, inr, Bool, Bool-cases, Option, none, some, List, [], ◌∷◌, String, All-append,
}
use multi_controller.Prelude.Text.{given_or, strip, text_of}
use multi_controller.Registry.{Registry}
use multi_controller.Display.Layout.{LayoutConfig, find_overlapping_nodes}
use multi_controller.Coordination.Service.{Service}
use multi_controller.Coordination.Service.Leases.View.{reply-AllOther, broadcast-AllOther}
use multi_controller.Coordination.Service.Leases.Quiet.{IsQuiet}
use multi_controller.Coordination.Service.LayoutEdit.{
  RawLayout, not_an_object, refused, builds, held_by_other, is_editor, with_editor,
  on_layout_edit_begin, on_layout_edit_end, publish_layout, on_layout_update, switch_layout,
  on_auto_switch_update_request,
}

module _ (s : Service) (r : Registry) where
  nothing : IsQuiet s (s, [])
  nothing = record { leases = refl; epoch = refl; others = tt }

  pub on_layout_edit_begin-IsQuiet :
      (p : String) (e : Option String) → IsQuiet s (on_layout_edit_begin s r p e)
  unfolding on_layout_edit_begin
  on_layout_edit_begin-IsQuiet p e =
      elim (Bool-cases (held_by_other s.layout_editor_id (given_or e p))) [
        | inl taken ↦
            rw taken (record { leases = refl; epoch = refl; others = reply-AllOther s r p _ tt })
        | inr free ↦ rw free (record {
          leases = refl;
          epoch = refl;
          others =
              All-append _ _ _ (reply-AllOther s r p _ tt)
                (broadcast-AllOther (with_editor s (some (given_or e p))) r _ tt);
        })
      ]

  pub on_layout_edit_end-IsQuiet :
      (p : String) (e : Option String) → IsQuiet s (on_layout_edit_end s r p e)
  unfolding on_layout_edit_end
  on_layout_edit_end-IsQuiet p e = elim (Bool-cases (is_editor s.layout_editor_id (given_or e p))) [
    | inl own ↦ rw own (record {
      leases = refl;
      epoch = refl;
      others = broadcast-AllOther (with_editor s none) r _ tt;
    })
    | inr other ↦ rw other nothing
  ]

  publish_layout-IsQuiet :
      (layout : LayoutConfig) (e : String) (persist : Bool) (pairs : List (String × String))
      → IsQuiet s (publish_layout s r layout e persist pairs)
  unfolding publish_layout
  publish_layout-IsQuiet layout e persist [] = record {
    leases = refl;
    epoch = refl;
    others = broadcast-AllOther s r _ tt;
  }
  publish_layout-IsQuiet layout e persist (pair ∷ pairs) = nothing

  pub on_layout_update-IsQuiet :
      (p : String) (e : Option String) (raw : RawLayout) (persist : Bool)
      → IsQuiet s (on_layout_update s r p e raw persist)
  unfolding on_layout_update
  on_layout_update-IsQuiet p e not_an_object persist = nothing
  on_layout_update-IsQuiet p e refused persist = nothing
  on_layout_update-IsQuiet p e (builds layout) persist =
      elim (Bool-cases (is_editor s.layout_editor_id (given_or e p))) [
        | inl own ↦
            rw own
              (publish_layout-IsQuiet layout (given_or e p) persist (find_overlapping_nodes layout))
        | inr other ↦ rw other nothing
      ]

  switch_layout-IsQuiet :
      (enabled : Bool) (requester request : String) (layout : Option LayoutConfig)
      → IsQuiet s (switch_layout s r enabled requester request layout)
  unfolding switch_layout
  switch_layout-IsQuiet enabled requester request none = nothing
  switch_layout-IsQuiet enabled requester request (some layout) = record {
    leases = refl;
    epoch = refl;
    others = broadcast-AllOther s r _ tt;
  }

  pub on_auto_switch_update_request-IsQuiet :
      (p : String) (enabled : Option Bool) (requester request : Option String)
      → IsQuiet s (on_auto_switch_update_request s r p enabled requester request)
  unfolding on_auto_switch_update_request
  on_auto_switch_update_request-IsQuiet p none requester request = nothing
  on_auto_switch_update_request-IsQuiet p (some enabled) requester request =
      switch_layout-IsQuiet enabled (given_or requester p) (strip (text_of request)) s.ctx.layout
