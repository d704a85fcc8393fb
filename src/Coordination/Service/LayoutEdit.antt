-- ===== src/Coordination/Service/LayoutEdit.antt =====
-- control/coordination/service.py: the lock of the layout editor and the changes of the layout.
pub mod Quiet
pub mod Lock
use multi_controller.Prelude.{
  ℕ, ◌+◌, Bool, true, false, Option, none, some, List, [], ◌∷◌, ◌++◌, String, ◌==◌, if◌then◌else◌,
}
use multi_controller.Prelude.Text.{given_or, strip, text_of}
use multi_controller.Registry.{Registry}
use multi_controller.Display.Layout.{
  LayoutConfig, find_overlapping_nodes, replace_auto_switch_settings,
}
use multi_controller.Coordination.Protocol.{
  layout_edit_grant, layout_edit_deny, layout_state, layout_update, auto_switch_update,
}
use multi_controller.Coordination.Service.{Service, Delivery, Outcome, reply, broadcast}

-- The `layout` of an update: no object, one that `build_layout_config` refuses, or one that it builds.
pub data RawLayout : Type 0 where
  not_an_object refused : RawLayout
  builds : LayoutConfig → RawLayout

-- `self._layout_editor_id not in (None, editor_id)`.
abbrev pub held_by_other : Option String → String → Bool
held_by_other none editor = false
held_by_other (some e) editor = if e == editor then false else true

-- `self._layout_editor_id == editor_id`, for an editor that is a text.
abbrev pub is_editor : Option String → String → Bool
is_editor none editor = false
is_editor (some e) editor = e == editor

abbrev pub with_editor : Service → Option String → Service
with_editor s editor = record s { layout_editor_id = editor }

unfoldable pub broadcast_layout_state : Service → Registry → List Delivery
broadcast_layout_state s r = broadcast s r (layout_state s.layout_editor_id s.coordinator_epoch)

module _ (s : Service) (r : Registry) where
  unfoldable pub on_layout_edit_begin : String → Option String → Outcome
  unfolding broadcast_layout_state
  on_layout_edit_begin peer editor_id =
      let editor = given_or editor_id peer in
      if held_by_other s.layout_editor_id editor
      then (
        s,
        (reply s r peer
            (layout_edit_deny editor "held_by_other" s.layout_editor_id s.coordinator_epoch)).0,
      )
      else (
        with_editor s (some editor),
        (reply s r peer (layout_edit_grant editor s.coordinator_epoch)).0
            ++ broadcast_layout_state (with_editor s (some editor)) r,
      )

  unfoldable pub on_layout_edit_end : String → Option String → Outcome
  unfolding broadcast_layout_state
  on_layout_edit_end peer editor_id =
      if is_editor s.layout_editor_id (given_or editor_id peer)
      then (with_editor s none, broadcast_layout_state (with_editor s none) r)
      else (s, [])

  publish_layout : LayoutConfig → String → Bool → List (String × String) → Outcome
  publish_layout layout editor persist [] = (
    record s { layout_revision = s.layout_revision + 1 },
    broadcast s r
        (layout_update layout editor s.coordinator_epoch (s.layout_revision + 1) persist false),
  )
  publish_layout layout editor persist (pair ∷ pairs) = (s, [])

  unfoldable pub on_layout_update : String → Option String → RawLayout → Bool → Outcome
  unfolding publish_layout
  on_layout_update peer editor_id not_an_object persist = (s, [])
  on_layout_update peer editor_id refused persist = (s, [])
  on_layout_update peer editor_id (builds layout) persist =
      let editor = given_or editor_id peer in
      if is_editor s.layout_editor_id editor
      then publish_layout layout editor persist (find_overlapping_nodes layout)
      else (s, [])

  switch_layout : Bool → String → String → Option LayoutConfig → Outcome
  switch_layout enabled requester request none = (s, [])
  switch_layout enabled requester request (some layout) =
      let next = replace_auto_switch_settings layout (some enabled) none none in
      (
        record s {
          ctx = record s.ctx { layout = some next };
          layout_revision = s.layout_revision + 1;
        },
        broadcast s r
            (auto_switch_update next s.coordinator_epoch (s.layout_revision + 1) requester request),
      )

  -- `enabled` is none where the frame has no Boolean there.
  unfoldable pub on_auto_switch_update_request :
      String → Option Bool → Option String → Option String → Outcome
  unfolding switch_layout
  on_auto_switch_update_request peer none requester_id request = (s, [])
  on_auto_switch_update_request peer (some enabled) requester_id request =
      switch_layout enabled (given_or requester_id peer) (strip (text_of request)) s.ctx.layout
