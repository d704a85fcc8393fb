-- ===== src/Coordination/Client/Layouts.antt =====
-- control/coordination/client.py: the lock of the layout editor and the layouts that the coordinator sends.
-- The Boolean that a request returns to the user interface is left out.
pub mod Calm
pub mod Revision
use multi_controller.Prelude.{
  ℕ, Bool, true, false, not, ◌&&◌, ◌||◌, Option, none, some, List, [], ◌∷◌, ◌++◌, String, ◌==◌,
  if◌then◌else◌,
}
use multi_controller.Prelude.Int.{ℤ, ltb_ℤ}
use multi_controller.Prelude.Text.{given, strip, text_of}
use multi_controller.Context.{Context}
use multi_controller.Display.Layout.{LayoutConfig}
use multi_controller.Coordination.Protocol.{Request}
use multi_controller.Coordination.Service.LayoutEdit.{RawLayout, not_an_object, refused, builds}
use multi_controller.Coordination.Client.{
  Client, Around, Effect, Outcome, ◌then_do◌, client_id, send, reaches_coordinator, names,
  accepting, to_coordinator, auto_switch_change, send_tracked,
}
use multi_controller.Coordination.Client.Requests.{
  resolve_one_shot_request, resolve_matching_one_shot_request,
}

-- What the config reloader makes of a state that it applies: the context that it leaves, and whether it
-- raises.
pub record Reload : Type 0 where
  pub context : Context
  pub raised : Bool

pub record LayoutUpdate : Type 0 where
  pub layout : RawLayout
  pub revision : Option ℤ
  pub bootstrap : Bool
  pub editor_id : Option String
  pub change_kind : Option String
  pub requester_id : Option String
  pub request_id : Option String
  pub epoch : Option String

abbrev pub is_layout_editor : Client → Bool
is_layout_editor c = names c.layout_editor_id (client_id c)

module _ (env : Around) where
  unfoldable pub request_layout_edit : Client → Outcome
  request_layout_edit c =
      let next = record c {
        layout_edit_requested = true;
        layout_edit_requested_at = env.now;
        layout_last_deny_reason = none;
      } in
      if is_layout_editor c
      then (next, [])
      else (next, send next env (Request.layout_edit_begin (client_id c)))

  unfoldable pub end_layout_edit : Client → Outcome
  end_layout_edit c =
      let next = record c {
        layout_edit_requested = false;
        layout_edit_requested_at = 0;
        layout_last_deny_reason = none;
      } in
      if is_layout_editor c
      then (
        record next { layout_editor_id = none },
        send next env (Request.layout_edit_end (client_id c)),
      )
      else (next, [])

  unfoldable pub publish_layout : Client → LayoutConfig → Bool → List Effect
  publish_layout c layout persist =
      if is_layout_editor c
      then send c env (Request.layout_update_request layout (client_id c) persist)
      else []

  unfoldable pub request_auto_switch_enabled : Client → Bool → Outcome
  unfolding send_tracked
  request_auto_switch_enabled c enabled =
      send_tracked c env "auto_switch" ""
        (Request.auto_switch_update_request enabled (client_id c) env.fresh)

  edit_granted : Client → Outcome
  unfolding end_layout_edit
  edit_granted c =
      let next = record c {
        layout_editor_id = some (client_id c);
        layout_edit_requested_at = 0;
        layout_last_deny_reason = none;
      } in
      if c.layout_edit_requested then (next, []) else end_layout_edit next

  unfoldable pub on_layout_edit_grant : Client → String → (editor epoch : Option String) → Outcome
  unfolding edit_granted
  on_layout_edit_grant c peer editor epoch =
      if names editor (client_id c) then accepting c env peer epoch edit_granted else (c, [])

  abbrev edit_denied : Client → (reason current : Option String) → Client
  edit_denied c reason current = record c {
    layout_edit_requested = false;
    layout_edit_requested_at = 0;
    layout_editor_id = current;
    layout_last_deny_reason = reason;
  }

  unfoldable pub on_layout_edit_deny :
      Client → String → (editor reason current epoch : Option String) → Outcome
  on_layout_edit_deny c peer editor reason current epoch =
      if names editor (client_id c)
      then accepting c env peer epoch (λ c'. (edit_denied c' reason current, []))
      else (c, [])

  edit_state : Client → Option String → Client
  edit_state c none = record c { layout_editor_id = none }
  edit_state c (some editor) =
      if editor == client_id c
      then record c { layout_editor_id = some editor; layout_last_deny_reason = none }
      else record c { layout_editor_id = some editor; layout_edit_requested = false }

  unfoldable pub on_layout_state : Client → String → (editor epoch : Option String) → Outcome
  unfolding edit_state
  on_layout_state c peer editor epoch = accepting c env peer epoch λ c'. (edit_state c' editor, [])

  abbrev toggles : LayoutUpdate → Bool
  toggles u = strip (text_of u.change_kind) == "auto_switch_toggle"

  abbrev requester : LayoutUpdate → String
  requester u = strip (text_of u.requester_id)

  -- The answer to the own request.
  unfoldable pub answered : Client → LayoutUpdate → Client
  unfolding resolve_one_shot_request resolve_matching_one_shot_request
  answered c u =
      if toggles u && requester u == client_id c
      then (if strip (text_of u.request_id) == ""
          then resolve_matching_one_shot_request "auto_switch" "" c
          else resolve_one_shot_request u.request_id c)
      else c

  abbrev context_after : Client → LayoutConfig → Option Reload → Context
  context_after c layout none = record c.ctx { layout = some layout }
  context_after c layout (some reload) = reload.context

  abbrev raises : Option Reload → Bool
  raises none = false
  raises (some reload) = reload.raised

  unfoldable pub apply_update : Client → LayoutUpdate → ℤ → LayoutConfig → Option Reload → Outcome
  apply_update c u revision layout reload =
      let next = record c { ctx = context_after c layout reload } in
      if raises reload then (next, []) else (
        record next {
          layout_last_update_revision = revision;
          layout_editor_id = given u.editor_id;
        },
        if toggles u && not (requester u == "") && not (requester u == client_id c)
            then auto_switch_change layout.auto_switch.enabled (requester u) ∷ []
            else [],
      )

  unfoldable pub take_layout : Client → LayoutUpdate → ℤ → RawLayout → Option Reload → Outcome
  unfolding apply_update
  take_layout c u revision not_an_object reload = (c, [])
  take_layout c u revision refused reload = (answered c u, [])
  take_layout c u revision (builds layout) reload =
      if not u.bootstrap && ltb_ℤ revision c.layout_last_update_revision
      then (answered c u, [])
      else apply_update (answered c u) u revision layout reload

  unfoldable pub take_update : Client → LayoutUpdate → Option Reload → Outcome
  unfolding take_layout
  take_update c u reload = elim u.revision [
    | none ↦ (c, [])
    | some revision ↦ take_layout c u revision u.layout reload
  ]

  -- A reload is none where there is no reloader.
  unfoldable pub on_layout_update : Client → String → LayoutUpdate → Option Reload → Outcome
  unfolding take_update
  on_layout_update c peer u reload =
      if u.bootstrap
      then take_update c u reload
      else accepting c env peer u.epoch λ c'. take_update c' u reload
