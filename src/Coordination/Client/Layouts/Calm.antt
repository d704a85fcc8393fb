-- ===== src/Coordination/Client/Layouts/Calm.antt =====
-- What the layout editor and the layouts of the coordinator leave alone.
use multi_controller.Prelude.{
  refl, ◌∙◌, Bool, Option, none, some, List, [], ◌∷◌, String, ◌==◌, if_both, option_both,
}
use multi_controller.Prelude.Int.{ℤ}
use multi_controller.Prelude.Text.{strip, text_of}
use multi_controller.Display.Layout.{LayoutConfig}
use multi_controller.Coordination.Protocol.{Request}
use multi_controller.Coordination.Client.{
  Client, Around, Effect, Outcome, client_id, send_tracked, names, reaches_coordinator,
  track_one_shot_request, to_coordinator,
}
use multi_controller.Coordination.Client.Calm.{
  IsStill, still, IsCalm, IsStill-IsCalm, accepting-IsCalm,
}
use multi_controller.Coordination.Service.LayoutEdit.{RawLayout, not_an_object, refused, builds}
use multi_controller.Coordination.Client.Requests.{
  resolve_one_shot_request, resolve_matching_one_shot_request,
}
use multi_controller.Coordination.Client.Layouts.{
  Reload, LayoutUpdate, is_layout_editor, request_layout_edit, end_layout_edit,
  request_auto_switch_enabled, edit_granted, on_layout_edit_grant, on_layout_edit_deny, edit_state,
  on_layout_state, answered, raises, apply_update, take_layout, take_update, on_layout_update,
}

pub resolve-IsStill :
    (c : Client) (request : Option String) (did : List Effect)
    → IsStill c (resolve_one_shot_request request c, did)
unfolding resolve_one_shot_request
resolve-IsStill c request did =
    if_both (λ x. IsStill c (x, did)) (strip (text_of request) == "") _ _ (still c did)
      record { router = refl; sink = refl; epoch = refl }

pub resolve_matching-IsStill :
    (c : Client) (kind target : String) (did : List Effect)
    → IsStill c (resolve_matching_one_shot_request kind target c, did)
unfolding resolve_matching_one_shot_request
resolve_matching-IsStill c kind target did =
    if_both (λ x. IsStill c (x, did)) (strip kind == "") _ _ (still c did)
      record { router = refl; sink = refl; epoch = refl }

pub send_tracked-IsStill :
    (env : Around) (c : Client) (kind target : String) (request : Request)
    → IsStill c (send_tracked c env kind target request)
unfolding send_tracked track_one_shot_request
send_tracked-IsStill env c kind target request =
    if_both (IsStill c) (reaches_coordinator c env) _ _
      (if_both (λ x. IsStill c (x, to_coordinator request ∷ [])) (env.fresh == "") _ _ (still c _)
        record { router = refl; sink = refl; epoch = refl })
      (still c [])

module _ (env : Around) where
  pub request_layout_edit-IsStill : (c : Client) → IsStill c (request_layout_edit env c)
  unfolding request_layout_edit
  request_layout_edit-IsStill c =
      if_both (IsStill c) (is_layout_editor c) _ _
        record { router = refl; sink = refl; epoch = refl }
        record { router = refl; sink = refl; epoch = refl }

  pub end_layout_edit-IsStill : (c : Client) → IsStill c (end_layout_edit env c)
  unfolding end_layout_edit
  end_layout_edit-IsStill c =
      if_both (IsStill c) (is_layout_editor c) _ _
        record { router = refl; sink = refl; epoch = refl }
        record { router = refl; sink = refl; epoch = refl }

  pub request_auto_switch_enabled-IsStill :
      (c : Client) (enabled : Bool) → IsStill c (request_auto_switch_enabled env c enabled)
  unfolding request_auto_switch_enabled
  request_auto_switch_enabled-IsStill c enabled = send_tracked-IsStill env c _ _ _

  edit_granted-IsStill : (c : Client) → IsStill c (edit_granted env c)
  unfolding edit_granted end_layout_edit
  edit_granted-IsStill c =
      if_both (IsStill c) c.layout_edit_requested _ _
        record { router = refl; sink = refl; epoch = refl }
        (if_both (IsStill c) (client_id c == client_id c) _ _
          record { router = refl; sink = refl; epoch = refl }
          record { router = refl; sink = refl; epoch = refl })

  pub on_layout_edit_grant-IsCalm :
      (c : Client) (peer : String) (editor epoch : Option String)
      → IsCalm env c (on_layout_edit_grant env c peer editor epoch)
  unfolding on_layout_edit_grant
  on_layout_edit_grant-IsCalm c peer editor epoch =
      if_both (IsCalm env c) (names editor (client_id c)) _ _
        (accepting-IsCalm env c peer epoch (edit_granted env) edit_granted-IsStill)
        (IsStill-IsCalm env c _ (still c []))

  pub on_layout_edit_deny-IsCalm :
      (c : Client) (peer : String) (editor reason current epoch : Option String)
      → IsCalm env c (on_layout_edit_deny env c peer editor reason current epoch)
  unfolding on_layout_edit_deny
  on_layout_edit_deny-IsCalm c peer editor reason current epoch =
      if_both (IsCalm env c) (names editor (client_id c)) _ _
        (accepting-IsCalm env c peer epoch _
          (λ c'. record { router = refl; sink = refl; epoch = refl }))
        (IsStill-IsCalm env c _ (still c []))

  edit_state-IsStill :
      (c : Client) (editor : Option String) → IsStill c (edit_state env c editor, [])
  unfolding edit_state
  edit_state-IsStill c none = record { router = refl; sink = refl; epoch = refl }
  edit_state-IsStill c (some k) =
      if_both (λ x. IsStill c (x, [])) (k == client_id c) _ _
        record { router = refl; sink = refl; epoch = refl }
        record { router = refl; sink = refl; epoch = refl }

  pub on_layout_state-IsCalm :
      (c : Client) (peer : String) (editor epoch : Option String)
      → IsCalm env c (on_layout_state env c peer editor epoch)
  unfolding on_layout_state
  on_layout_state-IsCalm c peer editor epoch =
      accepting-IsCalm env c peer epoch _ (λ c'. edit_state-IsStill c' editor)

  answered-IsStill :
      (c : Client) (u : LayoutUpdate) (did : List Effect) → IsStill c (answered env c u, did)
  unfolding answered
  answered-IsStill c u did =
      if_both (λ x. IsStill c (x, did)) _ _ _
        (if_both (λ x. IsStill c (x, did)) _ _ _ (resolve_matching-IsStill c "auto_switch" "" did)
          (resolve-IsStill c u.request_id did))
        (still c did)

  pub IsStill-trans : (c d : Client) (o : Outcome) → IsStill c (d, []) → IsStill d o → IsStill c o
  IsStill-trans c d o h k = record {
    router = k.router ∙ h.router;
    sink = k.sink ∙ h.sink;
    epoch = k.epoch ∙ h.epoch;
  }

  apply_update-IsStill :
      (c : Client) (u : LayoutUpdate) (revision : ℤ) (layout : LayoutConfig)
      (reload : Option Reload)
      → IsStill c (apply_update env c u revision layout reload)
  unfolding apply_update
  apply_update-IsStill c u revision layout reload =
      if_both (IsStill c) (raises env reload) _ _
        record { router = refl; sink = refl; epoch = refl }
        record { router = refl; sink = refl; epoch = refl }

  take_layout-IsStill :
      (c : Client) (u : LayoutUpdate) (revision : ℤ) (raw : RawLayout) (reload : Option Reload)
      → IsStill c (take_layout env c u revision raw reload)
  unfolding take_layout
  take_layout-IsStill c u revision not_an_object reload = still c []
  take_layout-IsStill c u revision refused reload = answered-IsStill c u []
  take_layout-IsStill c u revision (builds layout) reload =
      if_both (IsStill c) _ _ _ (answered-IsStill c u []) (
        IsStill-trans c (answered env c u) _ (answered-IsStill c u [])
          (apply_update-IsStill (answered env c u) u revision layout reload))

  pub take_update-IsStill :
      (c : Client) (u : LayoutUpdate) (reload : Option Reload)
      → IsStill c (take_update env c u reload)
  unfolding take_update
  take_update-IsStill c u reload =
      option_both (IsStill c) u.revision _ _ (still c [])
        (λ revision. take_layout-IsStill c u revision u.layout reload)

  pub on_layout_update-IsCalm :
      (c : Client) (peer : String) (u : LayoutUpdate) (reload : Option Reload)
      → IsCalm env c (on_layout_update env c peer u reload)
  unfolding on_layout_update
  on_layout_update-IsCalm c peer u reload =
      if_both (IsCalm env c) u.bootstrap _ _
        (IsStill-IsCalm env c _ (take_update-IsStill c u reload))
        (accepting-IsCalm env c peer u.epoch _ (λ c'. take_update-IsStill c' u reload))
