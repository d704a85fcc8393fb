-- ===== src/Coordination/Client/Updates.antt =====
-- control/coordination/client.py: updates that another node asks for, and the checks and downloads that the
-- group shares. The Boolean that a request returns to the user interface is left out.
pub mod Calm
use multi_controller.Prelude.{
  ℕ, Bool, true, false, not, ◌&&◌, ◌||◌, Option, none, some, List, [], ◌∷◌, ◌++◌, String, ◌==◌,
  if◌then◌else◌,
}
use multi_controller.Prelude.Text.{given, strip, text_of}
use multi_controller.Context.{NodeInfo}
use multi_controller.Coordination.Protocol.{Request, Share}
use multi_controller.Coordination.Client.{
  Client, Around, Effect, Outcome, client_id, send, names, id_of, accepting, send_tracked,
  remote_update_command, remote_update_status, update_check_command, update_check_status,
  update_download_command, update_download_status,
}
use multi_controller.Coordination.Client.Requests.{
  resolve_one_shot_request, resolve_matching_one_shot_request,
}

-- The status of a remote update, as a target reports it and as the coordinator relays it.
pub record UpdateStatus : Type 0 where
  pub target_id : Option String
  pub requester_id : Option String
  pub status : Option String
  pub detail : Option String
  pub reason : Option String
  pub request_id : Option String
  pub event_id : Option String
  pub session_id : Option String
  pub current_version : Option String
  pub latest_version : Option String
  pub epoch : Option String

module _ (env : Around) where
  unfoldable pub request_remote_update : Client → String → Outcome
  unfolding send_tracked
  request_remote_update c target =
      send_tracked c env "remote_update" target
        (Request.remote_update_request target (client_id c) env.fresh)

  unfoldable pub request_group_update_check : Client → Outcome
  unfolding send_tracked
  request_group_update_check c =
      send_tracked c env "update_check" "" (Request.update_check_request (client_id c) env.fresh)

  unfoldable pub report_group_update_check_result :
      Client → (job status detail : String) → Option String → List Effect
  report_group_update_check_result c job status detail result =
      if job == "" || status == ""
      then []
      else send c env (
          Request.update_check_result job status detail result (client_id c)
            (text_of c.coordinator_epoch))

  unfoldable pub request_group_update_download :
      Client → (tag_name installer_url current_version latest_version : String) → Outcome
  unfolding send_tracked
  request_group_update_download c tag url current latest =
      send_tracked c env "update_download" ""
        (Request.update_download_request (client_id c) env.fresh tag url current latest)

  -- The share without its source, which is the own node.
  unfoldable pub report_group_update_download_result :
      Client → (job status detail : String) → Share → List Effect
  report_group_update_download_result c job status detail share =
      if job == "" || status == ""
      then []
      else send c env (
          Request.update_download_result job status detail
            (record share { source_id = client_id c }) (text_of c.coordinator_epoch))

  unfoldable pub report_remote_update_status :
      Client
      → (target requester status detail reason request event session current_version
          latest_version : String)
      → List Effect
  report_remote_update_status c target requester status detail reason request event session current
        latest =
      if target == "" || requester == "" || status == ""
      then []
      else send c env (
          Request.remote_update_status target requester status detail reason request
            (text_of c.coordinator_epoch) event session current latest)

  unfoldable pub on_remote_update_command :
      Client → (target requester request : Option String) → Outcome
  on_remote_update_command c target requester request = (
    c,
    if names target (client_id c)
        then remote_update_command (client_id c) requester (text_of request) ∷ []
        else [],
  )

  -- The coordinator hears the target itself; every other node hears the coordinator.
  unfoldable pub accepting_status : Client → String → UpdateStatus → (Client → Outcome) → Outcome
  accepting_status c peer u next =
      let target = strip (text_of u.target_id) in
      if not (target == "") && peer == target && names (id_of env.coordinator) (client_id c)
      then next (elim c.coordinator_epoch [
        | none ↦ record c { coordinator_epoch = given u.epoch }
        | some e ↦ c
      ])
      else accepting c env peer u.epoch next

  take_status : Client → UpdateStatus → Outcome
  unfolding resolve_one_shot_request resolve_matching_one_shot_request
  take_status c u = (
    if strip (text_of u.request_id) == ""
        then resolve_matching_one_shot_request "remote_update" (text_of u.target_id) c
        else resolve_one_shot_request u.request_id c,
    remote_update_status (text_of u.target_id) (text_of u.status) (text_of u.reason)
          (text_of u.detail) (text_of u.request_id) (text_of u.event_id) (text_of u.session_id)
          (text_of u.current_version) (text_of u.latest_version)
        ∷ [],
  )

  unfoldable pub on_remote_update_status : Client → String → UpdateStatus → Outcome
  unfolding accepting_status take_status
  on_remote_update_status c peer u =
      if names u.requester_id (client_id c)
      then accepting_status c peer u (λ c'. take_status c' u)
      else (c, [])

  unfoldable pub on_update_check_command : Client → Option String → Outcome
  on_update_check_command c job =
      let id = strip (text_of job) in (c, if id == "" then [] else update_check_command id ∷ [])

  unfoldable pub on_update_check_state :
      Client
      → String
      → (requester request status detail result source epoch : Option String) → Outcome
  unfolding resolve_one_shot_request
  on_update_check_state c peer requester request status detail result source epoch =
      if names requester (client_id c)
      then accepting c env peer epoch (λ c'. (
        resolve_one_shot_request request c',
        update_check_status (text_of status) "" (text_of detail) (text_of request) result
              (text_of source)
            ∷ [],
      ))
      else (c, [])

  unfoldable pub on_update_download_command :
      Client → (job installer_url tag_name : Option String) → Outcome
  on_update_download_command c job url tag =
      let id = strip (text_of job) in
      let installer = strip (text_of url) in
      (
        c,
        if id == "" || installer == ""
            then []
            else update_download_command id installer (text_of tag) ∷ [],
      )

  -- The share has the empty text or 0 where the frame lacks a field.
  unfoldable pub on_update_download_state :
      Client
      → String
      → (requester request status detail : Option String) → Share
      → Option String
      → Outcome
  unfolding resolve_one_shot_request
  on_update_download_state c peer requester request status detail share epoch =
      if names requester (client_id c)
      then accepting c env peer epoch (λ c'. (
        resolve_one_shot_request request c',
        update_download_status (text_of status) "" (text_of detail) (text_of request) share ∷ [],
      ))
      else (c, [])
