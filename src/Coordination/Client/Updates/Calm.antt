-- ===== src/Coordination/Client/Updates/Calm.antt =====
-- What the updates leave alone.
use multi_controller.Prelude.{
  ◌≡◌, refl, sym, inl, subst, Option, none, some, List, [], String, ◌==◌, if◌then◌else◌, if_both,
}
use multi_controller.Prelude.Text.{given, strip, text_of}
use multi_controller.Coordination.Protocol.{Share}
use multi_controller.Coordination.Client.{Client, Around, Effect, client_id, names}
use multi_controller.Coordination.Client.Calm.{
  IsStill, still, IsCalm, IsStill-IsCalm, accepting-IsCalm, IsCalm-then_do, IsNotOlder,
}
use multi_controller.Coordination.Client.Requests.{
  resolve_one_shot_request, resolve_matching_one_shot_request,
}
use multi_controller.Coordination.Client.Layouts.Calm.{
  resolve-IsStill, resolve_matching-IsStill, send_tracked-IsStill,
}
use multi_controller.Coordination.Client.Updates.{
  UpdateStatus, request_remote_update, request_group_update_check, request_group_update_download,
  accepting_status, take_status, on_remote_update_status, on_update_check_state,
  on_update_download_state,
}

module _ (env : Around) where
  pub request_remote_update-IsStill :
      (c : Client) (target : String) → IsStill c (request_remote_update env c target)
  unfolding request_remote_update
  request_remote_update-IsStill c target = send_tracked-IsStill env c _ _ _

  pub request_group_update_check-IsStill :
      (c : Client) → IsStill c (request_group_update_check env c)
  unfolding request_group_update_check
  request_group_update_check-IsStill c = send_tracked-IsStill env c _ _ _

  pub request_group_update_download-IsStill :
      (c : Client) (tag url current latest : String)
      → IsStill c (request_group_update_download env c tag url current latest)
  unfolding request_group_update_download
  request_group_update_download-IsStill c tag url current latest = send_tracked-IsStill env c _ _ _

  resolved-IsStill :
      (c : Client) (u : UpdateStatus) (did : List Effect)
      → IsStill c (
        if strip (text_of u.request_id) == ""
            then resolve_matching_one_shot_request "remote_update" (text_of u.target_id) c
            else resolve_one_shot_request u.request_id c,
        did,
      )
  resolved-IsStill c u did =
      if_both (λ x. IsStill c (x, did)) (strip (text_of u.request_id) == "") _ _
        (resolve_matching-IsStill c _ _ did) (resolve-IsStill c _ did)

  take_status-IsStill : (c : Client) (u : UpdateStatus) → IsStill c (take_status env c u)
  unfolding take_status
  take_status-IsStill c u = resolved-IsStill c u _

  own_status-IsCalm :
      (c : Client) (u : UpdateStatus) (epoch : Option String)
      → c.coordinator_epoch ≡ epoch
      → IsCalm env c (
          take_status env
            (elim epoch [ none ↦ record c { coordinator_epoch = given u.epoch } | some e ↦ c ])
            u)
  own_status-IsCalm c u none p =
      let h = take_status-IsStill (record c { coordinator_epoch = given u.epoch }) u in
      IsCalm-then_do env c (record c { coordinator_epoch = given u.epoch }, [])
        (λ c'. take_status env c' u)
        record {
          router = refl;
          controller = inl refl;
          epoch = subst (λ x. IsNotOlder env.int_of x (given u.epoch)) (sym p) tt;
        }
        h
  own_status-IsCalm c u (some e) p = IsStill-IsCalm env c _ (take_status-IsStill c u)

  pub on_remote_update_status-IsCalm :
      (c : Client) (peer : String) (u : UpdateStatus)
      → IsCalm env c (on_remote_update_status env c peer u)
  unfolding on_remote_update_status accepting_status
  on_remote_update_status-IsCalm c peer u =
      if_both (IsCalm env c) (names u.requester_id (client_id c)) _ _
        (if_both (IsCalm env c) _ _ _ (own_status-IsCalm c u c.coordinator_epoch refl)
          (accepting-IsCalm env c peer u.epoch _ (λ c'. take_status-IsStill c' u)))
        (IsStill-IsCalm env c _ (still c []))

  pub on_update_check_state-IsCalm :
      (c : Client) (peer : String)
      (requester request status detail result source epoch : Option String)
      → IsCalm env c
          (on_update_check_state env c peer requester request status detail result source epoch)
  unfolding on_update_check_state
  on_update_check_state-IsCalm c peer requester request status detail result source epoch =
      if_both (IsCalm env c) (names requester (client_id c)) _ _
        (accepting-IsCalm env c peer epoch _ (λ c'. resolve-IsStill c' request _))
        (IsStill-IsCalm env c _ (still c []))

  pub on_update_download_state-IsCalm :
      (c : Client) (peer : String) (requester request status detail : Option String) (share : Share)
      (epoch : Option String)
      → IsCalm env c
          (on_update_download_state env c peer requester request status detail share epoch)
  unfolding on_update_download_state
  on_update_download_state-IsCalm c peer requester request status detail share epoch =
      if_both (IsCalm env c) (names requester (client_id c)) _ _
        (accepting-IsCalm env c peer epoch _ (λ c'. resolve-IsStill c' request _))
        (IsStill-IsCalm env c _ (still c []))
