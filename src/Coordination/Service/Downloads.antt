-- ===== src/Coordination/Service/Downloads.antt =====
-- control/coordination/service.py: the installer download that one candidate makes for everyone who asked,
-- one job for each release, and the cache of the installers that are shared.
pub mod Quiet
use multi_controller.Prelude.{
  ℕ, ◌+◌, ◌||◌, Option, none, some, List, [], ◌∷◌, ◌++◌, String, ◌==◌, ltb, if◌then◌else◌,
}
use Prim.Native.String.{◌++◌ as str_append}
use multi_controller.Prelude.Text.{given_or, strip, text_of}
use multi_controller.Prelude.Dict
use multi_controller.Prelude.Dict.{Dict}
use multi_controller.Registry.{Registry}
use multi_controller.Coordination.Protocol.{Share, update_download_command, update_download_state}
use multi_controller.Coordination.Service.{
  Service, Delivery, Outcome, DownloadJob, DownloadEntry, reply, target_is_online,
}
use multi_controller.Coordination.Service.Updates.{update_candidate_ids, idle_job}

-- `GROUP_UPDATE_SHARE_TTL_SEC`, in milliseconds.
abbrev pub share_ttl_ms : ℕ
share_ttl_ms = 900000

-- app/update/group_update.py.
unfoldable pub build_update_cache_key : String → String → String
build_update_cache_key tag_name installer_url =
    str_append (strip tag_name) (str_append "|" (strip installer_url))

abbrev no_share : Share
no_share = record {
  source_id = "";
  share_port = 0;
  share_id = "";
  share_token = "";
  sha256 = "";
  size_bytes = 0;
}

module _ (s : Service) (r : Registry) where
  fresh_share : ℕ → DownloadEntry → Option Share
  fresh_share now entry =
      if ltb (entry.updated_at + share_ttl_ms) now
      then none
      else if entry.share.source_id == ""
      then none
      else if target_is_online s r entry.share.source_id
      then some entry.share
      else none

  unfoldable pub resolve_update_download_cache : ℕ → String → Option Share
  unfolding fresh_share
  resolve_update_download_cache now key = elim (Dict.get key s.update_download_cache) [
    | none ↦ none
    | some entry ↦ fresh_share now entry
  ]

  unfoldable pub reply_update_download_state :
      String → String → Share → String × String → List Delivery
  reply_update_download_state status detail share (requester, request) =
      (reply s r requester
        (update_download_state requester request status detail share s.coordinator_epoch)).0

  reply_all : (String × String → List Delivery) → List (String × String) → List Delivery
  reply_all send_to [] = []
  reply_all send_to (q ∷ qs) = send_to q ++ reply_all send_to qs

  with_jobs : Dict DownloadJob → Service
  with_jobs jobs = record s { update_download_jobs = jobs }

  abbrev no_candidate : String
  no_candidate = "그룹 내에서 설치 파일을 준비할 수 있는 노드를 찾지 못했습니다."

  try_candidates : ℕ → String → DownloadJob → List String → Outcome
  unfolding with_jobs reply_all reply_update_download_state
  try_candidates now key d [] = (
    with_jobs (Dict.delete key s.update_download_jobs),
    reply_all (reply_update_download_state "failed" no_candidate no_share) d.job.requesters,
  )
  try_candidates now key d (c ∷ cs) =
      let rest = try_candidates now key d cs in
      let (sent, delivered) =
        reply s r c
          (update_download_command d.job.job_id d.tag_name d.installer_url s.coordinator_epoch) in
      if c == ""
      then rest
      else if target_is_online s r c
      then (if delivered
          then (
            with_jobs (
                Dict.set key
                  (record d {
                    job = record d.job {
                      candidates = cs;
                      active_candidate_id = c;
                      candidate_started_at = now;
                    };
                  })
                  s.update_download_jobs),
            sent,
          )
          else rest)
      else rest

  dispatch_job : ℕ → String → Option DownloadJob → Outcome
  unfolding try_candidates
  dispatch_job now key none = (s, [])
  dispatch_job now key (some d) = try_candidates now key d d.job.candidates

  unfoldable pub dispatch_next_update_download_candidate : ℕ → String → Outcome
  unfolding dispatch_job
  dispatch_next_update_download_candidate now key =
      dispatch_job now key (Dict.get key s.update_download_jobs)

abbrev pub idle_download : DownloadJob → DownloadJob
idle_download d = record d { job = idle_job d.job }

-- The job with a given id, and its key.
unfoldable pub find_job : String → Dict DownloadJob → Option (String × DownloadJob)
find_job id [] = none
find_job id ((key, d) ∷ jobs) = if d.job.job_id == id then some (key, d) else find_job id jobs

module _ (s : Service) (r : Registry) where
  join_or_start : ℕ → String → String × String → String → String → Option DownloadJob → Outcome
  unfolding with_jobs
  join_or_start now fresh asker tag url (some d) = (
    with_jobs s r (
        Dict.set (build_update_cache_key tag url)
          (record d { job = record d.job { requesters = d.job.requesters ++ asker ∷ [] } })
          s.update_download_jobs),
    [],
  )
  join_or_start now fresh asker tag url none =
      dispatch_next_update_download_candidate
        (with_jobs s r (
          Dict.set (build_update_cache_key tag url)
            (record {
              job = record {
                job_id = fresh;
                requesters = asker ∷ [];
                candidates = update_candidate_ids s r;
                active_candidate_id = "";
                candidate_started_at = 0;
              };
              tag_name = tag;
              installer_url = url;
            })
            s.update_download_jobs))
        r now (build_update_cache_key tag url)

  answer_or_start : ℕ → String → String × String → String → String → Option Share → Outcome
  unfolding join_or_start reply_update_download_state
  answer_or_start now fresh asker tag url (some share) =
      (s, reply_update_download_state s r "ready" "" share asker)
  answer_or_start now fresh asker tag url none =
      join_or_start now fresh asker tag url
        (Dict.get (build_update_cache_key tag url) s.update_download_jobs)

  unfoldable pub on_update_download_request :
      ℕ
      → String
      → String
      → (requester_id request_id tag_name installer_url : Option String) → Outcome
  unfolding answer_or_start
  on_update_download_request now fresh peer requester_id request_id tag_name installer_url =
      let requester = given_or requester_id peer in
      let request = strip (text_of request_id) in
      let tag = strip (text_of tag_name) in
      let url = strip (text_of installer_url) in
      if requester == "" || (request == "" || (tag == "" || url == ""))
      then (s, [])
      else answer_or_start now fresh (requester, request) tag url
          (resolve_update_download_cache s r now (build_update_cache_key tag url))

  -- `share` has the fields of the frame; its `source_id` is the empty text where the frame has none.
  finish_download : ℕ → String → String → Share → String → DownloadJob → Outcome
  unfolding reply_all reply_update_download_state
  finish_download now peer status share key d =
      let shared = record share { source_id = given_or (some share.source_id) peer } in
      if status == "ready"
      then (
        record s {
          update_download_cache =
              Dict.set key (record { share = shared; updated_at = now }) s.update_download_cache;
          update_download_jobs = Dict.delete key s.update_download_jobs;
        },
        reply_all s r (reply_update_download_state s r "ready" "" shared) d.job.requesters,
      )
      else dispatch_next_update_download_candidate
          (record s {
            update_download_jobs = Dict.set key (idle_download d) s.update_download_jobs;
          })
          r now key

  accept_result : ℕ → String → String → Share → Option (String × DownloadJob) → Outcome
  unfolding finish_download
  accept_result now peer status share none = (s, [])
  accept_result now peer status share (some (key, d)) =
      if peer == d.job.active_candidate_id
      then finish_download now peer status share key d
      else (s, [])

  unfoldable pub on_update_download_result :
      ℕ → String → (job_id status : Option String) → Share → Outcome
  unfolding accept_result
  on_update_download_result now peer job_id status share =
      let claimed = strip (text_of job_id) in
      if claimed == ""
      then (s, [])
      else accept_result now peer (strip (text_of status)) share
          (find_job claimed s.update_download_jobs)
