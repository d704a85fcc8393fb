-- ===== src/Coordination/Service/Downloads/Quiet.antt =====
-- The download jobs leave the leases alone.
use multi_controller.Prelude.{
  ℕ, ◌≡◌, refl, inl, inr, ◌∙◌, Bool-cases, Option, none, some, List, [], ◌∷◌, String, ◌||◌, ◌==◌,
  All-append,
}
use multi_controller.Prelude.Text.{given_or, strip, text_of}
use multi_controller.Prelude.Dict
use multi_controller.Registry.{Registry}
use multi_controller.Coordination.Protocol.{Share, update_download_command}
use multi_controller.Coordination.Service.{Service, Outcome, DownloadJob, reply, target_is_online}
use multi_controller.Coordination.Service.Leases.View.{AllOther, reply-AllOther}
use multi_controller.Coordination.Service.Leases.Quiet.{IsQuiet}
use multi_controller.Coordination.Service.Downloads.{
  build_update_cache_key, no_share, resolve_update_download_cache, reply_update_download_state,
  reply_all, try_candidates, dispatch_job, dispatch_next_update_download_candidate, find_job,
  join_or_start, answer_or_start, on_update_download_request, finish_download, accept_result,
  on_update_download_result,
}

along :
    {s s' : Service} {o : Outcome}
    → s'.leases ≡ s.leases
    → s'.coordinator_epoch ≡ s.coordinator_epoch
    → IsQuiet s' o
    → IsQuiet s o
along e f q = record { leases = q.leases ∙ e; epoch = q.epoch ∙ f; others = q.others }

module _ (s : Service) (r : Registry) where
  nothing : IsQuiet s (s, [])
  nothing = record { leases = refl; epoch = refl; others = tt }

  state-AllOther :
      (st d : String) (share : Share) (q : String × String)
      → AllOther (reply_update_download_state s r st d share q)
  unfolding reply_update_download_state
  state-AllOther st d share (requester, request) = reply-AllOther s r requester _ tt

  reply_all-AllOther :
      (st d : String) (share : Share) (qs : List (String × String))
      → AllOther (reply_all s r (reply_update_download_state s r st d share) qs)
  unfolding reply_all
  reply_all-AllOther st d share [] = tt
  reply_all-AllOther st d share (q ∷ qs) =
      All-append _ _ _ (state-AllOther st d share q) (reply_all-AllOther st d share qs)

  try_candidates-IsQuiet :
      (now : ℕ) (key : String) (d : DownloadJob) (cs : List String)
      → IsQuiet s (try_candidates s r now key d cs)
  unfolding try_candidates
  try_candidates-IsQuiet now key d [] = record {
    leases = refl;
    epoch = refl;
    others = reply_all-AllOther "failed" _ no_share d.job.requesters;
  }
  try_candidates-IsQuiet now key d (c ∷ cs) =
      let rest = try_candidates-IsQuiet now key d cs in
      let command =
        update_download_command d.job.job_id d.tag_name d.installer_url s.coordinator_epoch in
      elim (Bool-cases (c == "")) [
        | inl e ↦ rw e rest
        | inr e ↦ rw e (elim (Bool-cases (target_is_online s r c)) [
          | inl on ↦ rw on (elim (Bool-cases (reply s r c command).1) [
            | inl sent ↦
                rw sent
                  (record { leases = refl; epoch = refl; others = reply-AllOther s r c command tt })
            | inr lost ↦ rw lost rest
          ])
          | inr off ↦ rw off rest
        ])
      ]

  dispatch_job-IsQuiet :
      (now : ℕ) (key : String) (d : Option DownloadJob) → IsQuiet s (dispatch_job s r now key d)
  unfolding dispatch_job
  dispatch_job-IsQuiet now key none = nothing
  dispatch_job-IsQuiet now key (some d) = try_candidates-IsQuiet now key d d.job.candidates

  pub dispatch_next_update_download_candidate-IsQuiet :
      (now : ℕ) (key : String) → IsQuiet s (dispatch_next_update_download_candidate s r now key)
  unfolding dispatch_next_update_download_candidate
  dispatch_next_update_download_candidate-IsQuiet now key =
      dispatch_job-IsQuiet now key (Dict.get key s.update_download_jobs)

module _ (s : Service) (r : Registry) where
  join_or_start-IsQuiet :
      (now : ℕ) (fresh : String) (asker : String × String) (tag url : String)
      (d : Option DownloadJob)
      → IsQuiet s (join_or_start s r now fresh asker tag url d)
  unfolding join_or_start
  join_or_start-IsQuiet now fresh asker tag url (some d) = record {
    leases = refl;
    epoch = refl;
    others = tt;
  }
  join_or_start-IsQuiet now fresh asker tag url none =
      along refl refl (dispatch_next_update_download_candidate-IsQuiet _ r now _)

  answer_or_start-IsQuiet :
      (now : ℕ) (fresh : String) (asker : String × String) (tag url : String) (share : Option Share)
      → IsQuiet s (answer_or_start s r now fresh asker tag url share)
  unfolding answer_or_start
  answer_or_start-IsQuiet now fresh asker tag url (some share) = record {
    leases = refl;
    epoch = refl;
    others = state-AllOther s r "ready" "" share asker;
  }
  answer_or_start-IsQuiet now fresh asker tag url none =
      join_or_start-IsQuiet now fresh asker tag url
        (Dict.get (build_update_cache_key tag url) s.update_download_jobs)

  pub on_update_download_request-IsQuiet :
      (now : ℕ) (fresh p : String) (requester_id request_id tag_name installer_url : Option String)
      → IsQuiet s (
          on_update_download_request s r now fresh p requester_id request_id tag_name installer_url)
  unfolding on_update_download_request
  on_update_download_request-IsQuiet now fresh p requester_id request_id tag_name installer_url =
      let tag = strip (text_of tag_name) in
      let url = strip (text_of installer_url) in
      elim (Bool-cases (
        given_or requester_id p == ""
        || (strip (text_of request_id) == "" || (tag == "" || url == "")))) [
          | inl e ↦ rw e (nothing s r)
          | inr e ↦ rw e (
              answer_or_start-IsQuiet now fresh _ tag url
                (resolve_update_download_cache s r now (build_update_cache_key tag url)))
        ]

  finish_download-IsQuiet :
      (now : ℕ) (p status : String) (share : Share) (key : String) (d : DownloadJob)
      → IsQuiet s (finish_download s r now p status share key d)
  unfolding finish_download
  finish_download-IsQuiet now p status share key d = elim (Bool-cases (status == "ready")) [
    | inl e ↦ rw e (record {
      leases = refl;
      epoch = refl;
      others = reply_all-AllOther s r "ready" "" _ d.job.requesters;
    })
    | inr e ↦ rw e (along refl refl (dispatch_next_update_download_candidate-IsQuiet _ r now key))
  ]

  accept_result-IsQuiet :
      (now : ℕ) (p status : String) (share : Share) (found : Option (String × DownloadJob))
      → IsQuiet s (accept_result s r now p status share found)
  unfolding accept_result
  accept_result-IsQuiet now p status share none = nothing s r
  accept_result-IsQuiet now p status share (some (key, d)) =
      elim (Bool-cases (p == d.job.active_candidate_id)) [
        | inl e ↦ rw e (finish_download-IsQuiet now p status share key d)
        | inr e ↦ rw e (nothing s r)
      ]

  pub on_update_download_result-IsQuiet :
      (now : ℕ) (p : String) (job_id status : Option String) (share : Share)
      → IsQuiet s (on_update_download_result s r now p job_id status share)
  unfolding on_update_download_result
  on_update_download_result-IsQuiet now p job_id status share =
      elim (Bool-cases (strip (text_of job_id) == "")) [
        | inl e ↦ rw e (nothing s r)
        | inr e ↦ rw e (
            accept_result-IsQuiet now p (strip (text_of status)) share
              (find_job (strip (text_of job_id)) s.update_download_jobs))
      ]
