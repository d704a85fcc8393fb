-- ===== src/Coordination/Service/Updates/Quiet.antt =====
-- The update checks leave the leases alone.
use multi_controller.Prelude.{
  ℕ, ◌≡◌, refl, inl, inr, ◌∙◌, Bool-cases, Option, none, some, List, [], ◌∷◌, String, ◌&&◌, ◌||◌,
  ◌==◌, All-append,
}
use multi_controller.Prelude.Text.{given_or, strip, text_of}
use multi_controller.Registry.{Registry}
use multi_controller.Coordination.Protocol.{update_check_command}
use multi_controller.Coordination.Service.{
  Service, Outcome, Job, CheckCache, reply, target_is_online,
}
use multi_controller.Coordination.Service.Leases.View.{AllOther, reply-AllOther}
use multi_controller.Coordination.Service.Leases.Quiet.{IsQuiet}
use multi_controller.Coordination.Service.Updates.{
  cached_update_check, reply_update_check_state, reply_all, try_candidates,
  dispatch_next_update_check_candidate, dispatch_job, accept_result, join_or_start, answer_or_start,
  on_update_check_request, finish_check, on_update_check_result,
}

-- The same leases under another state of the checks.
along :
    {s s' : Service} {o : Outcome}
    → s'.leases ≡ s.leases
    → s'.coordinator_epoch ≡ s.coordinator_epoch
    → IsQuiet s' o
    → IsQuiet s o
along e f q = record { leases = q.leases ∙ e; epoch = q.epoch ∙ f; others = q.others }

module _ (s : Service) (r : Registry) where
  nothing : IsQuiet s (s, [])
  nothing = record { leases = refl; epoch = refl; others = tt }

  state-AllOther :
      (d : String) (res : Option String) (src st : String) (q : String × String)
      → AllOther (reply_update_check_state s r d res src st q)
  unfolding reply_update_check_state
  state-AllOther d res src st (requester, request) = reply-AllOther s r requester _ tt

  reply_all-AllOther :
      (d : String) (res : Option String) (src st : String) (qs : List (String × String))
      → AllOther (reply_all s r (reply_update_check_state s r d res src st) qs)
  unfolding reply_all
  reply_all-AllOther d res src st [] = tt
  reply_all-AllOther d res src st (q ∷ qs) =
      All-append _ _ _ (state-AllOther d res src st q) (reply_all-AllOther d res src st qs)

  try_candidates-IsQuiet :
      (now : ℕ) (job : Job) (cs : List String) → IsQuiet s (try_candidates s r now job cs)
  unfolding try_candidates
  try_candidates-IsQuiet now job [] = record {
    leases = refl;
    epoch = refl;
    others = reply_all-AllOther _ none "" "failed" job.requesters;
  }
  try_candidates-IsQuiet now job (c ∷ cs) =
      let rest = try_candidates-IsQuiet now job cs in
      elim (Bool-cases (c == "")) [
        | inl e ↦ rw e rest
        | inr e ↦ rw e (elim (Bool-cases (target_is_online s r c)) [
          | inl on ↦
              rw on
                (elim (Bool-cases
                  (reply s r c (update_check_command job.job_id s.coordinator_epoch)).1) [
                    | inl sent ↦
                        rw sent (record {
                          leases = refl;
                          epoch = refl;
                          others = reply-AllOther s r c _ tt;
                        })
                    | inr lost ↦ rw lost rest
                  ])
          | inr off ↦ rw off rest
        ])
      ]

  dispatch_job-IsQuiet : (now : ℕ) (job : Option Job) → IsQuiet s (dispatch_job s r now job)
  unfolding dispatch_job
  dispatch_job-IsQuiet now none = nothing
  dispatch_job-IsQuiet now (some job) = try_candidates-IsQuiet now job job.candidates

  pub dispatch_next_update_check_candidate-IsQuiet :
      (now : ℕ) → IsQuiet s (dispatch_next_update_check_candidate s r now)
  unfolding dispatch_next_update_check_candidate
  dispatch_next_update_check_candidate-IsQuiet now =
      dispatch_job-IsQuiet now s.update_check_inflight

module _ (s : Service) (r : Registry) where
  join_or_start-IsQuiet :
      (now : ℕ) (fresh : String) (asker : String × String) (job : Option Job)
      → IsQuiet s (join_or_start s r now fresh asker job)
  unfolding join_or_start
  join_or_start-IsQuiet now fresh asker (some job) = record {
    leases = refl;
    epoch = refl;
    others = tt;
  }
  join_or_start-IsQuiet now fresh asker none =
      along refl refl (dispatch_next_update_check_candidate-IsQuiet _ r now)

  answer_or_start-IsQuiet :
      (now : ℕ) (fresh : String) (asker : String × String) (cache : Option CheckCache)
      → IsQuiet s (answer_or_start s r now fresh asker cache)
  unfolding answer_or_start
  answer_or_start-IsQuiet now fresh asker (some cache) = record {
    leases = refl;
    epoch = refl;
    others = state-AllOther s r "" (some cache.result) cache.source_id "success" asker;
  }
  answer_or_start-IsQuiet now fresh asker none =
      join_or_start-IsQuiet now fresh asker s.update_check_inflight

  pub on_update_check_request-IsQuiet :
      (now : ℕ) (fresh p : String) (requester_id request_id : Option String)
      → IsQuiet s (on_update_check_request s r now fresh p requester_id request_id)
  unfolding on_update_check_request
  on_update_check_request-IsQuiet now fresh p requester_id request_id =
      elim (Bool-cases (given_or requester_id p == "" || strip (text_of request_id) == "")) [
        | inl e ↦ rw e (nothing s r)
        | inr e ↦ rw e (answer_or_start-IsQuiet now fresh _ (cached_update_check s r now))
      ]

  finish_check-IsQuiet :
      (now : ℕ) (p d : String) (source_id : Option String) (status : String) (job : Job)
      (result : Option String)
      → IsQuiet s (finish_check s r now p d source_id status job result)
  unfolding finish_check
  finish_check-IsQuiet now p d source_id status job (some result) =
      elim (Bool-cases (status == "success")) [
        | inl e ↦ rw e (record {
          leases = refl;
          epoch = refl;
          others = reply_all-AllOther s r d (some result) _ "success" job.requesters;
        })
        | inr e ↦ rw e (along refl refl (dispatch_next_update_check_candidate-IsQuiet _ r now))
      ]
  finish_check-IsQuiet now p d source_id status job none =
      along refl refl (dispatch_next_update_check_candidate-IsQuiet _ r now)

  accept_result-IsQuiet :
      (now : ℕ) (p claimed status d : String) (source_id result : Option String) (job : Option Job)
      → IsQuiet s (accept_result s r now p claimed status d source_id result job)
  unfolding accept_result
  accept_result-IsQuiet now p claimed status d source_id result none = nothing s r
  accept_result-IsQuiet now p claimed status d source_id result (some job) =
      elim (Bool-cases (claimed == job.job_id && p == job.active_candidate_id)) [
        | inl e ↦ rw e (finish_check-IsQuiet now p d source_id status job result)
        | inr e ↦ rw e (nothing s r)
      ]

  pub on_update_check_result-IsQuiet :
      (now : ℕ) (p : String) (job_id status d source_id result : Option String)
      → IsQuiet s (on_update_check_result s r now p job_id status d source_id result)
  unfolding on_update_check_result
  on_update_check_result-IsQuiet now p job_id status d source_id result =
      elim (Bool-cases (strip (text_of job_id) == "")) [
        | inl e ↦ rw e (nothing s r)
        | inr e ↦ rw e (
            accept_result-IsQuiet now p (strip (text_of job_id)) (strip (text_of status))
              (text_of d) source_id result s.update_check_inflight)
      ]
