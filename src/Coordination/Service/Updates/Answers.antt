-- ===== src/Coordination/Service/Updates/Answers.antt =====
-- Who is answered when an update check has a result.
use multi_controller.Prelude.{
  ℕ, ◌≡◌, refl, sym, subst, ◌∙◌, ap, inl, inr, true, false, Option, none, some, List, [], ◌∷◌,
  String, ◌==◌, eq_iff, In, In-left, In-right,
}
use multi_controller.Prelude.Text.{given_or, strip, text_of}
use multi_controller.Registry.{Registry}
use multi_controller.Coordination.Protocol.{Frame, update_check_state}
use multi_controller.Coordination.Service.{Service, Delivery, Job, reply, reply-In}
use multi_controller.Coordination.Service.Updates.{
  reply_update_check_state, reply_all, finish_check, accept_result, on_update_check_result,
}

-- The answer to one requester of a check.
abbrev pub answer :
    Service → (status detail : String) → Option String → String → String × String → Frame
answer s status detail result source (requester, request) =
    update_check_state requester request status detail result source s.coordinator_epoch

-- Each requester that can be reached gets the answer.
abbrev pub AllAnswered :
    Service → Registry → List (String × String) → (String × String → Frame) → List Delivery → Type 0
AllAnswered s r requesters frame sent =
    (q : String × String)
    → In q requesters
    → (reply s r q.0 (frame q)).1 ≡ true
    → In (q.0, frame q) sent

module _ (s : Service) (r : Registry) where
  pub reply_all-AllAnswered :
      (status detail : String) (result : Option String) (source : String)
      (qs : List (String × String))
      → AllAnswered s r qs
          (answer s status detail result source)
          (reply_all s r (reply_update_check_state s r detail result source status) qs)
  unfolding reply_all reply_update_check_state
  reply_all-AllAnswered status detail result source [] q i h = absurd i
  reply_all-AllAnswered status detail result source ((p, x) ∷ qs) q (inl e) h = In-left _ _ _ (
      subst
        (λ z.
          In (z.0, answer s status detail result source z)
            (reply s r p (answer s status detail result source (p, x))).0)
        e
        (reply-In s r p (answer s status detail result source (p, x))
          (ap (λ z. (reply s r z.0 (answer s status detail result source z)).1) e ∙ h)))
  reply_all-AllAnswered status detail result source ((p, x) ∷ qs) q (inr i) h =
      In-right _ (reply s r p (answer s status detail result source (p, x))).0 _
        (reply_all-AllAnswered status detail result source qs q i h)

-- The state after a result that was accepted.
abbrev pub finished : Service → ℕ → String → String → Service
finished s now result source = record s {
  update_check_cache = some (record { fetched_at = now; result = result; source_id = source });
  update_check_inflight = none;
}

success_lem : strip "success" ≡ "success"
unfolding strip
success_lem = refl

accept_lem :
    (s : Service) (r : Registry) (now : ℕ) (peer detail : String) (source : Option String)
    (result : String) (job : Job) (o : Option Job)
    → o ≡ some job
    → peer ≡ job.active_candidate_id
    → accept_result s r now peer job.job_id "success" detail source (some result) o
      ≡ finish_check s r now peer detail source "success" job (some result)
unfolding accept_result
accept_lem s r now peer detail source result job o h active =
    rw (h, accept_result) (rw ((eq_iff job.job_id job.job_id).1 refl, (eq_iff _ _).1 active) refl)

-- A successful result of the node that works on the check, for the job id of the check, which is not
-- empty and has no space around it, ends the check, is kept, and is told to every requester that can be
-- reached. Its source is the one that it names, or the sender.
pub on_update_check_result-AllAnswered :
    (s : Service) (r : Registry) (now : ℕ) (peer : String) (job : Job)
    (detail source : Option String) (result : String)
    → s.update_check_inflight ≡ some job
    → (strip job.job_id == "") ≡ false
    → strip job.job_id ≡ job.job_id
    → peer ≡ job.active_candidate_id
    → ((on_update_check_result s r now peer
          (some job.job_id)
          (some "success")
          detail
          source
          (some result)).0
        ≡ finished s now result (given_or source peer))
      × AllAnswered s r job.requesters
          (answer s "success" (text_of detail) (some result) (given_or source peer))
          (on_update_check_result s r now peer
            (some job.job_id)
            (some "success")
            detail
            source
            (some result)).1
unfolding on_update_check_result finish_check text_of
on_update_check_result-AllAnswered s r now peer job detail source result h some_id clean active =
    rw
      (
        clean,
        named,
        success_lem,
        accept_lem s r now peer (text_of detail) source result job s.update_check_inflight h active,
      )
      (
        refl,
        reply_all-AllAnswered s r "success" (text_of detail) (some result) (given_or source peer)
            job.requesters,
      )
  where
    named : (job.job_id == "") ≡ false
    named = ap (λ x. x == "") (sym clean) ∙ some_id
