-- ===== src/Coordination/Service/Updates/Requests.antt =====
-- No request for an update check is lost.
use multi_controller.Prelude.{ℕ, ◌≡◌, ◌⊎◌, true, none, some, String, In}
use multi_controller.Registry.{Registry}
use multi_controller.Coordination.Protocol.{Frame}
use multi_controller.Coordination.Service.{Service, Outcome, Job, CheckCache, reply}
use multi_controller.Coordination.Service.Updates.{no_candidate, cached_update_check}
use multi_controller.Coordination.Service.Updates.Answers.{answer}

-- If the asker can be reached, it has been sent the answer.
abbrev pub IsAnswered :
    Service → Registry → String × String → (String × String → Frame) → Outcome → Type 0
IsAnswered s r asker frame o =
    (reply s r asker.0 (frame asker)).1 ≡ true → In (asker.0, frame asker) o.1

-- The request waits for the check in flight, or it has been answered with the kept result, or it has been told that
-- no candidate was found.
abbrev pub IsHeeded : Service → Registry → ℕ → String × String → Outcome → Type 0
IsHeeded s r now asker o =
    ((job : Job) × (o.0.update_check_inflight ≡ some job) × In asker job.requesters)
    ⊎ ((cache : CheckCache) × (cached_update_check s r now ≡ some cache)
        × IsAnswered s r asker (answer s "success" "" (some cache.result) cache.source_id) o)
    ⊎ ((o.0.update_check_inflight ≡ none)
        × IsAnswered s r asker (answer s "failed" (no_candidate s r) none "") o)
