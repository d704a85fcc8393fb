-- ===== src/Coordination/Service/Updates.antt =====
-- control/coordination/service.py: the update check that the coordinator asks one node after another to
-- make, and whose result it hands to everyone who asked.
pub mod Quiet
pub mod Answers
pub mod Dispatch
pub mod Requests
use multi_controller.Prelude.{
  ℕ, ◌+◌, Bool, true, false, ◌&&◌, ◌||◌, Option, none, some, List, [], ◌∷◌, ◌++◌, map, String, ◌==◌,
  ltb, eqb, keep, if◌then◌else◌,
}
use multi_controller.Prelude.Int.{ℤ}
use multi_controller.Prelude.Text.{given_or, strip, text_of, str_leb}
use multi_controller.Context.{NodeInfo}
use multi_controller.Registry.{Registry}
use multi_controller.Coordination.Election.{coordinator_priority_sort_value, number}
use multi_controller.Coordination.Protocol.{update_check_command, update_check_state}
use multi_controller.Coordination.Service.{
  Service, Delivery, Outcome, Job, CheckCache, self_id, reply, target_is_online,
}

-- `GROUP_UPDATE_QUERY_CACHE_TTL_SEC`, in milliseconds.
abbrev pub query_cache_ttl_ms : ℕ
query_cache_ttl_ms = 30000

-- The key of `_update_candidate_ids`: the own node, then priority, then node id.
unfoldable pub candidate_leb : String → NodeInfo → NodeInfo → Bool
candidate_leb self a b =
    let rank_a = if a.node_id == self then 0 else 1 in
    let rank_b = if b.node_id == self then 0 else 1 in
    let prio_a = coordinator_priority_sort_value (number a.priority) in
    let prio_b = coordinator_priority_sort_value (number b.priority) in
    if ltb rank_a rank_b
    then true
    else if eqb rank_a rank_b
    then (if ltb prio_a prio_b
        then true
        else if eqb prio_a prio_b
        then str_leb a.node_id b.node_id
        else false)
    else false

insert_candidate : String → NodeInfo → List NodeInfo → List NodeInfo
insert_candidate self a [] = a ∷ []
insert_candidate self a (b ∷ ns) =
    if candidate_leb self a b then a ∷ b ∷ ns else b ∷ insert_candidate self a ns

-- `sorted`, which keeps the order of equal keys.
unfoldable pub sort_candidates : String → List NodeInfo → List NodeInfo
unfolding insert_candidate
sort_candidates self [] = []
sort_candidates self (n ∷ ns) = insert_candidate self n (sort_candidates self ns)

module _ (s : Service) (r : Registry) where
  unfoldable pub update_candidate_ids : List String
  unfolding sort_candidates keep
  update_candidate_ids =
      map (λ n. n.node_id)
        (keep (λ n. target_is_online s r n.node_id) (sort_candidates (self_id s) s.ctx.nodes))

  -- `_cached_update_check_state`: the cached result, unless it is older than the limit.
  unfoldable pub cached_update_check : ℕ → Option CheckCache
  cached_update_check now = elim s.update_check_cache [
    | none ↦ none
    | some cache ↦ if ltb (cache.fetched_at + query_cache_ttl_ms) now then none else some cache
  ]

  unfoldable pub reply_update_check_state :
      String → Option String → String → String → String × String → List Delivery
  reply_update_check_state detail result source status (requester, request) =
      (reply s r requester
        (update_check_state requester request status detail result source s.coordinator_epoch)).0

  pub reply_all : (String × String → List Delivery) → List (String × String) → List Delivery
  reply_all send_to [] = []
  reply_all send_to (q ∷ qs) = send_to q ++ reply_all send_to qs

  with_job : Option Job → Service
  with_job job = record s { update_check_inflight = job }

  abbrev pub no_candidate : String
  no_candidate = "그룹 내에서 업데이트 확인을 수행할 수 있는 노드를 찾지 못했습니다."

  -- The loop that pops candidates, and starts again where the command could not be sent.
  pub try_candidates : ℕ → Job → List String → Outcome
  unfolding with_job reply_all reply_update_check_state
  try_candidates now job [] = (
    with_job none,
    reply_all (reply_update_check_state no_candidate none "" "failed") job.requesters,
  )
  try_candidates now job (c ∷ cs) =
      let rest = try_candidates now job cs in
      let (sent, delivered) = reply s r c (update_check_command job.job_id s.coordinator_epoch) in
      if c == ""
      then rest
      else if target_is_online s r c
      then (if delivered
          then (
            with_job (
                some (record job {
                  candidates = cs;
                  active_candidate_id = c;
                  candidate_started_at = now;
                })),
            sent,
          )
          else rest)
      else rest

  dispatch_job : ℕ → Option Job → Outcome
  unfolding try_candidates
  dispatch_job now none = (s, [])
  dispatch_job now (some job) = try_candidates now job job.candidates

  unfoldable pub dispatch_next_update_check_candidate : ℕ → Outcome
  unfolding dispatch_job
  dispatch_next_update_check_candidate now = dispatch_job now s.update_check_inflight

-- No candidate is at work: what a failure, a timeout and a lost connection leave.
abbrev pub idle_job : Job → Job
idle_job job = record job { active_candidate_id = ""; candidate_started_at = 0 }

module _ (s : Service) (r : Registry) where
  join_or_start : ℕ → String → String × String → Option Job → Outcome
  unfolding with_job
  join_or_start now fresh asker (some job) =
      (with_job s r (some (record job { requesters = job.requesters ++ asker ∷ [] })), [])
  join_or_start now fresh asker none =
      dispatch_next_update_check_candidate
        (with_job s r (
          some (record {
            job_id = fresh;
            requesters = asker ∷ [];
            candidates = update_candidate_ids s r;
            active_candidate_id = "";
            candidate_started_at = 0;
          })))
        r now

  answer_or_start : ℕ → String → String × String → Option CheckCache → Outcome
  unfolding join_or_start reply_update_check_state
  answer_or_start now fresh asker (some cache) =
      (s, reply_update_check_state s r "" (some cache.result) cache.source_id "success" asker)
  answer_or_start now fresh asker none = join_or_start now fresh asker s.update_check_inflight

  -- `fresh` is the id that the program draws for a new job.
  unfoldable pub on_update_check_request :
      ℕ → String → String → Option String → Option String → Outcome
  unfolding answer_or_start
  on_update_check_request now fresh peer requester_id request_id =
      let requester = given_or requester_id peer in
      let request = strip (text_of request_id) in
      if requester == "" || request == ""
      then (s, [])
      else answer_or_start now fresh (requester, request) (cached_update_check s r now)

  -- The fields of a result; `result` is none where the frame has no object there.
  finish_check : ℕ → String → String → Option String → String → Job → Option String → Outcome
  unfolding reply_all reply_update_check_state
  finish_check now peer detail source_id status job (some result) =
      let source = given_or source_id peer in
      if status == "success"
      then (
        record s {
          update_check_cache =
              some (record { fetched_at = now; result = result; source_id = source });
          update_check_inflight = none;
        },
        reply_all s r (reply_update_check_state s r detail (some result) source "success")
            job.requesters,
      )
      else dispatch_next_update_check_candidate
          (record s { update_check_inflight = some (idle_job job) }) r now
  finish_check now peer detail source_id status job none =
      dispatch_next_update_check_candidate
        (record s { update_check_inflight = some (idle_job job) }) r now

  accept_result :
      ℕ
      → String
      → (claimed status detail : String) → (source_id result : Option String) → Option Job
      → Outcome
  unfolding finish_check
  accept_result now peer claimed status detail source_id result none = (s, [])
  accept_result now peer claimed status detail source_id result (some job) =
      if claimed == job.job_id && peer == job.active_candidate_id
      then finish_check now peer detail source_id status job result
      else (s, [])

  unfoldable pub on_update_check_result :
      ℕ → String → (job_id status detail source_id result : Option String) → Outcome
  unfolding accept_result
  on_update_check_result now peer job_id status detail source_id result =
      let claimed = strip (text_of job_id) in
      if claimed == ""
      then (s, [])
      else accept_result now peer claimed (strip (text_of status)) (text_of detail) source_id result
          s.update_check_inflight
