-- ===== src/Tests/Updates.antt =====
-- An update check that the laptop works on, asked for by the tower.
use multi_controller.Prelude.{◌≡◌, ◌⊎◌, refl, arith, All, none, some, [], ◌∷◌}
use multi_controller.Prelude.Text.{given_or, strip, text_of}
use multi_controller.Prelude.Dict
use multi_controller.Registry
use multi_controller.Coordination.Service.{Service, Job, reply, target_is_online}
use multi_controller.Coordination.Service.Updates.{
  dispatch_next_update_check_candidate, on_update_check_result,
}
use multi_controller.Coordination.Service.Updates.Answers.{
  AllAnswered, answer, finished, on_update_check_result-AllAnswered,
}
use multi_controller.Coordination.Service.Updates.Dispatch.{
  HasCandidate, AllReached, IsAbsent, IsGivenUp, dispatch-HasCandidate,
}
use multi_controller.Tests.Samples.{desk_registry, leased}

abbrev check : Job
check = record {
  job_id = "j1";
  requesters = ("laptop", "q1") ∷ [];
  candidates = "tower" ∷ "laptop" ∷ [];
  active_candidate_id = "desk";
  candidate_started_at = 50;
}

abbrev checking : Service
checking = record leased { update_check_inflight = some check }

checking-AllReached : AllReached checking desk_registry 100 check
unfolding target_is_online reply Registry.get Dict.get
checking-AllReached x online = ground arith

dispatch-HasCandidate_example :
    HasCandidate checking desk_registry 100 check check.candidates
      (dispatch_next_update_check_candidate checking desk_registry 100)
    ⊎ (All (IsAbsent checking desk_registry 100 check) check.candidates
        × IsGivenUp checking desk_registry check
            (dispatch_next_update_check_candidate checking desk_registry 100))
dispatch-HasCandidate_example =
    dispatch-HasCandidate checking desk_registry 100 check refl checking-AllReached

on_update_check_result-AllAnswered_example :
    ((on_update_check_result checking desk_registry 100 "desk"
        (some "j1")
        (some "success")
        none
        none
        (some "0.3.2")).0
      ≡ finished checking 100 "0.3.2" (given_or none "desk"))
    × AllAnswered checking desk_registry check.requesters
        (answer checking "success" (text_of none) (some "0.3.2") (given_or none "desk"))
        (on_update_check_result checking desk_registry 100 "desk"
          (some "j1")
          (some "success")
          none
          none
          (some "0.3.2")).1
unfolding strip
on_update_check_result-AllAnswered_example =
    on_update_check_result-AllAnswered checking desk_registry 100 "desk" check none none "0.3.2"
      refl refl refl refl
