-- ===== src/Coordination/Service/Updates/Dispatch.antt =====
-- Who works on an update check.
use multi_controller.Prelude.{
  ℕ, ◌≡◌, refl, subst, ap, ◌⊎◌, inl, inr, Bool, All, true, false, none, some, List, [], ◌∷◌, ◌++◌,
  String, ◌==◌, arith, Bool-cases,
}
use multi_controller.Registry.{Registry}
use multi_controller.Coordination.Protocol.{update_check_command}
use multi_controller.Coordination.Service.{Service, Outcome, Job, reply, target_is_online}
use multi_controller.Coordination.Service.Updates.{
  no_candidate, try_candidates, dispatch_job, dispatch_next_update_check_candidate, with_job,
}
use multi_controller.Coordination.Service.Updates.Answers.{
  answer, AllAnswered, reply_all-AllAnswered,
}

-- A candidate of the job that is online works on it since `now`.
abbrev pub IsAtWork : Service → Registry → ℕ → Job → String → List String → Outcome → Type 0
IsAtWork s r now job c cs o =
    (o.0 ≡ record s {
      update_check_inflight =
          some
            (record job { candidates = cs; active_candidate_id = c; candidate_started_at = now });
    })
    × (target_is_online s r c ≡ true)
    × (o.1 ≡ (reply s r c (update_check_command job.job_id s.coordinator_epoch)).0)
    × ((reply s r c (update_check_command job.job_id s.coordinator_epoch)).1 ≡ true)

-- The job is given up, and its requesters are told so.
abbrev pub IsGivenUp : Service → Registry → Job → Outcome → Type 0
IsGivenUp s r job o =
    (o.0 ≡ record s { update_check_inflight = none })
    × AllAnswered s r job.requesters (answer s "failed" (no_candidate s r) none "") o.1

module _ (s : Service) (r : Registry) (now : ℕ) (job : Job) where
  -- A candidate that has no name, is not online, or was not sent the command.
  abbrev pub IsPassed : String → Type 0
  IsPassed x =
      ((x == "") ≡ true)
      ⊎ (target_is_online s r x ≡ false)
      ⊎ ((reply s r x (update_check_command job.job_id s.coordinator_epoch)).1 ≡ false)

  abbrev pub HasWorker : (String → Type 0) → List String → Outcome → Type 0
  HasWorker P xs o =
      (before : List String) × (c : String) × (cs : List String) × (xs ≡ before ++ c ∷ cs)
      × All P before
      × ((c == "") ≡ false)
      × IsAtWork s r now job c cs o

  later_candidate :
      (x : String) (xs : List String) (o : Outcome)
      → IsPassed x
      → HasWorker IsPassed xs o ⊎ (All IsPassed xs × IsGivenUp s r job o)
      → HasWorker IsPassed (x ∷ xs) o ⊎ (All IsPassed (x ∷ xs) × IsGivenUp s r job o)
  later_candidate x xs o p (inl (before, c, cs, e, h, n, work)) =
      inl (x ∷ before, c, cs, ap (λ l. x ∷ l) e, (p, h), n, work)
  later_candidate x xs o p (inr (h, up)) = inr ((p, h), up)

  try_candidates-passed :
      (x : String) (xs : List String)
      → IsPassed x
      → try_candidates s r now job xs ≡ try_candidates s r now job (x ∷ xs)
  unfolding try_candidates
  try_candidates-passed x xs p = ground arith

  abbrev Result : List String → Outcome → Type 0
  Result xs o = HasWorker IsPassed xs o ⊎ (All IsPassed xs × IsGivenUp s r job o)

  try_candidates-first :
      (x : String) (xs : List String)
      → (x == "") ≡ false
      → target_is_online s r x ≡ true
      → (reply s r x (update_check_command job.job_id s.coordinator_epoch)).1 ≡ true
      → IsAtWork s r now job x xs (try_candidates s r now job (x ∷ xs))
  unfolding try_candidates with_job
  try_candidates-first x xs e on sent = rw (e, on, sent) (refl, refl, refl, refl)

  pass :
      (x : String) (xs : List String)
      → IsPassed x
      → Result xs (try_candidates s r now job xs)
      → Result (x ∷ xs) (try_candidates s r now job (x ∷ xs))
  pass x xs p rest =
      subst (Result (x ∷ xs)) (try_candidates-passed x xs p)
        (later_candidate x xs (try_candidates s r now job xs) p rest)

  pub try_candidates-cases : (xs : List String) → Result xs (try_candidates s r now job xs)
  unfolding try_candidates with_job
  try_candidates-cases [] =
      inr (tt, (refl, reply_all-AllAnswered s r "failed" (no_candidate s r) none "" job.requesters))
  try_candidates-cases (x ∷ xs) = elim (Bool-cases (x == "")) [
    | inl e ↦ pass x xs (inl e) (try_candidates-cases xs)
    | inr e ↦ elim (Bool-cases (target_is_online s r x)) [
      | inr off ↦ pass x xs (inr (inl off)) (try_candidates-cases xs)
      | inl on ↦
          elim (Bool-cases (reply s r x (update_check_command job.job_id s.coordinator_epoch)).1) [
            | inr lost ↦ pass x xs (inr (inr lost)) (try_candidates-cases xs)
            | inl sent ↦ inl ([], x, xs, refl, tt, e, try_candidates-first x xs e on sent)
          ]
    ]
  ]

  -- A candidate that has no name or is not online.
  abbrev pub IsAbsent : String → Type 0
  IsAbsent x = ((x == "") ≡ true) ⊎ (target_is_online s r x ≡ false)

  -- The first candidate that is there works on the job; the ones before it are absent.
  abbrev pub HasCandidate : List String → Outcome → Type 0
  HasCandidate = HasWorker IsAbsent

  -- Every candidate that is online takes the command.
  abbrev pub AllReached : Type 0
  AllReached =
      (x : String)
      → target_is_online s r x ≡ true
      → (reply s r x (update_check_command job.job_id s.coordinator_epoch)).1 ≡ true

  absent : AllReached → (x : String) → IsPassed x → IsAbsent x
  absent reached x (inl e) = inl e
  absent reached x (inr (inl off)) = inr off
  absent reached x (inr (inr lost)) = elim (Bool-cases (target_is_online s r x)) [
    | inl on ↦ absurd (not_both _ (reached x on) lost)
    | inr off ↦ inr off
  ]
    where
      not_both : (b : Bool) → b ≡ true → b ≡ false → ⊥
      not_both b t f = ground arith

  All-IsAbsent : AllReached → (xs : List String) → All IsPassed xs → All IsAbsent xs
  All-IsAbsent reached [] h = tt
  All-IsAbsent reached (x ∷ xs) h = (absent reached x h.0, All-IsAbsent reached xs h.1)

  first_present :
      AllReached
      → (xs : List String) (o : Outcome)
      → HasWorker IsPassed xs o ⊎ (All IsPassed xs × IsGivenUp s r job o)
      → HasCandidate xs o ⊎ (All IsAbsent xs × IsGivenUp s r job o)
  first_present reached xs o (inl (before, c, cs, e, h, n, work)) =
      inl (before, c, cs, e, All-IsAbsent reached before h, n, work)
  first_present reached xs o (inr (h, up)) = inr (All-IsAbsent reached xs h, up)

-- Dispatching a check that is in flight, where every node that is online takes the command. Either the first of its
-- candidates that has a name and is online is sent the command and works on it from now on, for the same requesters
-- and with the candidates after it left; or no candidate is online, the check is over and every requester that can
-- be reached is told that it failed.
pub dispatch-HasCandidate :
    (s : Service) (r : Registry) (now : ℕ) (job : Job)
    → s.update_check_inflight ≡ some job
    → AllReached s r now job
    → HasCandidate s r now job job.candidates (dispatch_next_update_check_candidate s r now)
      ⊎ (All (IsAbsent s r now job) job.candidates
          × IsGivenUp s r job (dispatch_next_update_check_candidate s r now))
unfolding dispatch_next_update_check_candidate dispatch_job target_is_online reply
dispatch-HasCandidate s r now job h reached =
    rw (h, dispatch_job)
      (first_present s r now job reached job.candidates (try_candidates s r now job job.candidates)
        (try_candidates-cases s r now job job.candidates))
