-- ===== src/Coordination/Client/Requests/Expired.antt =====
-- What becomes of the requests that wait too long.
use multi_controller.Prelude.{
  Bool, Option, ℕ, ◌+◌, ltb, if_both, if◌then◌else◌, none, false, ◌≡◌, refl, ◌∙◌, ap, inl, inr,
  true, not, some, [], ◌∷◌, String, ◌==◌, eq_iff, eq_refl, arith, In, Bool-cases,
}
use multi_controller.Prelude.Int.{ℤ}
use multi_controller.Prelude.Text.{strip}
use multi_controller.Prelude.Dict.{
  Dict, HasUniqueKeys, filtered, get-retain, get-set, set-HasUniqueKeys,
}
use multi_controller.Prelude.Dict
use multi_controller.Coordination.Client.{
  Client, OneShot, Around, Effect, node_list_change, remote_update_status, update_check_status,
  update_download_status, timeout_message, track_one_shot_request,
}
use multi_controller.Coordination.Client.Requests.{
  is_due, one_shot_timeout_for_kind, handle_one_shot_timeout, timeouts_of,
  expire_pending_one_shot_requests,
}

In-timeouts_of :
    (revision : ℤ) (id : String) (p : OneShot) (ps : Dict OneShot)
    → Dict.get id ps ≡ some p
    → In (handle_one_shot_timeout revision id p) (timeouts_of revision ps)
unfolding timeouts_of Dict.get
In-timeouts_of revision id p [] h = absurd (ground arith)
In-timeouts_of revision id p ((j, q) ∷ ps) h = elim (Bool-cases (j == id)) [
  | inl e ↦ inl (cong₂ j id q p (ground (arith, eq_iff j id)) (ground arith))
  | inr e ↦ inr (In-timeouts_of revision id p ps (ground arith))
]
  where
    cong₂ :
        (a b : String) (x y : OneShot)
        → a ≡ b
        → x ≡ y
        → handle_one_shot_timeout revision a x ≡ handle_one_shot_timeout revision b y
    cong₂ a b x y e k =
        ap (λ z. handle_one_shot_timeout revision z x) e ∙ ap (handle_one_shot_timeout revision b) k

In-expired :
    (now : ℕ) (c : Client) (id : String) (p : OneShot)
    → HasUniqueKeys c.pending_one_shot_requests
    → Dict.get id c.pending_one_shot_requests ≡ some p
    → is_due now p ≡ true
    → In
        (handle_one_shot_timeout c.node_list_revision id p)
        (expire_pending_one_shot_requests now c).1
unfolding expire_pending_one_shot_requests
In-expired now c id p u h d =
    In-timeouts_of c.node_list_revision id p
      (Dict.retain (λ j q. is_due now q) c.pending_one_shot_requests)
      (get-retain (λ j q. is_due now q) id c.pending_one_shot_requests u
        ∙ ap (filtered (is_due now)) h
        ∙ kept)
  where
    kept : filtered (is_due now) (some p) ≡ some p
    kept = rw d refl

-- A notice of a request that has timed out; it names the request, except that the message for any other kind does not.
abbrev pub IsTimeout : String → Effect → Type 0
IsTimeout id (node_list_change added revision reason request) =
    (reason ≡ "timeout") × (request ≡ id)
IsTimeout id
      (remote_update_status target status reason detail request event session current latest) =
    (status ≡ "failed") × (reason ≡ "timeout") × (request ≡ id)
IsTimeout id (update_check_status status reason detail request result source) =
    (status ≡ "failed") × (reason ≡ "timeout") × (request ≡ id)
IsTimeout id (update_download_status status reason detail request share) =
    (status ≡ "failed") × (reason ≡ "timeout") × (request ≡ id)
IsTimeout id (timeout_message kind target) = Unit
IsTimeout id _ = ⊥

handle_one_shot_timeout-IsTimeout :
    (revision : ℤ) (id : String) (p : OneShot)
    → IsTimeout id (handle_one_shot_timeout revision id p)
unfolding handle_one_shot_timeout
handle_one_shot_timeout-IsTimeout revision id p =
    if_both (IsTimeout id) (strip p.kind == "node_list") _ _ (refl, refl)
      (if_both (IsTimeout id) (strip p.kind == "remote_update") _ _ (refl, refl, refl)
        (if_both (IsTimeout id) (strip p.kind == "update_check") _ _ (refl, refl, refl)
          (if_both (IsTimeout id) (strip p.kind == "update_download") _ _ (refl, refl, refl) tt)))

-- A request waits on before its time has passed.
abbrev waits : ℕ → OneShot → Bool
waits now p = ltb now (p.started_at + one_shot_timeout_for_kind p.kind)

waits_lem :
    (now : ℕ) (o : Option OneShot) → filtered (λ p. not (is_due now p)) o ≡ filtered (waits now) o
unfolding is_due
waits_lem now none = refl
waits_lem now (some p) = ap (λ b. if b then some p else none) (ground arith)

get-expire_pending :
    (now : ℕ) (c : Client) (id : String)
    → HasUniqueKeys c.pending_one_shot_requests
    → Dict.get id (expire_pending_one_shot_requests now c).0.pending_one_shot_requests
      ≡ filtered (waits now) (Dict.get id c.pending_one_shot_requests)
unfolding expire_pending_one_shot_requests
get-expire_pending now c id u =
    get-retain (λ j p. not (is_due now p)) id c.pending_one_shot_requests u
    ∙ waits_lem now (Dict.get id c.pending_one_shot_requests)

due : (now : ℕ) (p : OneShot) → waits now p ≡ false → is_due now p ≡ true
unfolding is_due
due now p h = ground arith

get-set_same : (k : String) (p : OneShot) (m : Dict OneShot) → Dict.get k (Dict.set k p m) ≡ some p
get-set_same k p m = ground (arith, get-set k k p m, eq_refl k)

get-set_other :
    (k id : String) (p : OneShot) (m : Dict OneShot)
    → (k == id) ≡ false
    → Dict.get id (Dict.set k p m) ≡ Dict.get id m
get-set_other k id p m h = ground (arith, get-set k id p m)

-- When a request with a new id is tracked and the clock is looked at later, it still waits for its answer exactly
-- if less time has passed since than its kind allows; otherwise it is forgotten and there is a notice that it has
-- timed out. Every other request waits on exactly if less has passed since it was tracked than its own kind allows.
pub expire_pending_one_shot_requests-track_one_shot_request :
    (c : Client) (env : Around) (kind target : String) (later : ℕ)
    → HasUniqueKeys c.pending_one_shot_requests
    → (env.fresh == "") ≡ false
    → let out = expire_pending_one_shot_requests later (track_one_shot_request c env kind target) in
      (Dict.get env.fresh out.0.pending_one_shot_requests ≡ (
        if ltb later (env.now + one_shot_timeout_for_kind kind)
        then some (record { kind = kind; target_id = target; started_at = env.now })
        else none))
      × (ltb later (env.now + one_shot_timeout_for_kind kind) ≡ false
          → (e : Effect) × In e out.1 × IsTimeout env.fresh e)
      × ((id : String)
          → (env.fresh == id) ≡ false
          → Dict.get id out.0.pending_one_shot_requests
            ≡ filtered
                (λ p. ltb later (p.started_at + one_shot_timeout_for_kind p.kind))
                (Dict.get id c.pending_one_shot_requests))
unfolding track_one_shot_request
expire_pending_one_shot_requests-track_one_shot_request c env kind target later u named =
    let p : OneShot = record { kind = kind; target_id = target; started_at = env.now } in
    let pending = c.pending_one_shot_requests in
    let tracked = record c { pending_one_shot_requests = Dict.set env.fresh p pending } in
    let unique = set-HasUniqueKeys env.fresh p pending u in
    let there = get-set_same env.fresh p pending in
    rw named (
      get-expire_pending later tracked env.fresh unique ∙ ap (filtered (waits later)) there,
      λ late. (
        handle_one_shot_timeout tracked.node_list_revision env.fresh p,
        In-expired later tracked env.fresh p unique there (due later p late),
        handle_one_shot_timeout-IsTimeout tracked.node_list_revision env.fresh p,
      ),
      λ id other.
          get-expire_pending later tracked id unique
          ∙ ap (filtered (waits later)) (get-set_other env.fresh id p pending other),
    )
