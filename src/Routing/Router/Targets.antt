-- ===== src/Routing/Router/Targets.antt =====
-- The target that is active after an operation of the router.
use multi_controller.Prelude.{
  ◌≡◌, ◌⊎◌, refl, sym, ◌∙◌, inl, inr, Bool, true, ◌&&◌, Option, none, some, String, ◌==◌, eq_iff,
  arith, Bool-cases,
}
use multi_controller.Context.{Context}
use multi_controller.Registry
use multi_controller.Registry.{Registry}
use multi_controller.Routing.Router.{
  Position, Captured, Remote, Mode, inactive, pending, active, Router, same_mode, same_target,
  has_conn, swapped, swap_state, reset_local_held_state, clear_target, is_target,
  set_pending_target, send_anchor, apply_pending_handoff, activate_target, prepare_pointer_handoff,
  prepare_local_return, consume_local_return_anchor_event, send_event, forward, route,
  build_remote_event, Operation, sets_pending, activates, clears, prepares_handoff, prepares_return,
  consumes_return, routes, step,
}

unchanged_target : (p q : Bool) (a b : Option String) → (p && q && same_target a b) ≡ true → a ≡ b
unchanged_target p q none none h = refl
unchanged_target p q none (some k) h = ground arith
unchanged_target p q (some j) none h = ground arith
unchanged_target p q (some j) (some k) h = ground (arith, eq_iff j k)

swap_state-active :
    (s : Router) (r : Registry) (m : Mode) (q a : Option String)
    → (swap_state s r m q a).0.active_target_id ≡ a
unfolding swap_state swapped
swap_state-active s r m q a =
    elim (Bool-cases (
      same_mode s.mode m
      && same_target s.requested_target_id q
      && same_target s.active_target_id a)) [
        | inl e ↦ rw e (
            unchanged_target (same_mode s.mode m) (same_target s.requested_target_id q)
              s.active_target_id a e)
        | inr e ↦ rw e refl
      ]

pub clear_target-active : (s : Router) (r : Registry) → (clear_target s r).0.active_target_id ≡ none
unfolding clear_target reset_local_held_state
clear_target-active s r = swap_state-active s r inactive none none

pub set_pending_target-active :
    (s : Router) (ctx : Context) (r : Registry) (k : Option String)
    → (set_pending_target s ctx r k).0.active_target_id ≡ none
unfolding set_pending_target
set_pending_target-active s ctx r none = clear_target-active s r
set_pending_target-active s ctx r (some k) = elim (Bool-cases (is_target ctx k)) [
  | inl e ↦ rw e (swap_state-active s r pending (some k) none)
  | inr e ↦ rw e (clear_target-active s r)
]

send_anchor-active :
    (s : Router) (r : Registry) (k : String) (p : Option Position)
    → (send_anchor s r k p).0.active_target_id ≡ s.active_target_id
unfolding send_anchor
send_anchor-active s r k none = refl
send_anchor-active s r k (some p) = elim (Bool-cases (has_conn (Registry.get r k))) [
  | inl e ↦ rw e refl
  | inr e ↦ rw e refl
]

pub activate_target-active :
    (s : Router) (ctx : Context) (r : Registry) (k j : String)
    → (activate_target s ctx r k).0.active_target_id ≡ some j
    → k ≡ j
unfolding activate_target apply_pending_handoff reset_local_held_state
activate_target-active s ctx r k j = elim (Bool-cases (is_target ctx k)) [
  | inl e ↦ rw e (λ h.
      some_eq (
        sym (swap_state-active s r active (some k) (some k))
        ∙ sym (send_anchor-active _ r k _)
        ∙ h))
  | inr e ↦ rw e (λ h. absurd (no_target (sym (clear_target-active s r) ∙ h)))
]
  where
    some_eq : {a b : String} → some a ≡ some b → a ≡ b
    some_eq {a} {b} h = ground arith

    no_target : none ≡ some j → ⊥
    no_target h = ground arith

-- The operation activates the target.
abbrev pub Activates : Operation → String → Type 0
Activates (activates j) k = j ≡ k
Activates _ k = ⊥

send_event-active :
    (s : Router) (r : Registry) (k : String) (event : Captured) (frame : Option Remote)
    → (send_event s r k event frame).0.active_target_id ≡ s.active_target_id
unfolding send_event
send_event-active s r k event none = refl
send_event-active s r k event (some frame) = refl

forward-active :
    (s : Router) (ctx : Context) (r : Registry) (m : Mode) (a : Option String) (event : Captured)
    → (forward s ctx r m a event).0.active_target_id ≡ s.active_target_id
unfolding forward
forward-active s ctx r inactive a event = refl
forward-active s ctx r pending a event = refl
forward-active s ctx r active none event = refl
forward-active s ctx r active (some k) event = elim (Bool-cases (k == ctx.self_node.node_id)) [
  | inl e ↦ rw e refl
  | inr e ↦ rw e (send_event-active s r k event (build_remote_event event))
]

route-active :
    (s : Router) (ctx : Context) (r : Registry) (event : Captured)
    → (route s ctx r event).0.active_target_id ≡ s.active_target_id
unfolding route
route-active s ctx r event = forward-active _ ctx r s.mode s.active_target_id event

pub no_some : {a : Option String} {k : String} {C : Type 0} → a ≡ none → a ≡ some k → C
no_some {a} {k} p h = absurd (ground arith)

pub step-active :
    (s : Router) (ctx : Context) (r : Registry) (o : Operation) (k : String)
    → (step s ctx r o).0.active_target_id ≡ some k
    → (s.active_target_id ≡ some k) ⊎ Activates o k
unfolding step
step-active s ctx r (sets_pending j) k h = no_some (set_pending_target-active s ctx r j) h
step-active s ctx r (activates j) k h = inr (activate_target-active s ctx r j k h)
step-active s ctx r clears k h = no_some (clear_target-active s r) h
step-active s ctx r (prepares_handoff none) k h = inl (unfold prepare_pointer_handoff in h)
step-active s ctx r (prepares_handoff (some p)) k h = inl (unfold prepare_pointer_handoff in h)
step-active s ctx r (prepares_return none) k h = inl (unfold prepare_local_return in h)
step-active s ctx r (prepares_return (some p)) k h = inl (unfold prepare_local_return in h)
step-active s ctx r consumes_return k h = inl (unfold consume_local_return_anchor_event in h)
step-active s ctx r (routes event) k h = inl (sym (route-active s ctx r event) ∙ h)
