-- ===== src/Routing/Router/Coherent.antt =====
-- The three fields that name the target of the router fit together.
use multi_controller.Prelude.{
  ◌≡◌, refl, inl, inr, ◌&&◌, Option, none, some, String, ◌==◌, Bool-cases,
}
use multi_controller.Context.{Context}
use multi_controller.Registry
use multi_controller.Registry.{Registry}
use multi_controller.Routing.Router.{
  Position, Captured, Remote, has_conn, Mode, inactive, pending, active, Router, same_mode,
  same_target, swapped, swap_state, reset_local_held_state, clear_target, is_target,
  set_pending_target, send_anchor, apply_pending_handoff, activate_target, prepare_pointer_handoff,
  prepare_local_return, consume_local_return_anchor_event, send_event, forward, route,
  build_remote_event, Operation, sets_pending, activates, clears, prepares_handoff, prepares_return,
  consumes_return, routes, step,
}

-- No target, one that is asked for, or one that is asked for and active.
abbrev pub Fits : Mode → Option String → Option String → Type 0
Fits inactive none none = Unit
Fits pending (some k) none = Unit
Fits active (some k) (some j) = k ≡ j
Fits _ _ _ = ⊥

abbrev pub IsCoherent : Router → Type 0
IsCoherent s = Fits s.mode s.requested_target_id s.active_target_id

swap_state-IsCoherent :
    (s : Router) (r : Registry) (m : Mode) (q a : Option String)
    → IsCoherent s
    → Fits m q a
    → IsCoherent (swap_state s r m q a).0
unfolding swap_state swapped
swap_state-IsCoherent s r m q a h g =
    elim (Bool-cases (
      same_mode s.mode m
      && same_target s.requested_target_id q
      && same_target s.active_target_id a)) [ inl e ↦ rw e h | inr e ↦ rw e g ]

pub clear_target-IsCoherent :
    (s : Router) (r : Registry) → IsCoherent s → IsCoherent (clear_target s r).0
unfolding clear_target reset_local_held_state
clear_target-IsCoherent s r h = swap_state-IsCoherent s r inactive none none h tt

set_pending_target-IsCoherent :
    (s : Router) (ctx : Context) (r : Registry) (k : Option String)
    → IsCoherent s
    → IsCoherent (set_pending_target s ctx r k).0
unfolding set_pending_target
set_pending_target-IsCoherent s ctx r none h = clear_target-IsCoherent s r h
set_pending_target-IsCoherent s ctx r (some k) h = elim (Bool-cases (is_target ctx k)) [
  | inl e ↦ rw e (swap_state-IsCoherent s r pending (some k) none h tt)
  | inr e ↦ rw e (clear_target-IsCoherent s r h)
]

send_anchor-IsCoherent :
    (s : Router) (r : Registry) (k : String) (p : Option Position)
    → IsCoherent s
    → IsCoherent (send_anchor s r k p).0
unfolding send_anchor
send_anchor-IsCoherent s r k none h = h
send_anchor-IsCoherent s r k (some p) h = elim (Bool-cases (has_conn (Registry.get r k))) [
  | inl e ↦ rw e h
  | inr e ↦ rw e h
]

activate_target-IsCoherent :
    (s : Router) (ctx : Context) (r : Registry) (k : String)
    → IsCoherent s
    → IsCoherent (activate_target s ctx r k).0
unfolding activate_target apply_pending_handoff reset_local_held_state
activate_target-IsCoherent s ctx r k h = elim (Bool-cases (is_target ctx k)) [
  | inl e ↦
      rw e
        (send_anchor-IsCoherent _ r k _ (swap_state-IsCoherent s r active (some k) (some k) h refl))
  | inr e ↦ rw e (clear_target-IsCoherent s r h)
]

send_event-IsCoherent :
    (s : Router) (r : Registry) (k : String) (event : Captured) (frame : Option Remote)
    → IsCoherent s
    → IsCoherent (send_event s r k event frame).0
unfolding send_event
send_event-IsCoherent s r k event none h = h
send_event-IsCoherent s r k event (some frame) h = h

forward-IsCoherent :
    (s : Router) (ctx : Context) (r : Registry) (m : Mode) (a : Option String) (event : Captured)
    → IsCoherent s
    → IsCoherent (forward s ctx r m a event).0
unfolding forward
forward-IsCoherent s ctx r inactive a event h = h
forward-IsCoherent s ctx r pending a event h = h
forward-IsCoherent s ctx r active none event h = h
forward-IsCoherent s ctx r active (some k) event h =
    elim (Bool-cases (k == ctx.self_node.node_id)) [
      | inl e ↦ rw e h
      | inr e ↦ rw e (send_event-IsCoherent s r k event (build_remote_event event) h)
    ]

-- Every operation keeps the mode, the requested target and the active target of the router in line: it has no
-- target, one that is pending and not active, or one that is both requested and active.
pub step-IsCoherent :
    (s : Router) (ctx : Context) (r : Registry) (o : Operation)
    → IsCoherent s
    → IsCoherent (step s ctx r o).0
unfolding step
step-IsCoherent s ctx r (sets_pending k) h = set_pending_target-IsCoherent s ctx r k h
step-IsCoherent s ctx r (activates k) h = activate_target-IsCoherent s ctx r k h
step-IsCoherent s ctx r clears h = clear_target-IsCoherent s r h
step-IsCoherent s ctx r (prepares_handoff none) h = unfold prepare_pointer_handoff in h
step-IsCoherent s ctx r (prepares_handoff (some p)) h = unfold prepare_pointer_handoff in h
step-IsCoherent s ctx r (prepares_return none) h = unfold prepare_local_return in h
step-IsCoherent s ctx r (prepares_return (some p)) h = unfold prepare_local_return in h
step-IsCoherent s ctx r consumes_return h = unfold consume_local_return_anchor_event in h
step-IsCoherent s ctx r (routes event) h =
    unfold route in forward-IsCoherent _ ctx r s.mode s.active_target_id event h
