-- ===== src/Routing/Router/Delivered.antt =====
-- No input stays down at a target that the router has left.
use multi_controller.Prelude.{
  ◌≡◌, ◌⊎◌, refl, sym, ap, ◌∙◌, inl, inr, Bool, true, false, ◌&&◌, Option, none, some, List, [],
  ◌∷◌, String, ◌==◌, eq_iff, arith, if◌then◌else◌, any, Bool-cases, Option-cases,
}
use multi_controller.Prelude.Int.{ℤ}
use multi_controller.Context.{Context}
use multi_controller.Registry
use multi_controller.Registry.{Registry, Conn}
use multi_controller.Routing.Sink.{inject, inject_mouse_move, has_entry}
use multi_controller.Routing.Sink.Released.{Input, entry_of, IsPlain, after_calls}
use multi_controller.Routing.Sink.Authorized.{other_lem}
use multi_controller.Routing.Router.{
  Position, Captured, Remote, Mode, inactive, pending, active, Router, same_mode, same_target,
  leaves, releases_of, deliver, has_conn, swapped, swap_state, reset_local_held_state, clear_target,
  is_target, set_pending_target, send_anchor, apply_pending_handoff, activate_target,
  prepare_pointer_handoff, prepare_local_return, consume_local_return_anchor_event, tracked,
  send_event, forward, route, build_remote_event, Operation, sets_pending, activates, clears,
  prepares_handoff, prepares_return, consumes_return, routes, step, History, run,
}
use multi_controller.Routing.Router.Coherent.{Fits, IsCoherent, step-IsCoherent}
use multi_controller.Routing.Router.Released.{
  IsPlainCapture, after_frames, after_frames-append, after_calls-tracked, takes,
  after_frames-send_releases,
}

-- What the router has pressed at a target.
abbrev pub pressed_of : Option String → List String → String → Input → Bool
pressed_of none es t i = false
pressed_of (some k) es t i = if k == t then has_entry (entry_of i) es else false

abbrev pub presses : Router → String → Input → Bool
presses s t i = pressed_of s.active_target_id s.remote_pressed_entries t i

-- The connection of the active target, if there is one, takes what is sent.
abbrev pub heard : Registry → Option String → Bool
heard r none = true
heard r (some k) = takes (Registry.get r k)

deliver-cases :
    (r : Registry) (k : String) (frame : Remote)
    → (deliver r k frame ≡ ((k, frame) ∷ [], true)) ⊎ (deliver r k frame ≡ ([], false))
unfolding deliver
deliver-cases r k frame = elim (Option-cases (Registry.get r k)) [
  | inl e ↦ rw (e, deliver) (inr refl)
  | inr (c, e) ↦
      rw (e, deliver)
        (elim (Bool-cases c.accepts) [ inl a ↦ rw a (inl refl) | inr a ↦ rw a (inr refl) ])
]

no_presses : (a : Option String) (t : String) (i : Input) → pressed_of a [] t i ≡ false
unfolding has_entry any
no_presses none t i = refl
no_presses (some k) t i = ground arith

module _ (resolve : Position → ℤ × ℤ) (i : Input) (plain : IsPlain i) (r : Registry)
    (t : String) where
  released_at :
      (k : String) (es : List String)
      → takes (Registry.get r k) ≡ true
      → after_frames resolve i t (pressed_of (some k) es t i) (releases_of r (some k) es) ≡ false
  released_at k es h = after_frames-send_releases resolve i plain r t k es _ h ∙ ground arith

  -- When the three fields change, all that was pressed is released.
  left_frames :
      (m m' : Mode) (q q' a a' : Option String) (es : List String)
      → Fits m q a
      → Fits m' q' a'
      → (same_mode m m' && same_target q q' && same_target a a') ≡ false
      → heard r a ≡ true
      → after_frames resolve i t
          (pressed_of a es t i)
          (if leaves m a a' then releases_of r a es else [])
        ≡ false
  unfolding after_frames
  left_frames inactive m' none q' none a' es f g d h = refl
  left_frames pending m' (some k) q' none a' es f g d h = refl
  left_frames active m' (some k) q' (some j) none es f g d h = released_at j es h
  left_frames active active (some k) (some k') (some j) (some j') es f g d h =
      rw (other k k' j j' f g d) (released_at j es h)
    where
      other :
          (x x' y y' : String)
          → x ≡ y
          → x' ≡ y'
          → ((x == x') && (y == y')) ≡ false
          → (y == y') ≡ false
      other x x' y y' p p' n = ground (arith, eq_iff x x', eq_iff y y')
  left_frames inactive m' none q' (some x) a' es f g d h = absurd f
  left_frames inactive m' (some k) q' a a' es f g d h = absurd f
  left_frames pending m' none q' a a' es f g d h = absurd f
  left_frames pending m' (some k) q' (some x) a' es f g d h = absurd f
  left_frames active m' none q' a a' es f g d h = absurd f
  left_frames active m' (some k) q' none a' es f g d h = absurd f
  left_frames active inactive (some k) none (some j) (some j') es f g d h = absurd g
  left_frames active inactive (some k) (some k') (some j) (some j') es f g d h = absurd g
  left_frames active pending (some k) none (some j) (some j') es f g d h = absurd g
  left_frames active pending (some k) (some k') (some j) (some j') es f g d h = absurd g
  left_frames active active (some k) none (some j) (some j') es f g d h = absurd g

  swap_state-frames :
      (s : Router) (m : Mode) (q a : Option String)
      → IsCoherent s
      → Fits m q a
      → heard r s.active_target_id ≡ true
      → after_frames resolve i t (presses s t i) (swap_state s r m q a).1
        ≡ presses (swap_state s r m q a).0 t i
  unfolding swap_state swapped
  swap_state-frames s m q a f g h =
      elim (Bool-cases (
        same_mode s.mode m
        && same_target s.requested_target_id q
        && same_target s.active_target_id a)) [
          | inl e ↦ rw e (unfold after_frames in refl)
          | inr e ↦ rw e (
              left_frames s.mode m s.requested_target_id q s.active_target_id a
                s.remote_pressed_entries f g e h
              ∙ sym (no_presses a t i))
        ]

  clear_target-frames :
      (s : Router)
      → IsCoherent s
      → heard r s.active_target_id ≡ true
      → after_frames resolve i t (presses s t i) (clear_target s r).1
        ≡ presses (clear_target s r).0 t i
  unfolding clear_target reset_local_held_state
  clear_target-frames s f h = swap_state-frames s inactive none none f tt h

  set_pending_target-frames :
      (s : Router) (ctx : Context) (k : Option String)
      → IsCoherent s
      → heard r s.active_target_id ≡ true
      → after_frames resolve i t (presses s t i) (set_pending_target s ctx r k).1
        ≡ presses (set_pending_target s ctx r k).0 t i
  unfolding set_pending_target
  set_pending_target-frames s ctx none f h = clear_target-frames s f h
  set_pending_target-frames s ctx (some k) f h = elim (Bool-cases (is_target ctx k)) [
    | inl e ↦ rw e (swap_state-frames s pending (some k) none f tt h)
    | inr e ↦ rw e (clear_target-frames s f h)
  ]

  deliver_move :
      (k : String) (p : Position) (b : Bool)
      → after_frames resolve i t b (deliver r k (Remote.mouse_move p)).0 ≡ b
  unfolding after_frames after_calls inject
  deliver_move k p b = elim (deliver-cases r k (Remote.mouse_move p)) [
    | inl e ↦
        rw (ap (λ d. d.0) e, after_frames)
          (ground (arith, other_lem i b (inject_mouse_move (resolve p).0 (resolve p).1) tt))
    | inr e ↦ rw (ap (λ d. d.0) e, after_frames) refl
  ]

  send_anchor-frames :
      (s : Router) (k : String) (p : Option Position) (b : Bool)
      → (after_frames resolve i t b (send_anchor s r k p).1 ≡ b)
        × (presses (send_anchor s r k p).0 t i ≡ presses s t i)
  unfolding send_anchor
  send_anchor-frames s k none b = (unfold after_frames in refl, refl)
  send_anchor-frames s k (some p) b = elim (Bool-cases (has_conn (Registry.get r k))) [
    | inl e ↦ rw e (deliver_move k p b, refl)
    | inr e ↦ rw e (unfold after_frames in refl, refl)
  ]

  activate_target-frames :
      (s : Router) (ctx : Context) (k : String)
      → IsCoherent s
      → heard r s.active_target_id ≡ true
      → after_frames resolve i t (presses s t i) (activate_target s ctx r k).1
        ≡ presses (activate_target s ctx r k).0 t i
  unfolding activate_target apply_pending_handoff reset_local_held_state
  activate_target-frames s ctx k f h = elim (Bool-cases (is_target ctx k)) [
    | inr e ↦ rw e (clear_target-frames s f h)
    | inl e ↦ rw e (
        after_frames-append resolve i t (presses s t i) (swap_state s r active (some k) (some k)).1
          _
        ∙ (send_anchor-frames _ k _ _).0
        ∙ swap_state-frames s active (some k) (some k) f refl h
        ∙ sym (send_anchor-frames _ k _ false).1)
  ]

  one_frame :
      (k : String) (frame : Remote) (es : List String) (event : Captured)
      → IsPlainCapture event
      → build_remote_event event ≡ some frame
      → after_frames resolve i t (pressed_of (some k) es t i) ((k, frame) ∷ [])
        ≡ pressed_of (some k) (tracked event es) t i
  unfolding after_frames
  one_frame k frame es event ev e = elim (Bool-cases (k == t)) [
    | inl q ↦ rw q (after_calls-tracked resolve i event frame es plain ev e)
    | inr q ↦ rw q refl
  ]

  send_event-frames :
      (s : Router) (k : String) (event : Captured) (frame : Option Remote)
      → s.active_target_id ≡ some k
      → IsPlainCapture event
      → build_remote_event event ≡ frame
      → after_frames resolve i t (presses s t i) (send_event s r k event frame).1
        ≡ presses (send_event s r k event frame).0 t i
  unfolding send_event
  send_event-frames s k event none a ev e = unfold after_frames in refl
  send_event-frames s k event (some frame) a ev e = elim (deliver-cases r k frame) [
    | inr d ↦ rw d (unfold after_frames in refl)
    | inl d ↦ rw d (
        ap
          (λ x.
            after_frames resolve i t (pressed_of x s.remote_pressed_entries t i) ((k, frame) ∷ []))
          a
        ∙ one_frame k frame s.remote_pressed_entries event ev e
        ∙ ap (λ x. pressed_of x (tracked event s.remote_pressed_entries) t i) (sym a))
  ]

  forward-frames :
      (s : Router) (ctx : Context) (m : Mode) (a : Option String) (event : Captured)
      → s.active_target_id ≡ a
      → IsPlainCapture event
      → after_frames resolve i t (presses s t i) (forward s ctx r m a event).1
        ≡ presses (forward s ctx r m a event).0 t i
  unfolding forward
  forward-frames s ctx inactive a event e ev = unfold after_frames in refl
  forward-frames s ctx pending a event e ev = unfold after_frames in refl
  forward-frames s ctx active none event e ev = unfold after_frames in refl
  forward-frames s ctx active (some k) event e ev = elim (Bool-cases (k == ctx.self_node.node_id)) [
    | inl q ↦ rw q (unfold after_frames in refl)
    | inr q ↦ rw q (send_event-frames s k event (build_remote_event event) e ev refl)
  ]

-- What the connection of the active target has to do for an operation: to forward an event it may fail.
abbrev pub IsHeard : Router → Registry → Operation → Type 0
IsHeard s r (routes event) = IsPlainCapture event
IsHeard s r _ = heard r s.active_target_id ≡ true

-- So in every step of a history.
abbrev pub IsHeardThroughout : Router → History → Type 0
IsHeardThroughout s [] = Unit
IsHeardThroughout s ((ctx, r, o) ∷ os) = IsHeard s r o × IsHeardThroughout (step s ctx r o).0 os

module _ (resolve : Position → ℤ × ℤ) (i : Input) (plain : IsPlain i) (t : String) where
  step-frames :
      (s : Router) (ctx : Context) (r : Registry) (o : Operation)
      → IsCoherent s
      → IsHeard s r o
      → after_frames resolve i t (presses s t i) (step s ctx r o).1 ≡ presses (step s ctx r o).0 t i
  unfolding step
  step-frames s ctx r (sets_pending k) f h =
      set_pending_target-frames resolve i plain r t s ctx k f h
  step-frames s ctx r (activates k) f h = activate_target-frames resolve i plain r t s ctx k f h
  step-frames s ctx r clears f h = clear_target-frames resolve i plain r t s f h
  step-frames s ctx r (prepares_handoff none) f h =
      unfold after_frames prepare_pointer_handoff in refl
  step-frames s ctx r (prepares_handoff (some p)) f h =
      unfold after_frames prepare_pointer_handoff in refl
  step-frames s ctx r (prepares_return none) f h = unfold after_frames prepare_local_return in refl
  step-frames s ctx r (prepares_return (some p)) f h =
      unfold after_frames prepare_local_return in refl
  step-frames s ctx r consumes_return f h =
      unfold after_frames consume_local_return_anchor_event in refl
  step-frames s ctx r (routes event) f h =
      unfold route in
      forward-frames resolve i plain r t _ ctx s.mode s.active_target_id event refl h

  -- In any history of the router from a coherent state, where the connection of the active target takes the
  -- releases and no key is named like the entry of a button, an input is down at a target by the frames that
  -- were delivered to it exactly if the target is the active one and the router counts it as pressed there.
  pub run-delivered :
      (s : Router) (os : History)
      → IsCoherent s
      → IsHeardThroughout s os
      → after_frames resolve i t (presses s t i) (run s os).1 ≡ presses (run s os).0 t i
  unfolding run
  run-delivered s [] f h = unfold after_frames in refl
  run-delivered s ((ctx, r, o) ∷ os) f h =
      after_frames-append resolve i t (presses s t i) (step s ctx r o).1
        (run (step s ctx r o).0 os).1
      ∙ ap (λ b. after_frames resolve i t b (run (step s ctx r o).0 os).1)
          (step-frames s ctx r o f h.0)
      ∙ run-delivered (step s ctx r o).0 os (step-IsCoherent s ctx r o f) h.1
