-- ===== src/Routing/Link.antt =====
-- The router of a controller and the sink of a target together: the frames that reach the target, in order,
-- are the events that its dispatcher hands to the sink.
use multi_controller.Prelude.{
  ℕ, ◌≡◌, refl, ap, ◌∙◌, inl, inr, Bool, true, List, [], ◌∷◌, ◌++◌, String, ◌==◌, if◌then◌else◌,
  Bool-cases,
}
use multi_controller.Prelude.Int.{ℤ}
use multi_controller.Routing.Sink.{Sink, Injection, InputEvent, inject, is_authorized, handle}
use multi_controller.Routing.Sink.Released.{Input, IsPlain, after_calls, after_calls-append}
use multi_controller.Routing.Router.{Position, Sent, Router, History, run}
use multi_controller.Routing.Router.Coherent.{IsCoherent}
use multi_controller.Routing.Router.Released.{to_event, after_frames}
use multi_controller.Routing.Router.Delivered.{presses, IsHeardThroughout, run-delivered}

module _ (resolve : Position → ℤ × ℤ) (now : ℕ) (controller target : String) where
  -- The sink of the target gets the frames that are for it.
  unfoldable pub receive : Sink → Sent → Sink × List Injection
  receive s [] = (s, [])
  receive s ((k, frame) ∷ sent) =
      let (s', calls) =
        (if k == target then handle s now controller (to_event resolve frame) else (s, [])) in
      let (end, more) = receive s' sent in (end, calls ++ more)

  handle-injects :
      (s : Sink) (e : InputEvent)
      → is_authorized s controller ≡ true
      → ((handle s now controller e).1 ≡ inject e)
        × (is_authorized (handle s now controller e).0 controller ≡ true)
  unfolding handle
  handle-injects s e a = rw a (refl, unfold is_authorized in a)

  -- The injector of a target where the controller is authorized does what the frames say.
  receive-after_frames :
      (i : Input) (s : Sink) (sent : Sent) (b : Bool)
      → is_authorized s controller ≡ true
      → after_calls i b (receive s sent).1 ≡ after_frames resolve i target b sent
  unfolding receive after_frames
  receive-after_frames i s [] b a = unfold after_calls in refl
  receive-after_frames i s ((k, frame) ∷ sent) b a = elim (Bool-cases (k == target)) [
    | inr q ↦ rw q (receive-after_frames i s sent b a)
    | inl q ↦
        let done = handle-injects s (to_event resolve frame) a in
        rw q (
          after_calls-append i b (handle s now controller (to_event resolve frame)).1 _
          ∙ ap
              (λ cs.
                after_calls i (after_calls i b cs)
                  (receive (handle s now controller (to_event resolve frame)).0 sent).1)
              done.0
          ∙ receive-after_frames i (handle s now controller (to_event resolve frame)).0 sent
              (after_calls i b (inject (to_event resolve frame))) done.1)
  ]

  -- From the keyboard of the controller to the operating system of a target that has authorized it: after any
  -- history of the router from a coherent state, where the connection of the active target takes the releases
  -- and no key is named like the entry of a button, an input is down at the target exactly if the target is
  -- the active one and the router counts it as pressed there.
  pub run-receive :
      (i : Input) (s : Router) (os : History) (sink : Sink)
      → IsPlain i
      → IsCoherent s
      → IsHeardThroughout s os
      → is_authorized sink controller ≡ true
      → after_calls i (presses s target i) (receive sink (run s os).1).1
        ≡ presses (run s os).0 target i
  run-receive i s os sink plain f h a =
      receive-after_frames i sink (run s os).1 (presses s target i) a
      ∙ run-delivered resolve i plain target s os f h
