-- ===== src/Tests/Sink.antt =====
-- The desk presses a key and a button at the laptop, and loses it.
use multi_controller.Prelude.{◌≡◌, refl, true, none, some, List, [], ◌∷◌}
use multi_controller.Prelude.Text.{after_prefix}
use multi_controller.Prelude.Dict
use multi_controller.Routing.Sink.{
  Sink, key_down, mouse_button, Operation, handles, authorizes, run, entries_of,
}
use multi_controller.Routing.Sink.Released.{a_button, after_calls, held}
use multi_controller.Routing.Sink.Authorized.{IsExclusive}
use multi_controller.Routing.Sink.Held.{run-held}

abbrev fresh : Sink
fresh = record {
  pressed = [];
  authorized_controller_id = none;
  require_authorization = true;
  last_remote_input_at = 0;
}

abbrev operations : List Operation
operations =
    authorizes 10 (some "desk")
    ∷ handles 20 "desk" (key_down (some "a"))
    ∷ handles 21 "tower" (key_down (some "b"))
    ∷ handles 30 "desk" (mouse_button (some "left") none true)
    ∷ authorizes 40 none
    ∷ []

fresh-IsExclusive : IsExclusive fresh
unfolding entries_of Dict.get
fresh-IsExclusive = record { asks = refl; others = λ k h. refl; unique = tt }

run-held_example :
    after_calls (a_button "left") (held fresh (a_button "left")) (run fresh operations).1
    ≡ held (run fresh operations).0 (a_button "left")
unfolding after_prefix
run-held_example =
    run-held fresh operations (a_button "left") fresh-IsExclusive
      (tt, (refl, (refl, (tt, (tt, tt))))) tt
