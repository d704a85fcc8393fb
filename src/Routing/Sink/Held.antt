-- ===== src/Routing/Sink/Held.antt =====
-- What is down at a target in any history of the sink.
use multi_controller.Prelude.{
  ℕ, ◌≡◌, refl, sym, ◌∙◌, ap, inl, inr, true, false, Option, none, some, List, [], ◌∷◌, String,
  ◌==◌, arith, if◌then◌else◌, All, Bool-cases,
}
use multi_controller.Prelude.Dict
use multi_controller.Prelude.Dict.{
  Dict, HasUniqueKeys, get-delete, get-retain, delete-HasUniqueKeys, retain-HasUniqueKeys,
}
use multi_controller.Routing.Sink.{
  Injection, InputEvent, Sink, entries_of, is_controller, is_authorized, handle, is_current,
  authorize, set_authorized_controller, release_peer, Operation, handles, authorizes, releases,
  step, run,
}
use multi_controller.Routing.Sink.Released.{Input, IsPlain, after_calls, held, after_calls-append}
use multi_controller.Routing.Sink.Authorized.{
  IsExclusive, IsPlainEvent, track_pressed-HasUniqueKeys, entries_of-track_pressed,
}
use multi_controller.Routing.Sink.Controller.{
  entries_of-retain, entries_of-delete, controller_differs, flipped, inject-held_by, end-held_by,
  prepare-held_by, kept-held_by, release-held_by,
}

-- The sink stays exclusive, and an input is down after the calls exactly if it is held then.
record Follows (s : Sink) (i : Input) (o : Sink × List Injection) : Type 0 where
  exclusive : IsExclusive o.0
  down : after_calls i (held s i) o.1 ≡ held o.0 i

-- The event of the operation, if it has one, names no key like a button.
abbrev pub IsPlainOperation : Operation → Type 0
IsPlainOperation (handles now peer event) = IsPlainEvent event
IsPlainOperation _ = Unit

module _ (s : Sink) (excl : IsExclusive s) (i : Input) (plain : IsPlain i) where
  idle-Follows : Follows s i (s, [])
  unfolding after_calls
  idle-Follows = record { exclusive = excl; down = refl }

  authorized_lem : (p : String) → is_authorized s p ≡ is_controller s.authorized_controller_id p
  unfolding is_authorized
  authorized_lem p =
      ap (λ b. if b then is_controller s.authorized_controller_id p else true) excl.asks

  handle-Follows :
      (now : ℕ) (p : String) (e : InputEvent) → IsPlainEvent e → Follows s i (handle s now p e)
  unfolding handle held
  handle-Follows now p e ev = elim (Bool-cases (is_authorized s p)) [
    | inr n ↦ rw n idle-Follows
    | inl a ↦
        let h = sym (authorized_lem p) ∙ a in
        rw a (record {
          exclusive = record {
            asks = excl.asks;
            others = λ k g.
                entries_of-track_pressed p k e s.pressed
                  (controller_differs s.authorized_controller_id p k h g)
                ∙ excl.others k g;
            unique = track_pressed-HasUniqueKeys p e s.pressed excl.unique;
          };
          down = inject-held_by i plain s.authorized_controller_id s.pressed p e ev h;
        })
  ]

  authorize-Follows :
      (now : ℕ) (c : Option String)
      → is_current s.authorized_controller_id c ≡ false
      → Follows s i (authorize s now c)
  unfolding authorize held
  authorize-Follows now none n = record {
    exclusive = record {
      asks = excl.asks;
      others = λ k g. unfold entries_of Dict.get in refl;
      unique = tt;
    };
    down = end-held_by i plain s.authorized_controller_id s.pressed;
  }
  authorize-Follows now (some c) n = record {
    exclusive = record {
      asks = excl.asks;
      others =
          λ k g. entries_of-retain (λ j. j == c) k s.pressed excl.unique ∙ rw (flipped c k g) refl;
      unique = retain-HasUniqueKeys (λ k es. k == c) s.pressed excl.unique;
    };
    down =
        prepare-held_by i plain s.authorized_controller_id s.pressed c excl.unique n
        ∙ sym
            (kept-held_by i plain s.authorized_controller_id s.pressed c excl.unique excl.others n);
  }

  set_authorized_controller-Follows :
      (now : ℕ) (c : Option String) → Follows s i (set_authorized_controller s now c)
  unfolding set_authorized_controller
  set_authorized_controller-Follows now c =
      elim (Bool-cases (is_current s.authorized_controller_id c)) [
        | inl e ↦ rw e idle-Follows
        | inr n ↦ rw n (authorize-Follows now c n)
      ]

  release_peer-Follows : (p : String) → Follows s i (release_peer s p)
  unfolding release_peer held
  release_peer-Follows p = record {
    exclusive = record {
      asks = excl.asks;
      others = λ k g. ground (arith, entries_of-delete p k s.pressed, excl.others k g);
      unique = delete-HasUniqueKeys p s.pressed excl.unique;
    };
    down = release-held_by i plain s.authorized_controller_id s.pressed p excl.others;
  }

  step-Follows : (o : Operation) → IsPlainOperation o → Follows s i (step s o)
  unfolding step
  step-Follows (handles now p e) ev = handle-Follows now p e ev
  step-Follows (authorizes now c) ev = set_authorized_controller-Follows now c
  step-Follows (releases p) ev = release_peer-Follows p

-- At a target that asks for authorization, where at the start only the authorized controller has
-- pressed anything, and where no key is named like the entry of a button, an input that was down
-- exactly if the authorized controller held it is so after every history of events, authorizations and
-- releases.
pub run-held :
    (s : Sink) (os : List Operation) (i : Input)
    → IsExclusive s
    → All IsPlainOperation os
    → IsPlain i
    → after_calls i (held s i) (run s os).1 ≡ held (run s os).0 i
unfolding run
run-held s [] i excl ops plain = unfold after_calls in refl
run-held s (o ∷ os) i excl ops plain =
    let first = step-Follows s excl i plain o ops.0 in
    after_calls-append i (held s i) (step s o).1 (run (step s o).0 os).1
    ∙ ap (λ b. after_calls i b (run (step s o).0 os).1) first.down
    ∙ run-held (step s o).0 os i first.exclusive ops.1 plain
