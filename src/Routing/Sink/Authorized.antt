-- ===== src/Routing/Sink/Authorized.antt =====
-- Every operation of the sink that asks for authorization keeps the input of the authorized controller in
-- step with what the injector was told.
use multi_controller.Prelude.{
  ◌≡◌, refl, sym, ◌∙◌, ap, Bool, true, false, Option, none, some, List, [], String, ◌==◌, eq_iff,
  arith, if◌then◌else◌,
}
use multi_controller.Prelude.Text.{after_prefix, after_prefix-join}
use multi_controller.Prelude.Int.{ℤ}
use multi_controller.Prelude.Dict
use multi_controller.Prelude.Dict.{
  Dict, HasUniqueKeys, get-set, get-delete, get-retain, set-HasUniqueKeys, delete-HasUniqueKeys,
  retain-HasUniqueKeys,
}
use multi_controller.Routing.Sink.{
  Injection, inject_key, inject_mouse_button, InputEvent, key_down, key_up, mouse_button,
  mouse_move, mouse_move_relative, mouse_wheel, unknown, Sink, entries_of, has_entry, mouse_entry,
  track_pressed, inject, is_controller,
}
use multi_controller.Routing.Sink.Released.{
  Input, a_key, a_button, entry_of, IsPlain, after_call, after_calls, has_entry-add,
  has_entry-discard, differs, same_button, none_is_not_some,
}

-- Only the authorized controller has pressed entries, and each peer has one set of them.
pub record IsExclusive (s : Sink) : Type 0 where
  pub asks : s.require_authorization ≡ true
  pub others :
      (k : String)
      → is_controller s.authorized_controller_id k ≡ false
      → entries_of k s.pressed ≡ []
  pub unique : HasUniqueKeys s.pressed

-- The keys of the event do not look like the entry of a button.
abbrev pub IsPlainEvent : InputEvent → Type 0
IsPlainEvent (key_down (some k)) = after_prefix "mouse:" k ≡ none
IsPlainEvent (key_up (some k)) = after_prefix "mouse:" k ≡ none
IsPlainEvent _ = Unit

pub track_pressed-HasUniqueKeys :
    (p : String) (e : InputEvent) (m : Dict (List String))
    → HasUniqueKeys m
    → HasUniqueKeys (track_pressed p e m)
unfolding track_pressed
track_pressed-HasUniqueKeys p (key_down none) m u = set-HasUniqueKeys p _ m u
track_pressed-HasUniqueKeys p (key_down (some k)) m u = set-HasUniqueKeys p _ m u
track_pressed-HasUniqueKeys p (key_up none) m u = set-HasUniqueKeys p _ m u
track_pressed-HasUniqueKeys p (key_up (some k)) m u = set-HasUniqueKeys p _ m u
track_pressed-HasUniqueKeys p (mouse_button none position pressed) m u = u
track_pressed-HasUniqueKeys p (mouse_button (some b) position pressed) m u =
    set-HasUniqueKeys p _ m u
track_pressed-HasUniqueKeys p (mouse_move x y) m u = u
track_pressed-HasUniqueKeys p (mouse_move_relative x y) m u = u
track_pressed-HasUniqueKeys p (mouse_wheel position dx dy) m u = u
track_pressed-HasUniqueKeys p unknown m u = u

entries_of-set :
    (p k : String) (es : List String) (m : Dict (List String))
    → entries_of k (Dict.set p es m) ≡ (if p == k then es else entries_of k m)
unfolding entries_of
entries_of-set p k es m = ground (arith, get-set p k es m)

pub entries_of-track_pressed :
    (p k : String) (e : InputEvent) (m : Dict (List String))
    → (p == k) ≡ false
    → entries_of k (track_pressed p e m) ≡ entries_of k m
unfolding track_pressed
entries_of-track_pressed p k (key_down none) m n = entries_of-set p k _ m ∙ rw n refl
entries_of-track_pressed p k (key_down (some j)) m n = entries_of-set p k _ m ∙ rw n refl
entries_of-track_pressed p k (key_up none) m n = entries_of-set p k _ m ∙ rw n refl
entries_of-track_pressed p k (key_up (some j)) m n = entries_of-set p k _ m ∙ rw n refl
entries_of-track_pressed p k (mouse_button none position pressed) m n = refl
entries_of-track_pressed p k (mouse_button (some b) position pressed) m n =
    entries_of-set p k _ m ∙ rw n refl
entries_of-track_pressed p k (mouse_move x y) m n = refl
entries_of-track_pressed p k (mouse_move_relative x y) m n = refl
entries_of-track_pressed p k (mouse_wheel position dx dy) m n = refl
entries_of-track_pressed p k unknown m n = refl

has_entry-set :
    (x p : String) (es : List String) (m : Dict (List String))
    → has_entry x es ≡ has_entry x (entries_of p (Dict.set p es m))
has_entry-set x p es m =
    sym (ap (has_entry x) (entries_of-set p p es m ∙ rw ((eq_iff p p).1 refl) refl))

pub key_lem :
    (i : Input)
    → IsPlain i
    → (b d : Bool) (j : String) → after_prefix "mouse:" j ≡ none
    → after_call i b (inject_key j d) ≡ (if j == entry_of i then d else b)
unfolding after_call mouse_entry
key_lem (a_key k) plain b d j ev = refl
key_lem (a_button k) plain b d j ev =
    rw
      (differs j (mouse_entry k) (λ g.
        none_is_not_some (after_prefix "mouse:" j) k ev
          (ap (after_prefix "mouse:") g ∙ after_prefix-join "mouse:" k)))
      refl

pub button_lem :
    (i : Input)
    → IsPlain i
    → (b d : Bool) (j : String) (position : Option (ℤ × ℤ))
    → after_call i b (inject_mouse_button j position d)
      ≡ (if mouse_entry j == entry_of i then d else b)
unfolding after_call mouse_entry
button_lem (a_key k) plain b d j position =
    rw
      (differs (mouse_entry j) k (λ g.
        none_is_not_some (after_prefix "mouse:" k) j plain
          (ap (after_prefix "mouse:") (sym g) ∙ after_prefix-join "mouse:" j)))
      refl
button_lem (a_button k) plain b d j position =
    rw (same_button j k (mouse_entry j) (after_prefix-join "mouse:" j)) refl

-- A call that presses and releases nothing.
abbrev pub IsOther : Injection → Type 0
IsOther (inject_key k d) = ⊥
IsOther (inject_mouse_button k position d) = ⊥
IsOther _ = Unit

pub other_lem : (i : Input) (b : Bool) (c : Injection) → IsOther c → after_call i b c ≡ b
unfolding after_call
other_lem (a_key k) b (inject_key j d) h = absurd h
other_lem (a_key k) b (inject_mouse_button j position d) h = absurd h
other_lem (a_key k) b _ h = refl
other_lem (a_button k) b (inject_key j d) h = absurd h
other_lem (a_button k) b (inject_mouse_button j position d) h = absurd h
other_lem (a_button k) b _ h = refl

module _ (i : Input) (plain : IsPlain i) where
  -- The event does to the input what it does to its entry.
  pub inject-tracked :
      (p : String) (e : InputEvent) (m : Dict (List String))
      → IsPlainEvent e
      → after_calls i (has_entry (entry_of i) (entries_of p m)) (inject e)
        ≡ has_entry (entry_of i) (entries_of p (track_pressed p e m))
  unfolding track_pressed inject after_calls
  inject-tracked p (key_down none) m ev = has_entry-set (entry_of i) p _ m
  inject-tracked p (key_down (some j)) m ev =
      key_lem i plain _ true j ev
      ∙ sym (has_entry-add (entry_of i) j (entries_of p m))
      ∙ has_entry-set (entry_of i) p _ m
  inject-tracked p (key_up none) m ev = has_entry-set (entry_of i) p _ m
  inject-tracked p (key_up (some j)) m ev =
      key_lem i plain _ false j ev
      ∙ sym (has_entry-discard (entry_of i) j (entries_of p m))
      ∙ has_entry-set (entry_of i) p _ m
  inject-tracked p (mouse_button none position pressed) m ev = refl
  inject-tracked p (mouse_button (some b) position true) m ev =
      button_lem i plain _ true b position
      ∙ sym (has_entry-add (entry_of i) (mouse_entry b) (entries_of p m))
      ∙ has_entry-set (entry_of i) p _ m
  inject-tracked p (mouse_button (some b) position false) m ev =
      button_lem i plain _ false b position
      ∙ sym (has_entry-discard (entry_of i) (mouse_entry b) (entries_of p m))
      ∙ has_entry-set (entry_of i) p _ m
  inject-tracked p (mouse_move x y) m ev = other_lem i _ _ tt
  inject-tracked p (mouse_move_relative x y) m ev = other_lem i _ _ tt
  inject-tracked p (mouse_wheel position dx dy) m ev = other_lem i _ _ tt
  inject-tracked p unknown m ev = refl
