-- ===== src/Routing/Sink.antt =====
-- control/routing/sink.py: `InputSink`. An operation is a function to the new state and the calls of the
-- injector, in order. A set of entries is a list without repetition; the program releases them in any order,
-- here in that of the list. The position that resolve_pointer_position finds stands in the event.
pub mod Released
pub mod Authorized
pub mod Controller
pub mod Held
use multi_controller.Prelude.{
  ℕ, Bool, true, false, not, Option, none, some, List, [], ◌∷◌, ◌++◌, String, ◌==◌, if◌then◌else◌,
  any, keep,
}
use multi_controller.Prelude.Int.{ℤ, pos}
use multi_controller.Prelude.Text.{join, after_prefix}
use multi_controller.Prelude.Dict
use multi_controller.Prelude.Dict.{Dict}

pub data Injection : Type 0 where
  inject_key : (key : String) → (down : Bool) → Injection
  inject_mouse_move inject_mouse_move_relative : (x y : ℤ) → Injection
  inject_mouse_button : (button : String) → (position : Option (ℤ × ℤ)) → (down : Bool) → Injection
  inject_mouse_wheel : (position : Option (ℤ × ℤ)) → (dx dy : ℤ) → Injection
  prepare_remote_control end_remote_control : Injection

-- A key or a button is none where the frame lacks it.
pub data InputEvent : Type 0 where
  key_down key_up : (key : Option String) → InputEvent
  mouse_move mouse_move_relative : (x y : ℤ) → InputEvent
  mouse_button :
      (button : Option String) → (position : Option (ℤ × ℤ)) → (pressed : Bool) → InputEvent
  mouse_wheel : (position : Option (ℤ × ℤ)) → (dx dy : ℤ) → InputEvent
  unknown : InputEvent

pub record Sink : Type 0 where
  pub pressed : Dict (List String)
  pub authorized_controller_id : Option String
  pub require_authorization : Bool
  pub last_remote_input_at : ℕ

unfoldable pub entries_of : String → Dict (List String) → List String
entries_of peer pressed = elim (Dict.get peer pressed) [ none ↦ [] | some es ↦ es ]

unfoldable pub has_entry : String → List String → Bool
unfolding any
has_entry e es = any (λ x. x == e) es

unfoldable pub add : String → List String → List String
unfolding has_entry
add e es = if has_entry e es then es else e ∷ es

unfoldable pub discard : String → List String → List String
unfolding keep
discard e es = keep (λ x. not (x == e)) es

unfoldable pub mouse_entry : String → String
unfolding join
mouse_entry button = join "mouse:" button

-- `_track_pressed`; where it raises, the entry of the peer may have been made.
unfoldable pub track_pressed : String → InputEvent → Dict (List String) → Dict (List String)
unfolding entries_of add discard mouse_entry
track_pressed peer (key_down none) m = Dict.set peer (entries_of peer m) m
track_pressed peer (key_down (some k)) m = Dict.set peer (add k (entries_of peer m)) m
track_pressed peer (key_up none) m = Dict.set peer (entries_of peer m) m
track_pressed peer (key_up (some k)) m = Dict.set peer (discard k (entries_of peer m)) m
track_pressed peer (mouse_button none position pressed) m = m
track_pressed peer (mouse_button (some b) position pressed) m =
    Dict.set peer
      (if pressed
        then add (mouse_entry b) (entries_of peer m)
        else discard (mouse_entry b) (entries_of peer m))
      m
track_pressed peer (mouse_move x y) m = m
track_pressed peer (mouse_move_relative x y) m = m
track_pressed peer (mouse_wheel position dx dy) m = m
track_pressed peer unknown m = m

unfoldable pub inject : InputEvent → List Injection
inject (key_down none) = []
inject (key_down (some k)) = inject_key k true ∷ []
inject (key_up none) = []
inject (key_up (some k)) = inject_key k false ∷ []
inject (mouse_button none position pressed) = []
inject (mouse_button (some b) position pressed) = inject_mouse_button b position pressed ∷ []
inject (mouse_move x y) = inject_mouse_move x y ∷ []
inject (mouse_move_relative x y) = inject_mouse_move_relative x y ∷ []
inject (mouse_wheel position dx dy) = inject_mouse_wheel position dx dy ∷ []
inject unknown = []

abbrev pub is_controller : Option String → String → Bool
is_controller none peer = false
is_controller (some c) peer = c == peer

unfoldable pub is_authorized : Sink → String → Bool
is_authorized s peer =
    if s.require_authorization then is_controller s.authorized_controller_id peer else true

unfoldable pub handle : Sink → ℕ → String → InputEvent → Sink × List Injection
unfolding is_authorized track_pressed inject
handle s now peer event =
    if is_authorized s peer
    then (
      record s { last_remote_input_at = now; pressed = track_pressed peer event s.pressed },
      inject event,
    )
    else (s, [])

-- An entry that starts with `mouse:` is a button.
unfoldable pub release_entry : String → Injection
release_entry e = elim (after_prefix "mouse:" e) [
  | none ↦ inject_key e false
  | some b ↦ inject_mouse_button b (some (pos 0, pos 0)) false
]

unfoldable pub release_entries : List String → List Injection
unfolding release_entry
release_entries [] = []
release_entries (e ∷ es) = release_entry e ∷ release_entries es

unfoldable pub release_entries_map : Dict (List String) → List Injection
unfolding release_entries
release_entries_map [] = []
release_entries_map ((k, es) ∷ m) = release_entries es ++ release_entries_map m

abbrev pub is_current : Option String → Option String → Bool
is_current none none = true
is_current none (some c) = false
is_current (some d) none = false
is_current (some d) (some c) = d == c

unfoldable pub authorize : Sink → ℕ → Option String → Sink × List Injection
unfolding release_entries_map
authorize s now none = (
  record s { authorized_controller_id = none; last_remote_input_at = 0; pressed = [] },
  end_remote_control ∷ release_entries_map s.pressed,
)
authorize s now (some c) = (
  record s {
    authorized_controller_id = some c;
    last_remote_input_at = now;
    pressed = Dict.retain (λ k es. k == c) s.pressed;
  },
  prepare_remote_control ∷ release_entries_map (Dict.retain (λ k es. not (k == c)) s.pressed),
)

unfoldable pub set_authorized_controller : Sink → ℕ → Option String → Sink × List Injection
unfolding authorize
set_authorized_controller s now c =
    if is_current s.authorized_controller_id c then (s, []) else authorize s now c

unfoldable pub release_peer : Sink → String → Sink × List Injection
unfolding release_entries entries_of
release_peer s peer =
    (record s { pressed = Dict.delete peer s.pressed }, release_entries (entries_of peer s.pressed))

pub data Operation : Type 0 where
  handles : (now : ℕ) → (peer : String) → InputEvent → Operation
  authorizes : (now : ℕ) → (controller : Option String) → Operation
  releases : (peer : String) → Operation

unfoldable pub step : Sink → Operation → Sink × List Injection
step s (handles now peer event) = handle s now peer event
step s (authorizes now controller) = set_authorized_controller s now controller
step s (releases peer) = release_peer s peer

unfoldable pub run : Sink → List Operation → Sink × List Injection
run s [] = (s, [])
run s (o ∷ os) = let (s', calls) = step s o in let (end, more) = run s' os in (end, calls ++ more)
