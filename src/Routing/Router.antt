-- ===== src/Routing/Router.antt =====
-- control/routing/router.py: `InputRouter`, which forwards the captured input to one target. An operation is
-- a function to the new state and the frames that were delivered, in order. A set of entries is a list
-- without repetition. Time stamps are left out, and the listeners of the state are not called.
pub mod Coherent
pub mod Released
pub mod Delivered
pub mod Targets
use multi_controller.Prelude.{
  ℕ, Bool, true, false, not, ◌&&◌, ◌||◌, Option, none, some, List, [], ◌∷◌, ◌++◌, map, String, ◌==◌,
  if◌then◌else◌, keep,
}
use multi_controller.Prelude.Int.{ℤ, pos}
use multi_controller.Prelude.Text.{after_prefix, given}
use multi_controller.Context.{Context, get_node}
use multi_controller.Registry
use multi_controller.Registry.{Registry, Conn}
use multi_controller.Routing.Sink.{add, discard, mouse_entry}

-- The coordinates of a pointer, each of which may be missing. A normalised one is a float that is only
-- copied, and stands as its bits.
pub record Position : Type 0 where
  pub x : Option ℤ
  pub y : Option ℤ
  pub x_norm : Option ℕ
  pub y_norm : Option ℕ

-- What the capture puts in the queue, after the event processors.
pub data Captured : Type 0 where
  key_down key_up : (key : String) → Captured
  mouse_move : Position → Captured
  mouse_button : Position → (button : String) → (pressed : Bool) → Captured
  mouse_wheel : Position → (dx dy : ℤ) → Captured
  other : Captured

-- What a target is sent.
pub data Remote : Type 0 where
  key_down key_up : (key : String) → Remote
  mouse_move : Position → Remote
  mouse_button : (button : String) → (pressed : Bool) → (at : Option (ℤ × ℤ)) → Remote
  mouse_wheel : (dx dy : ℤ) → Remote
  other : Remote

pub data Mode : Type 0 where
  inactive pending active : Mode

pub record Router : Type 0 where
  pub mode : Mode
  pub requested_target_id : Option String
  pub active_target_id : Option String
  pub held_entries : List String
  pub remote_pressed_entries : List String
  pub pending_handoff_entries : List String
  pub handoff_anchor_event : Option Position
  pub last_remote_anchor_event : Option Position
  pub pending_local_return_anchor_event : Option Position
  pub last_pointer_event : Option Captured

abbrev pub Sent : Type 0
Sent = List (String × Remote)

abbrev pub same_mode : Mode → Mode → Bool
same_mode inactive inactive = true
same_mode pending pending = true
same_mode active active = true
same_mode _ _ = false

abbrev pub same_target : Option String → Option String → Bool
same_target none none = true
same_target none (some b) = false
same_target (some a) none = false
same_target (some a) (some b) = a == b

-- `active or requested`.
abbrev pub next_target : Option String → Option String → Option String
next_target active_id requested = elim (given active_id) [ none ↦ requested | some a ↦ some a ]

abbrev is_set : Option String → Bool
is_set none = false
is_set (some a) = true

-- An entry that starts with `mouse:` is a button.
unfoldable pub release_frame : String → Remote
release_frame e = elim (after_prefix "mouse:" e) [
  | none ↦ Remote.key_up e
  | some b ↦ Remote.mouse_button b false (some (pos 0, pos 0))
]

-- `conn.send_frame` to the live connection of the target, if there is one.
unfoldable pub deliver : Registry → String → Remote → Sent × Bool
deliver r target frame = elim (Registry.get r target) [
  | none ↦ ([], false)
  | some conn ↦ if conn.accepts then ((target, frame) ∷ [], true) else ([], false)
]

unfoldable pub send_releases : Registry → String → List String → Sent
unfolding deliver release_frame
send_releases r target [] = []
send_releases r target (e ∷ es) =
    (deliver r target (release_frame e)).0 ++ send_releases r target es

-- The test for the releases: the active target was left.
abbrev pub leaves : Mode → Option String → Option String → Bool
leaves mode before after = same_mode mode active && is_set before && not (same_target before after)

abbrev pub releases_of : Registry → Option String → List String → Sent
releases_of r none es = []
releases_of r (some target) es = send_releases r target es

unfoldable pub is_mouse_entry : String → Bool
is_mouse_entry e = elim (after_prefix "mouse:" e) [ none ↦ false | some b ↦ true ]

-- The state that `_swap_state` leaves where something changes.
unfoldable pub swapped : Router → Mode → Option String → Option String → Router
unfolding keep is_mouse_entry
swapped s mode requested active_id =
    let next = next_target active_id requested in
    let hands_over = is_set next && leaves s.mode s.active_target_id next in
    let forgets = not hands_over && (same_mode mode inactive || not (is_set next)) in
    record {
      mode = mode;
      requested_target_id = requested;
      active_target_id = active_id;
      held_entries = s.held_entries;
      remote_pressed_entries = [];
      pending_handoff_entries =
          if hands_over
          then keep is_mouse_entry s.held_entries
          else if forgets
          then []
          else s.pending_handoff_entries;
      handoff_anchor_event = if forgets then none else s.handoff_anchor_event;
      last_remote_anchor_event = if forgets then none else s.last_remote_anchor_event;
      pending_local_return_anchor_event =
          if same_mode mode inactive then s.pending_local_return_anchor_event else none;
      last_pointer_event = s.last_pointer_event;
    }

unfoldable pub swap_state : Router → Registry → Mode → Option String → Option String → Router × Sent
unfolding swapped
swap_state s r mode requested active_id =
    if same_mode s.mode mode
      && same_target s.requested_target_id requested
      && same_target s.active_target_id active_id
    then (s, [])
    else (
      swapped s mode requested active_id,
      if leaves s.mode s.active_target_id active_id
          then releases_of r s.active_target_id s.remote_pressed_entries
          else [],
    )

unfoldable pub reset_local_held_state : Router → Router
reset_local_held_state s = record s { held_entries = []; pending_handoff_entries = [] }

unfoldable pub clear_target : Router → Registry → Router × Sent
unfolding swap_state reset_local_held_state
clear_target s r =
    let (s', sent) = swap_state s r inactive none none in (reset_local_held_state s', sent)

-- The target exists and is another node.
unfoldable pub is_target : Context → String → Bool
is_target ctx k = elim (get_node ctx k) [ none ↦ false | some n ↦ not (k == ctx.self_node.node_id) ]

unfoldable pub set_pending_target : Router → Context → Registry → Option String → Router × Sent
unfolding is_target swap_state clear_target
set_pending_target s ctx r none = clear_target s r
set_pending_target s ctx r (some k) =
    if is_target ctx k then swap_state s r pending (some k) none else clear_target s r

abbrev moved_to : Option Captured → Option Position
moved_to (some (Captured.mouse_move p)) = some p
moved_to _ = none

abbrev anchor_of : Option Position → Option Captured → Option Position
anchor_of none pointer = moved_to pointer
anchor_of (some p) pointer = some p

-- The connection that `_apply_pending_handoff` finds.
abbrev pub has_conn : Option Conn → Bool
has_conn none = false
has_conn (some c) = true

unfoldable pub send_anchor : Router → Registry → String → Option Position → Router × Sent
send_anchor s r k none = (s, [])
send_anchor s r k (some p) =
    if has_conn (Registry.get r k)
    then (record s { last_remote_anchor_event = some p }, (deliver r k (Remote.mouse_move p)).0)
    else (s, [])

unfoldable pub apply_pending_handoff : Router → Registry → String → Router × Sent
unfolding send_anchor
apply_pending_handoff s r k =
    send_anchor (record s { pending_handoff_entries = []; handoff_anchor_event = none }) r k
      (anchor_of s.handoff_anchor_event s.last_pointer_event)

unfoldable pub activate_target : Router → Context → Registry → String → Router × Sent
unfolding is_target swap_state clear_target reset_local_held_state apply_pending_handoff
activate_target s ctx r k =
    let (s', sent) = swap_state s r active (some k) (some k) in
    let (s'', more) = apply_pending_handoff (reset_local_held_state s') r k in
    if is_target ctx k then (s'', sent ++ more) else clear_target s r

unfoldable pub prepare_pointer_handoff : Router → Option Position → Router
prepare_pointer_handoff s none = s
prepare_pointer_handoff s (some p) = record s { handoff_anchor_event = some p }

unfoldable pub prepare_local_return : Router → Option Position → Router
prepare_local_return s none = s
prepare_local_return s (some p) = record s { pending_local_return_anchor_event = some p }

unfoldable pub consume_local_return_anchor_event : Router → Router × Option Position
consume_local_return_anchor_event s =
    (record s { pending_local_return_anchor_event = none }, s.pending_local_return_anchor_event)

-- `_track_held` and `_track_remote_pressed` do the same to their sets.
unfoldable pub tracked : Captured → List String → List String
unfolding add discard mouse_entry
tracked (Captured.key_down k) es = add k es
tracked (Captured.key_up k) es = discard k es
tracked (Captured.mouse_button p b pressed) es =
    if pressed then add (mouse_entry b) es else discard (mouse_entry b) es
tracked _ es = es

abbrev pub pointer_after : Option Captured → Captured → Option Captured
pointer_after before (Captured.mouse_move p) = some (Captured.mouse_move p)
pointer_after before (Captured.mouse_button p b pressed) = some (Captured.mouse_button p b pressed)
pointer_after before (Captured.mouse_wheel p dx dy) = some (Captured.mouse_wheel p dx dy)
pointer_after before _ = before

abbrev pub absolute_move : Position → Option ℤ → Option ℤ → Option Remote
absolute_move p (some x) (some y) = some (Remote.mouse_move p)
absolute_move p _ _ = none

unfoldable pub build_remote_event : Captured → Option Remote
build_remote_event (Captured.key_down k) = some (Remote.key_down k)
build_remote_event (Captured.key_up k) = some (Remote.key_up k)
build_remote_event (Captured.mouse_move p) = absolute_move p p.x p.y
build_remote_event (Captured.mouse_button p b pressed) = some (Remote.mouse_button b pressed none)
build_remote_event (Captured.mouse_wheel p dx dy) = some (Remote.mouse_wheel dx dy)
build_remote_event Captured.other = some Remote.other

unfoldable pub send_event : Router → Registry → String → Captured → Option Remote → Router × Sent
unfolding tracked
send_event s r target event none = (s, [])
send_event s r target event (some frame) =
    let (sent, ok) = deliver r target frame in
    (
      record s {
        remote_pressed_entries =
            if ok then tracked event s.remote_pressed_entries else s.remote_pressed_entries;
      },
      sent,
    )

unfoldable pub forward :
    Router → Context → Registry → Mode → Option String → Captured → Router × Sent
unfolding send_event build_remote_event
forward s ctx r active (some target) event =
    if target == ctx.self_node.node_id
    then (s, [])
    else send_event s r target event (build_remote_event event)
forward s ctx r _ _ event = (s, [])

-- One round of `run`, for an event that the processors let through.
unfoldable pub route : Router → Context → Registry → Captured → Router × Sent
unfolding forward tracked
route s ctx r event =
    forward
      (record s {
        held_entries = tracked event s.held_entries;
        last_pointer_event = pointer_after s.last_pointer_event event;
      })
      ctx r s.mode s.active_target_id event

pub data Operation : Type 0 where
  sets_pending : Option String → Operation
  activates : String → Operation
  clears : Operation
  prepares_handoff prepares_return : Option Position → Operation
  consumes_return : Operation
  routes : Captured → Operation

unfoldable pub step : Router → Context → Registry → Operation → Router × Sent
step s ctx r (sets_pending k) = set_pending_target s ctx r k
step s ctx r (activates k) = activate_target s ctx r k
step s ctx r clears = clear_target s r
step s ctx r (prepares_handoff p) = (prepare_pointer_handoff s p, [])
step s ctx r (prepares_return p) = (prepare_local_return s p, [])
step s ctx r consumes_return = ((consume_local_return_anchor_event s).0, [])
step s ctx r (routes event) = route s ctx r event

abbrev pub History : Type 0
History = List (Context × Registry × Operation)

unfoldable pub run : Router → History → Router × Sent
run s [] = (s, [])
run s ((ctx, r, o) ∷ os) =
    let (s', sent) = step s ctx r o in let (end, more) = run s' os in (end, sent ++ more)

unfoldable pub initial : Router
initial = record {
  mode = inactive;
  requested_target_id = none;
  active_target_id = none;
  held_entries = [];
  remote_pressed_entries = [];
  pending_handoff_entries = [];
  handoff_anchor_event = none;
  last_remote_anchor_event = none;
  pending_local_return_anchor_event = none;
  last_pointer_event = none;
}
