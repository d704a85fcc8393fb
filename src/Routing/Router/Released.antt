-- ===== src/Routing/Router/Released.antt =====
-- What the frames of the router leave down at each target.
use multi_controller.Prelude.{
  ◌≡◌, refl, sym, ap, ◌∙◌, inl, inr, Bool, true, false, Option, none, some, List, [], ◌∷◌, ◌++◌,
  String, ◌==◌, arith, if◌then◌else◌, any, Option-cases,
}
use multi_controller.Prelude.Int.{ℤ}
use multi_controller.Prelude.Text.{after_prefix}
use multi_controller.Registry
use multi_controller.Registry.{Registry, Conn}
use multi_controller.Routing.Sink.{InputEvent, inject, release_entry, has_entry, mouse_entry}
use multi_controller.Routing.Sink.Released.{
  Input, entry_of, IsPlain, after_calls, after_call-release_entry, has_entry-add, has_entry-discard,
}
use multi_controller.Routing.Sink.Authorized.{key_lem, button_lem, other_lem}
use multi_controller.Routing.Router.{
  Position, Captured, Remote, Sent, release_frame, absolute_move, deliver, send_releases, tracked,
  build_remote_event,
}

-- No key looks like the entry of a button.
abbrev pub IsPlainCapture : Captured → Type 0
IsPlainCapture (Captured.key_down k) = after_prefix "mouse:" k ≡ none
IsPlainCapture (Captured.key_up k) = after_prefix "mouse:" k ≡ none
IsPlainCapture _ = Unit

-- How the sink reads a frame; `resolve` finds the place of a pointer on its screen.
abbrev pub to_event : (Position → ℤ × ℤ) → Remote → InputEvent
to_event resolve (Remote.key_down k) = InputEvent.key_down (some k)
to_event resolve (Remote.key_up k) = InputEvent.key_up (some k)
to_event resolve (Remote.mouse_move p) = InputEvent.mouse_move (resolve p).0 (resolve p).1
to_event resolve (Remote.mouse_button b pressed at) = InputEvent.mouse_button (some b) at pressed
to_event resolve (Remote.mouse_wheel dx dy) = InputEvent.mouse_wheel none dx dy
to_event resolve Remote.other = InputEvent.unknown

some_injective : (f g : Remote) → some f ≡ some g → f ≡ g
some_injective f g h = ground arith

absolute_frame :
    (p : Position) (x y : Option ℤ) (f : Remote)
    → absolute_move p x y ≡ some f
    → Remote.mouse_move p ≡ f
absolute_frame p none none f h = ground arith
absolute_frame p none (some y) f h = ground arith
absolute_frame p (some x) none f h = ground arith
absolute_frame p (some x) (some y) f h = some_injective _ _ h

module _ (resolve : Position → ℤ × ℤ) where
  seen :
      (i : Input) (frame own : Remote) (es : List String) (b : Bool)
      → own ≡ frame
      → after_calls i (has_entry (entry_of i) es) (inject (to_event resolve own)) ≡ b
      → after_calls i (has_entry (entry_of i) es) (inject (to_event resolve frame)) ≡ b
  seen i frame own es b e h =
      ap (λ f. after_calls i (has_entry (entry_of i) es) (inject (to_event resolve f))) (sym e) ∙ h

  -- Whether an input is down at a target after the frames that were delivered to it.
  unfoldable pub after_frames : Input → String → Bool → Sent → Bool
  after_frames i t b [] = b
  after_frames i t b ((p, frame) ∷ sent) =
      after_frames i t (if p == t then after_calls i b (inject (to_event resolve frame)) else b)
        sent

  pub after_frames-append :
      (i : Input) (t : String) (b : Bool) (xs ys : Sent)
      → after_frames i t b (xs ++ ys) ≡ after_frames i t (after_frames i t b xs) ys
  unfolding after_frames
  after_frames-append i t b [] ys = refl
  after_frames-append i t b ((p, frame) ∷ xs) ys =
      after_frames-append i t
        (if p == t then after_calls i b (inject (to_event resolve frame)) else b) xs ys

  inject-release_frame :
      (e : String) → inject (to_event resolve (release_frame e)) ≡ release_entry e ∷ []
  unfolding inject release_frame release_entry
  inject-release_frame e = elim (Option-cases (after_prefix "mouse:" e)) [
    | inl p ↦ rw (p, release_frame, release_entry) refl
    | inr (b, p) ↦ rw (p, release_frame, release_entry) refl
  ]

  after_calls-release_frame :
      (i : Input) (b : Bool) (e : String)
      → IsPlain i
      → after_calls i b (inject (to_event resolve (release_frame e)))
        ≡ (if e == entry_of i then false else b)
  unfolding after_calls
  after_calls-release_frame i b e plain =
      ap (after_calls i b) (inject-release_frame e) ∙ after_call-release_entry i b e plain

  -- A frame does to an input what its event does to the entry of the input.
  pub after_calls-tracked :
      (i : Input) (event : Captured) (frame : Remote) (es : List String)
      → IsPlain i
      → IsPlainCapture event
      → build_remote_event event ≡ some frame
      → after_calls i (has_entry (entry_of i) es) (inject (to_event resolve frame))
        ≡ has_entry (entry_of i) (tracked event es)
  unfolding after_calls inject tracked build_remote_event
  after_calls-tracked i (Captured.key_down k) frame es plain ev h =
      seen i frame (Remote.key_down k) es _ (some_injective _ _ h)
        (key_lem i plain _ true k ev ∙ sym (has_entry-add (entry_of i) k es))
  after_calls-tracked i (Captured.key_up k) frame es plain ev h =
      seen i frame (Remote.key_up k) es _ (some_injective _ _ h)
        (key_lem i plain _ false k ev ∙ sym (has_entry-discard (entry_of i) k es))
  after_calls-tracked i (Captured.mouse_move p) frame es plain ev h =
      seen i frame (Remote.mouse_move p) es _ (absolute_frame p p.x p.y frame h)
        (other_lem i _ _ tt)
  after_calls-tracked i (Captured.mouse_button p b true) frame es plain ev h =
      seen i frame (Remote.mouse_button b true none) es _ (some_injective _ _ h)
        (button_lem i plain _ true b none ∙ sym (has_entry-add (entry_of i) (mouse_entry b) es))
  after_calls-tracked i (Captured.mouse_button p b false) frame es plain ev h =
      seen i frame (Remote.mouse_button b false none) es _ (some_injective _ _ h) (
        button_lem i plain _ false b none ∙ sym (has_entry-discard (entry_of i) (mouse_entry b) es))
  after_calls-tracked i (Captured.mouse_wheel p dx dy) frame es plain ev h =
      seen i frame (Remote.mouse_wheel dx dy) es _ (some_injective _ _ h) (other_lem i _ _ tt)
  after_calls-tracked i Captured.other frame es plain ev h =
      seen i frame Remote.other es _ (some_injective _ _ h) refl

-- The connection of the target takes what is sent.
abbrev pub takes : Option Conn → Bool
takes none = false
takes (some conn) = conn.accepts

pub deliver-takes :
    (r : Registry) (k : String) (frame : Remote)
    → takes (Registry.get r k) ≡ true
    → (deliver r k frame).0 ≡ (k, frame) ∷ []
unfolding deliver
deliver-takes r k frame h = elim (Option-cases (Registry.get r k)) [
  | inl e ↦ ground arith
  | inr (conn, e) ↦ ground arith
]

module _ (resolve : Position → ℤ × ℤ) (i : Input) (plain : IsPlain i) (r : Registry) where
  after_frames-one :
      (t k : String) (b : Bool) (frame : Remote)
      → after_frames resolve i t b ((k, frame) ∷ [])
        ≡ (if k == t then after_calls i b (inject (to_event resolve frame)) else b)
  unfolding after_frames
  after_frames-one t k b frame = refl

  pub after_frames-send_releases :
      (t k : String) (es : List String) (b : Bool)
      → takes (Registry.get r k) ≡ true
      → after_frames resolve i t b (send_releases r k es)
        ≡ (if k == t then (if has_entry (entry_of i) es then false else b) else b)
  unfolding send_releases
  after_frames-send_releases t k [] b h = unfold after_frames has_entry any in ground arith
  after_frames-send_releases t k (e ∷ es) b h =
      after_frames-append resolve i t b (deliver r k (release_frame e)).0 (send_releases r k es)
      ∙ ap (λ x. after_frames resolve i t x (send_releases r k es))
          (ap (after_frames resolve i t b) (deliver-takes r k (release_frame e) h)
            ∙ after_frames-one t k b (release_frame e)
            ∙ ap (λ x. if k == t then x else b) (after_calls-release_frame resolve i b e plain))
      ∙ after_frames-send_releases t k es
          (if k == t then (if e == entry_of i then false else b) else b) h
      ∙ unfold has_entry any in ground arith
