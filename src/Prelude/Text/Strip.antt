-- ===== src/Prelude/Text/Strip.antt =====
-- A text that is stripped has nothing more to strip.
use Prim.Native.Char.{Char, code}
use Prim.Native.String.{String, [], ◌∷◌}
use mathlib.Core.Path.{◌≡◌, refl, sym, ap, ◌∙◌}
use mathlib.Core.Logic.{inl, inr}
use mathlib.Core.Bool.{false, ◌&&◌}
use text.Mathlib.Text.{◌==◌}
use multi_controller.Prelude.Tests.{Bool-cases}
use multi_controller.Prelude.Text.{is_space, between, join, strip_left, strip_right, strip}

strip_right_idem : (s : String) → strip_right (strip_right s) ≡ strip_right s
unfolding strip_right
strip_right_idem [] = refl
strip_right_idem (c ∷ s) = elim (Bool-cases (is_space (code c) && strip_right s == "")) [
  | inl e ↦ rw e refl
  | inr e ↦ rw e (rw (strip_right_idem s) (rw e refl))
]

strip_right-keeps :
    (c : Char) (s : String) → is_space (code c) ≡ false → strip_right (c ∷ s) ≡ c ∷ strip_right s
unfolding strip_right
strip_right-keeps c s e = rw e refl

strip_left-keeps : (c : Char) (s : String) → is_space (code c) ≡ false → strip_left (c ∷ s) ≡ c ∷ s
unfolding strip_left
strip_left-keeps c s e = rw e refl

strip_left-strip :
    (s : String) → strip_left (strip_right (strip_left s)) ≡ strip_right (strip_left s)
unfolding strip_left
strip_left-strip [] = unfold strip_right in refl
strip_left-strip (c ∷ s) = elim (Bool-cases (is_space (code c))) [
  | inl e ↦ rw e (strip_left-strip s)
  | inr e ↦ rw e (
      ap strip_left (strip_right-keeps c s e)
      ∙ strip_left-keeps c (strip_right s) e
      ∙ sym (strip_right-keeps c s e))
]

pub strip-strip : (s : String) → strip (strip s) ≡ strip s
unfolding strip
strip-strip s = ap strip_right (strip_left-strip s) ∙ strip_right_idem (strip_left s)

-- Nothing is stripped of a character that is no space before a stripped text.
strip-keeps :
    (c : Char) (s : String) → is_space (code c) ≡ false → strip (c ∷ strip s) ≡ c ∷ strip s
unfolding strip
strip-keeps c s e =
    ap strip_right (strip_left-keeps c (strip_right (strip_left s)) e)
    ∙ strip_right-keeps c (strip_right (strip_left s)) e
    ∙ ap (λ t. c ∷ t) (strip_right_idem (strip_left s))

pub strip-join_v : (s : String) → strip (join "v" (strip s)) ≡ join "v" (strip s)
unfolding join is_space between
strip-join_v s = strip-keeps _ s refl
