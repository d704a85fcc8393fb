-- ===== src/Prelude/Text.antt =====
-- The order of texts by code points, as the program's tuples of keys compare them, and the emptiness
-- test that the program writes `not text`.
pub mod Strip
use Prim.Native.Nat.{ℕ, compare, Ordering}
use Prim.Native.Char.{code}
use Prim.Native.String.{String, [], ◌∷◌}
use mathlib.Core.Path.{◌≡◌, refl, ap₂}
use mathlib.Core.Logic.{◌⊎◌, inl, inr}
use mathlib.Core.Bool.{Bool, true, false, ◌&&◌, ◌||◌}
use mathlib.Core.Option.{Option, none, some}
use native.Mathlib.Omega.{arith}
use text.Mathlib.TextEquality.{Char-path}
use text.Mathlib.Text.{◌==◌}
use multi_controller.Prelude.Tests.{leb, eqb, if◌then◌else◌}

-- `s <= t` of two texts.
unfoldable pub str_leb : String → String → Bool
str_leb [] t = true
str_leb (c ∷ s) [] = false
str_leb (c ∷ s) (d ∷ t) =
    let rest = str_leb s t in
    elim (compare (code c) (code d)) [
      | Ordering.lt ↦ true
      | Ordering.eq ↦ rest
      | Ordering.gt ↦ false
    ]

pub str_leb_total : (s t : String) → (str_leb s t ≡ true) ⊎ (str_leb t s ≡ true)
unfolding str_leb
str_leb_total [] t = inl refl
str_leb_total (c ∷ s) [] = inr refl
str_leb_total (c ∷ s) (d ∷ t) = ground (arith, str_leb_total s t)

pub str_leb_trans : (s t u : String) → str_leb s t ≡ true → str_leb t u ≡ true → str_leb s u ≡ true
unfolding str_leb
str_leb_trans [] t u h k = refl
str_leb_trans (c ∷ s) [] u h k = ground arith
str_leb_trans (c ∷ s) (d ∷ t) [] h k = ground arith
str_leb_trans (c ∷ s) (d ∷ t) (e ∷ u) h k = ground (arith, str_leb_trans s t u)

cons_antisym :
    (m n : ℕ) (p q : Bool)
    → elim (compare m n) [ Ordering.lt ↦ true | Ordering.eq ↦ p | Ordering.gt ↦ false ] ≡ true
    → elim (compare n m) [ Ordering.lt ↦ true | Ordering.eq ↦ q | Ordering.gt ↦ false ] ≡ true
    → (m ≡ n) × (p ≡ true) × (q ≡ true)
cons_antisym m n p q h k = ground arith

pub str_leb_antisym : (s t : String) → str_leb s t ≡ true → str_leb t s ≡ true → s ≡ t
unfolding str_leb
str_leb_antisym [] [] h k = refl
str_leb_antisym [] (d ∷ t) h k = ground arith
str_leb_antisym (c ∷ s) [] h k = ground arith
str_leb_antisym (c ∷ s) (d ∷ t) h k =
    let parts = cons_antisym (code c) (code d) (str_leb s t) (str_leb t s) h k in
    ap₂ ◌∷◌ (Char-path c d parts.0) (str_leb_antisym s t parts.1 parts.2)

-- `frame.get(key)` where a missing and an empty text are both false.
unfoldable pub given : Option String → Option String
given none = none
given (some s) = if s == "" then none else some s

-- `frame.get(key) or other`.
unfoldable pub given_or : Option String → String → String
unfolding given
given_or o other = elim (given o) [ none ↦ other | some s ↦ s ]

-- `str(frame.get(key) or "")`.
unfoldable pub text_of : Option String → String
text_of none = ""
text_of (some s) = s

between : ℕ → ℕ → ℕ → Bool
between lo hi n = leb lo n && leb n hi

-- The code points that `str.strip` removes.
is_space : ℕ → Bool
unfolding between
is_space n =
    between 0x09 0x0d n
    || between 0x1c 0x20 n
    || eqb n 0x85
    || eqb n 0xa0
    || eqb n 0x1680
    || between 0x2000 0x200a n
    || between 0x2028 0x2029 n
    || eqb n 0x202f
    || eqb n 0x205f
    || eqb n 0x3000

strip_left : String → String
unfolding is_space
strip_left [] = []
strip_left (c ∷ s) = let rest = strip_left s in if is_space (code c) then rest else c ∷ s

strip_right : String → String
unfolding is_space
strip_right [] = []
strip_right (c ∷ s) =
    let rest = strip_right s in if is_space (code c) && rest == "" then [] else c ∷ rest

unfoldable pub strip : String → String
unfolding strip_left strip_right
strip s = strip_right (strip_left s)

strip_test : strip " ab c\t" ≡ "ab c"
unfolding strip
strip_test = refl

-- `s + t`.
unfoldable pub join : String → String → String
join [] t = t
join (c ∷ s) t = c ∷ join s t

-- What follows a prefix of the text, if it starts with it.
unfoldable pub after_prefix : String → String → Option String
after_prefix [] s = some s
after_prefix (c ∷ p) [] = none
after_prefix (c ∷ p) (d ∷ s) =
    let rest = after_prefix p s in if eqb (code c) (code d) then rest else none

pub after_prefix-join : (p s : String) → after_prefix p (join p s) ≡ some s
unfolding after_prefix join
after_prefix-join [] s = refl
after_prefix-join (c ∷ p) s = ground (arith, after_prefix-join p s)

same_code : (m n : ℕ) → eqb m n ≡ true → m ≡ n
same_code m n h = ground arith

pub join-after_prefix : (p s t : String) → after_prefix p s ≡ some t → s ≡ join p t
unfolding after_prefix join
join-after_prefix [] s t h = ground arith
join-after_prefix (c ∷ p) [] t h = ground arith
join-after_prefix (c ∷ p) (d ∷ s) t h =
    let same : eqb (code c) (code d) ≡ true = ground arith in
    let rest : after_prefix p s ≡ some t = ground arith in
    ap₂ ◌∷◌ (Char-path d c (same_code (code d) (code c) (ground arith)))
      (join-after_prefix p s t rest)

-- `s.split(c, 1)` at the first `c`, for the code point of `c`; none if there is none.
unfoldable pub split_at : ℕ → String → Option (String × String)
split_at c [] = none
split_at c (d ∷ s) =
    let rest = split_at c s in
    if eqb (code d) c
    then some ([], s)
    else elim rest [ none ↦ none | some p ↦ some (d ∷ p.0, p.1) ]
