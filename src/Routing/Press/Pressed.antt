-- ===== src/Routing/Press/Pressed.antt =====
-- A pointer presses the edge that it is beyond by the least.
use multi_controller.Prelude.{
  ◌≡◌, refl, subst, inl, inr, Bool-cases, Bool, true, false, Option, none, some, List, [], ◌∷◌,
  ◌++◌, All, All-append, arith, if◌then◌else◌,
}
use multi_controller.Prelude.Int.{ℤ, pos, ◌-ℤ◌, ltb_ℤ, leb_ℤ, ◌≤ℤ◌, ◌<ℤ◌, -ℤ_parts}
use multi_controller.Routing.Edges.{Direction, left, right, up, down, Rect}
use multi_controller.Routing.Press.{
  EdgePress, Distance, entry, entry_for, distances, min_distance, press_of, detect_edge_press,
}

-- How far the point is beyond the line of an edge; negative inside.
unfoldable pub beyond : Rect → ℤ → ℤ → Direction → ℤ
beyond r x y left = r.left -ℤ x
beyond r x y right = x -ℤ r.right
beyond r x y up = r.top -ℤ y
beyond r x y down = y -ℤ r.bottom

module _ (r : Rect) (x y : ℤ) where
  -- Without a press the point is inside every edge. With one it is on the line of the edge or beyond it, and of the
  -- edges that it is beyond none is nearer.
  abbrev pub IsPress : Option EdgePress → Type 0
  IsPress none = (d : Direction) → beyond r x y d <ℤ pos 0
  IsPress (some p) =
      (pos 0 ≤ℤ beyond r x y p.direction)
      × ((d : Direction) → pos 0 ≤ℤ beyond r x y d → beyond r x y p.direction ≤ℤ beyond r x y d)

  abbrev Describes : Distance → Type 0
  Describes e = (e.distance ≡ beyond r x y e.direction) × (pos 0 ≤ℤ e.distance)

  min_distance-Describes :
      (best : Distance) (es : List Distance)
      → Describes best
      → All Describes es
      → Describes (min_distance best es)
  unfolding min_distance
  min_distance-Describes best [] h hs = h
  min_distance-Describes best (e ∷ es) h hs =
      min_distance-Describes (if ltb_ℤ e.distance best.distance then e else best) es
        (which (ltb_ℤ e.distance best.distance)) hs.1
    where
      which : (b : Bool) → Describes (if b then e else best)
      which true = hs.0
      which false = h

abbrev AtMost : Distance → Distance → Type 0
AtMost e f = e.distance ≤ℤ f.distance

AtMost-trans : (e f g : Distance) → AtMost e f → AtMost f g → AtMost e g
AtMost-trans e f g h k = ground arith

chosen :
    (e best : Distance)
    → AtMost (if ltb_ℤ e.distance best.distance then e else best) best
      × AtMost (if ltb_ℤ e.distance best.distance then e else best) e
chosen e best = ground arith

min_distance-least :
    (best : Distance) (es : List Distance)
    → (AtMost (min_distance best es) best) × All (AtMost (min_distance best es)) es
unfolding min_distance
min_distance-least best [] = (ground arith, tt)
min_distance-least best (e ∷ es) =
    let next = if ltb_ℤ e.distance best.distance then e else best in
    let least = min_distance-least next es in
    (
      AtMost-trans (min_distance next es) next best least.0 (chosen e best).0,
      (AtMost-trans (min_distance next es) next e least.0 (chosen e best).1, least.1),
    )

All-left : (P : Distance → Type 0) (xs ys : List Distance) → All P (xs ++ ys) → All P xs
All-left P [] ys h = tt
All-left P (x ∷ xs) ys h = (h.0, All-left P xs ys h.1)

All-right : (P : Distance → Type 0) (xs ys : List Distance) → All P (xs ++ ys) → All P ys
All-right P [] ys h = h
All-right P (x ∷ xs) ys h = All-right P xs ys h.1

module _ (P : Distance → Type 0) (d : Direction) (n v s e : ℤ) where
  abbrev made : Distance
  made = record { direction = d; distance = n; ratio = record { value = v; start = s; end = e } }

  entry-All : (b : Bool) → (b ≡ true → P made) → All P (entry b d n v s e)
  entry-All true h = (h refl, tt)
  entry-All false h = tt

  entry-made : (b : Bool) → b ≡ true → All P (entry b d n v s e) → P made
  entry-made true q h = h.0
  entry-made false q h = absurd (ground arith)

not_after : (a b : ℤ) → leb_ℤ a b ≡ true → pos 0 ≤ℤ b -ℤ a
not_after a b q = ground (arith, -ℤ_parts b a)

after_not : (a b : ℤ) → pos 0 ≤ℤ b -ℤ a → leb_ℤ a b ≡ true
after_not a b h = ground (arith, -ℤ_parts b a)

module _ (r : Rect) (x y : ℤ) where
  entry_for-Describes : (d : Direction) → All (Describes r x y) (entry_for r x y d)
  unfolding entry_for beyond
  entry_for-Describes left =
      entry-All (Describes r x y) left (r.left -ℤ x) y r.top r.bottom (leb_ℤ x r.left)
        (λ q. (refl, not_after x r.left q))
  entry_for-Describes right =
      entry-All (Describes r x y) right (x -ℤ r.right) y r.top r.bottom (leb_ℤ r.right x)
        (λ q. (refl, not_after r.right x q))
  entry_for-Describes up =
      entry-All (Describes r x y) up (r.top -ℤ y) x r.left r.right (leb_ℤ y r.top)
        (λ q. (refl, not_after y r.top q))
  entry_for-Describes down =
      entry-All (Describes r x y) down (y -ℤ r.bottom) x r.left r.right (leb_ℤ r.bottom y)
        (λ q. (refl, not_after r.bottom y q))

  entry_for-beyond :
      (Q : ℤ → Type 0) (d : Direction)
      → All (λ e. Q e.distance) (entry_for r x y d)
      → pos 0 ≤ℤ beyond r x y d
      → Q (beyond r x y d)
  unfolding entry_for beyond
  entry_for-beyond Q left h k =
      entry-made (λ e. Q e.distance) left (r.left -ℤ x) y r.top r.bottom (leb_ℤ x r.left)
        (after_not x r.left k) h
  entry_for-beyond Q right h k =
      entry-made (λ e. Q e.distance) right (x -ℤ r.right) y r.top r.bottom (leb_ℤ r.right x)
        (after_not r.right x k) h
  entry_for-beyond Q up h k =
      entry-made (λ e. Q e.distance) up (r.top -ℤ y) x r.left r.right (leb_ℤ y r.top)
        (after_not y r.top k) h
  entry_for-beyond Q down h k =
      entry-made (λ e. Q e.distance) down (y -ℤ r.bottom) x r.left r.right (leb_ℤ r.bottom y)
        (after_not r.bottom y k) h

  distances-Describes : All (Describes r x y) (distances r x y)
  unfolding distances
  distances-Describes =
      All-append (Describes r x y) (entry_for r x y left) _ (entry_for-Describes left) (
        All-append (Describes r x y) (entry_for r x y right) _ (entry_for-Describes right) (
          All-append (Describes r x y) (entry_for r x y up) _ (entry_for-Describes up)
            (entry_for-Describes down)))

  among :
      (P : Distance → Type 0)
      → All P (distances r x y)
      → (d : Direction) → All P (entry_for r x y d)
  unfolding distances
  among P h left = All-left P (entry_for r x y left) _ h
  among P h right = All-left P (entry_for r x y right) _ (All-right P (entry_for r x y left) _ h)
  among P h up =
      All-left P (entry_for r x y up) _
        (All-right P (entry_for r x y right) _ (All-right P (entry_for r x y left) _ h))
  among P h down =
      All-right P (entry_for r x y up) _
        (All-right P (entry_for r x y right) _ (All-right P (entry_for r x y left) _ h))

  inside : (n : ℤ) → (pos 0 ≤ℤ n → ⊥) → n <ℤ pos 0
  inside n f = elim (Bool-cases (leb_ℤ (pos 0) n)) [
    | inl e ↦ absurd (f (ground arith))
    | inr e ↦ ground arith
  ]

  press_of-IsPress :
      (es : List Distance)
      → All (Describes r x y) es
      → ((P : Distance → Type 0) → All P es → (d : Direction) → All P (entry_for r x y d))
      → IsPress r x y (press_of es)
  unfolding press_of
  press_of-IsPress [] h all =
      λ d. inside (beyond r x y d) (λ k. entry_for-beyond (λ n. ⊥) d (all (λ e. ⊥) tt d) k)
  press_of-IsPress (e ∷ es) h all =
      let p = min_distance e es in
      let found = min_distance-Describes r x y e es h.0 h.1 in
      (
        subst (λ n. pos 0 ≤ℤ n) found.0 found.1,
        λ d k.
            subst (λ n. n ≤ℤ beyond r x y d) found.0
              (entry_for-beyond (λ n. p.distance ≤ℤ n) d
                (all (AtMost p) (min_distance-least e es) d) k),
      )

  -- For an event with both coordinates: no edge is pressed exactly where the point is strictly inside all four.
  -- Otherwise the edge that is named is one that the point is on or beyond, and of those edges it is the one that
  -- the point is beyond by the least.
  pub detect_edge_press-IsPress : IsPress r x y (detect_edge_press r (some x) (some y))
  unfolding detect_edge_press
  detect_edge_press-IsPress = press_of-IsPress (distances r x y) distances-Describes among
