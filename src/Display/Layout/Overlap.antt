-- ===== src/Display/Layout/Overlap.antt =====
-- The rectangles of a layout: the overlap test says whether two of them share a point.
use multi_controller.Prelude.{
  ◌≡◌, refl, ◌↔◌, true, inl, inr, List, [], ◌∷◌, ◌++◌, String, arith, All, if◌then◌else◌,
  Bool-cases,
}
use multi_controller.Prelude.Int.{ℤ, pos, ◌+ℤ◌, ◌≤ℤ◌, ◌<ℤ◌, leb_ℤ, +ℤ_parts}
use multi_controller.Display.Layout.{
  LayoutNode, LayoutConfig, right, bottom, rectangles_overlap, overlaps_of, overlapping_pairs,
  find_overlapping_nodes,
}

-- A node covers the points from its left and top edge up to its right and bottom edge.
abbrev pub Covers : LayoutNode → ℤ → ℤ → Type 0
Covers n x y = (n.x ≤ℤ x) × (x <ℤ right n) × (n.y ≤ℤ y) × (y <ℤ bottom n)

-- Its width and its height are positive.
abbrev pub IsSolid : LayoutNode → Type 0
IsSolid n = (pos 0 <ℤ n.width) × (pos 0 <ℤ n.height)

abbrev pub Shares : LayoutNode → LayoutNode → Type 0
Shares a b = (x : ℤ) × (y : ℤ) × Covers a x y × Covers b x y

-- No two of the nodes share a point.
abbrev pub Separate : List LayoutNode → Type 0
Separate [] = Unit
Separate (n ∷ ns) = All (λ m. Shares n m → ⊥) ns × Separate ns

abbrev later : ℤ → ℤ → ℤ
later a b = if leb_ℤ a b then b else a

overlap_of_shared : (a b : LayoutNode) → Shares a b → rectangles_overlap a b ≡ true
unfolding rectangles_overlap
overlap_of_shared a b (x, y, ca, cb) = ground arith

-- On one axis: two intervals that are not empty and overlap share the later of their starts.
shared_axis :
    (a w b v : ℤ)
    → pos 0 <ℤ w
    → pos 0 <ℤ v
    → a <ℤ (b +ℤ v)
    → b <ℤ (a +ℤ w)
    → (a ≤ℤ later a b) × (later a b <ℤ (a +ℤ w)) × (b ≤ℤ later a b) × (later a b <ℤ (b +ℤ v))
shared_axis a w b v hw hv h k = ground (arith, +ℤ_parts a w, +ℤ_parts b v)

axes_of_overlap :
    (a b : LayoutNode)
    → rectangles_overlap a b ≡ true
    → (a.x <ℤ right b) × (b.x <ℤ right a) × (a.y <ℤ bottom b) × (b.y <ℤ bottom a)
unfolding rectangles_overlap
axes_of_overlap a b h = ground arith

shared_of_overlap :
    (a b : LayoutNode) → IsSolid a → IsSolid b → rectangles_overlap a b ≡ true → Shares a b
unfolding right bottom
shared_of_overlap a b sa sb h =
    let axes = axes_of_overlap a b h in
    let xs = shared_axis a.x a.width b.x b.width sa.0 sb.0 axes.0 axes.1 in
    let ys = shared_axis a.y a.height b.y b.height sa.1 sb.1 axes.2 axes.3 in
    (later a.x b.x, later a.y b.y, (xs.0, xs.1, ys.0, ys.1), (xs.2, xs.3, ys.2, ys.3))

-- Two nodes with positive sizes overlap exactly if some point lies in both.
pub rectangles_overlap-Shares :
    (a b : LayoutNode) → IsSolid a → IsSolid b → (rectangles_overlap a b ≡ true) ↔ Shares a b
rectangles_overlap-Shares a b sa sb = (shared_of_overlap a b sa sb, overlap_of_shared a b)

overlaps_of-none :
    (a : LayoutNode) (ns : List LayoutNode)
    → IsSolid a
    → All IsSolid ns
    → (overlaps_of a ns ≡ []) ↔ All (λ m. Shares a m → ⊥) ns
unfolding overlaps_of
overlaps_of-none a [] sa solid = (λ h. tt, λ h. refl)
overlaps_of-none a (b ∷ ns) sa solid =
    let rest = overlaps_of-none a ns sa solid.1 in
    let here = rectangles_overlap-Shares a b sa solid.0 in
    elim (Bool-cases (rectangles_overlap a b)) [
      | inl e ↦ rw e (λ h. ground arith, λ h. absurd (h.0 (here.0 e)))
      | inr e ↦ rw e (λ h. ((λ shared. ground (arith, here.1 shared)), rest.0 h), λ h. rest.1 h.1)
    ]

append-none : (xs ys : List (String × String)) → (xs ++ ys ≡ []) ↔ (xs ≡ []) × (ys ≡ [])
append-none [] ys = (λ h. (refl, h), λ h. h.1)
append-none (x ∷ xs) ys = (λ h. ground arith, λ h. ground arith)

overlapping_pairs-none :
    (ns : List LayoutNode) → All IsSolid ns → (overlapping_pairs ns ≡ []) ↔ Separate ns
unfolding overlapping_pairs
overlapping_pairs-none [] solid = (λ h. tt, λ h. refl)
overlapping_pairs-none (n ∷ ns) solid =
    let both = append-none (overlaps_of n ns) (overlapping_pairs ns) in
    let first = overlaps_of-none n ns solid.0 solid.1 in
    let rest = overlapping_pairs-none ns solid.1 in
    (λ h. (first.0 (both.0 h).0, rest.0 (both.0 h).1), λ h. both.1 (first.1 h.0, rest.1 h.1))

-- A layout of nodes with positive sizes has no reported overlap exactly if no point lies in two of its
-- nodes.
pub find_overlapping_nodes-Separate :
    (layout : LayoutConfig)
    → All IsSolid layout.nodes
    → (find_overlapping_nodes layout ≡ []) ↔ Separate layout.nodes
unfolding find_overlapping_nodes
find_overlapping_nodes-Separate layout solid = overlapping_pairs-none layout.nodes solid
