-- ===== src/Update/Version/Order.antt =====
-- The order of versions: that of their parts, where a missing part counts as 0.
use multi_controller.Prelude.{
  ℕ, zero, suc, ◌+◌, ◌-◌, ◌≤◌, ◌<◌, ◌≡◌, refl, sym, ap, ◌∙◌, subst, inl, inr, Bool, true, false,
  Option, none, some, List, [], ◌∷◌, ◌++◌, String, ◌==◌, arith, if◌then◌else◌, ltb, length,
  Bool-cases, if_given,
}
use multi_controller.Prelude.Int.{ℤ, pos, negsuc}
use multi_controller.Update.Version.{
  zeros, padded, parts_ltb, compare_parts, compare_parsed, parse_version_parts, compare_versions,
  Status, unknown, compatible, outdated, ahead, status_of, report_status, normalize_version_tag,
  build_version_compatibility_report,
}

-- The part at a position, 0 where there is none.
unfoldable pub part_at : ℕ → List ℕ → ℕ
part_at i [] = 0
part_at zero (n ∷ ns) = n
part_at (suc i) (n ∷ ns) = part_at i ns

-- At the first position where the versions differ, the left one has the smaller part.
abbrev pub IsBelow : List ℕ → List ℕ → Type 0
IsBelow left right =
    (i : ℕ) × ((j : ℕ) → j < i → part_at j left ≡ part_at j right)
    × (part_at i left < part_at i right)

part_at-zeros : (i k : ℕ) → part_at i (zeros k) ≡ 0
unfolding part_at zeros
part_at-zeros i zero = refl
part_at-zeros zero (suc k) = refl
part_at-zeros (suc i) (suc k) = part_at-zeros i k

part_at-append : (i : ℕ) (xs : List ℕ) (k : ℕ) → part_at i (xs ++ zeros k) ≡ part_at i xs
unfolding part_at
part_at-append i [] k = part_at-zeros i k
part_at-append zero (x ∷ xs) k = refl
part_at-append (suc i) (x ∷ xs) k = part_at-append i xs k

part_at-padded : (size i : ℕ) (xs : List ℕ) → part_at i (padded size xs) ≡ part_at i xs
unfolding padded
part_at-padded size i xs = part_at-append i xs (size - length xs)

length-zeros : (k : ℕ) → length (zeros k) ≡ k
unfolding length zeros
length-zeros zero = refl
length-zeros (suc k) = ap suc (length-zeros k)

length-append : (xs : List ℕ) (k : ℕ) → length (xs ++ zeros k) ≡ length xs + k
unfolding length
length-append [] k = length-zeros k ∙ ground arith
length-append (x ∷ xs) k = ground (arith, length-append xs k)

length-padded : (size : ℕ) (xs : List ℕ) → length xs ≤ size → length (padded size xs) ≡ size
unfolding padded
length-padded size xs h = length-append xs (size - length xs) ∙ ground arith

parts_ltb-IsBelow :
    (xs ys : List ℕ) → length xs ≡ length ys → parts_ltb xs ys ≡ true → IsBelow xs ys
unfolding parts_ltb length part_at
parts_ltb-IsBelow [] [] e h = absurd (ground arith)
parts_ltb-IsBelow [] (y ∷ ys) e h = absurd (ground arith)
parts_ltb-IsBelow (x ∷ xs) [] e h = absurd (ground arith)
parts_ltb-IsBelow (x ∷ xs) (y ∷ ys) e h = elim (Bool-cases (ltb x y)) [
  | inl p ↦ (0, λ j q. absurd (ground arith), ground arith)
  | inr p ↦
      let (i, before, here) = parts_ltb-IsBelow xs ys (ground arith) (ground arith) in
      (suc i, later x y xs ys i (ground arith) before, here)
]
  where
    later :
        (x y : ℕ) (xs ys : List ℕ) (i : ℕ)
        → x ≡ y
        → ((j : ℕ) → j < i → part_at j xs ≡ part_at j ys)
        → (j : ℕ) → j < suc i
        → part_at j (x ∷ xs) ≡ part_at j (y ∷ ys)
    later x y xs ys i e before zero q = e
    later x y xs ys i e before (suc j) q = before j (ground arith)

-- Where neither version is below the other, they have the same parts.
part_at-same :
    (i : ℕ) (xs ys : List ℕ)
    → length xs ≡ length ys
    → parts_ltb xs ys ≡ false
    → parts_ltb ys xs ≡ false
    → part_at i xs ≡ part_at i ys
unfolding parts_ltb length part_at
part_at-same i [] [] e h k = refl
part_at-same i [] (y ∷ ys) e h k = absurd (ground arith)
part_at-same i (x ∷ xs) [] e h k = absurd (ground arith)
part_at-same zero (x ∷ xs) (y ∷ ys) e h k = ground arith
part_at-same (suc i) (x ∷ xs) (y ∷ ys) e h k =
    part_at-same i xs ys (ground arith) (ground arith) (ground arith)

parts_ltb-asym : (xs ys : List ℕ) → parts_ltb xs ys ≡ true → parts_ltb ys xs ≡ false
unfolding parts_ltb
parts_ltb-asym [] [] h = refl
parts_ltb-asym [] (y ∷ ys) h = refl
parts_ltb-asym (x ∷ xs) [] h = absurd (ground arith)
parts_ltb-asym (x ∷ xs) (y ∷ ys) h = ground (arith, parts_ltb-asym xs ys)

padded-IsBelow :
    (size : ℕ) (left right : List ℕ)
    → IsBelow (padded size left) (padded size right)
    → IsBelow left right
padded-IsBelow size left right (i, before, here) = (
  i,
  λ j q. sym (part_at-padded size j left) ∙ before j q ∙ part_at-padded size j right,
  subst (λ x. x < part_at i right) (part_at-padded size i left)
      (subst (λ x. part_at i (padded size left) < x) (part_at-padded size i right) here),
)

-- What the result of a comparison says of the two versions.
abbrev pub Says : List ℕ → List ℕ → ℤ → Type 0
Says left right (pos zero) = (i : ℕ) → part_at i left ≡ part_at i right
Says left right (pos (suc n)) = (n ≡ 0) × IsBelow right left
Says left right (negsuc n) = (n ≡ 0) × IsBelow left right

abbrev larger : List ℕ → List ℕ → ℕ
larger left right = if ltb (length left) (length right) then length right else length left

-- The comparison of two versions is that of their parts, position by position, where a missing part is 0: the
-- result is 0 exactly for versions with the same parts, -1 if the left one is smaller at the first difference,
-- and 1 if the right one is.
pub compare_parts-Says : (left right : List ℕ) → Says left right (compare_parts left right)
unfolding compare_parts
compare_parts-Says left right =
    let size = larger left right in
    let left_size = length-padded size left (ground arith) in
    let right_size = length-padded size right (ground arith) in
    if_given (Says left right) (parts_ltb (padded size left) (padded size right)) (negsuc 0) _
      (λ h. (
        refl,
        padded-IsBelow size left right (parts_ltb-IsBelow _ _ (left_size ∙ sym right_size) h),
      ))
      (λ h.
        if_given (Says left right) (parts_ltb (padded size right) (padded size left)) (pos 1)
          (pos 0)
          (λ k. (
            refl,
            padded-IsBelow size right left (parts_ltb-IsBelow _ _ (right_size ∙ sym left_size) k),
          ))
          (λ k i.
            sym (part_at-padded size i left)
            ∙ part_at-same i (padded size left) (padded size right) (left_size ∙ sym right_size) h k
            ∙ part_at-padded size i right))

abbrev pub opposite : ℤ → ℤ
opposite (pos zero) = pos 0
opposite (pos (suc n)) = negsuc n
opposite (negsuc n) = pos (suc n)

swapped :
    (p q : Bool)
    → (p ≡ true → q ≡ false)
    → (if q then negsuc 0 else if p then pos 1 else pos 0)
      ≡ opposite (if p then negsuc 0 else if q then pos 1 else pos 0)
swapped true true h = absurd (clash (h refl))
  where
    clash : true ≡ false → ⊥
    clash e = ground arith
swapped true false h = refl
swapped false true h = refl
swapped false false h = refl

larger_comm : (left right : List ℕ) → larger left right ≡ larger right left
larger_comm left right = ground arith

compare_parts-opposite :
    (left right : List ℕ) → compare_parts right left ≡ opposite (compare_parts left right)
unfolding compare_parts
compare_parts-opposite left right = rw (larger_comm right left) (
    swapped (parts_ltb (padded (larger left right) left) (padded (larger left right) right))
      (parts_ltb (padded (larger left right) right) (padded (larger left right) left))
      (parts_ltb-asym (padded (larger left right) left) (padded (larger left right) right)))

-- What one node says of another, seen from the other.
abbrev pub mirrored : Status → Status
mirrored unknown = unknown
mirrored compatible = compatible
mirrored outdated = ahead
mirrored ahead = outdated

abbrev pub map_mirrored : Option Status → Option Status
map_mirrored none = none
map_mirrored (some s) = some (mirrored s)

status_of-opposite : (n : ℤ) → status_of (opposite n) ≡ mirrored (status_of n)
unfolding status_of
status_of-opposite (pos zero) = refl
status_of-opposite (pos (suc n)) = refl
status_of-opposite (negsuc n) = refl

module _ (digit : ℕ → Option ℕ) where
  abbrev status_after : Option ℤ → Option Status
  status_after none = none
  status_after (some n) = some (status_of n)

  parsed-mirrored :
      (a b : Option (List ℕ))
      → status_after (compare_parsed b a) ≡ map_mirrored (status_after (compare_parsed a b))
  unfolding compare_parsed
  parsed-mirrored none none = refl
  parsed-mirrored none (some right) = refl
  parsed-mirrored (some left) none = refl
  parsed-mirrored (some left) (some right) = ap some (
      ap status_of (compare_parts-opposite left right)
      ∙ status_of-opposite (compare_parts left right))

  report_status-mirrored :
      (a b : String) → report_status digit b a ≡ map_mirrored (report_status digit a b)
  unfolding report_status compare_versions
  report_status-mirrored a b = elim (Bool-cases (a == "")) [
    | inl h ↦ rw h (elim (Bool-cases (b == "")) [ inl k ↦ rw k refl | inr k ↦ rw k refl ])
    | inr h ↦ rw h (elim (Bool-cases (b == "")) [
      | inl k ↦ rw k refl
      | inr k ↦ rw k (
          parsed-mirrored (parse_version_parts digit (some a)) (parse_version_parts digit (some b)))
    ])
  ]

-- Two nodes agree on whether they fit together: what one of them says of the other, from the compatible version
-- that it has and the one that it is told, is the mirror image of what the other says of it. Both are unknown, both
-- are compatible, or one is outdated and the other ahead; if a version cannot be read, neither has a report.
pub build_version_compatibility_report-mirrored :
    (digit : ℕ → Option ℕ) (a b : String)
    → build_version_compatibility_report digit (some b) a
      ≡ map_mirrored (build_version_compatibility_report digit (some a) b)
unfolding build_version_compatibility_report
build_version_compatibility_report-mirrored digit a b =
    report_status-mirrored digit (normalize_version_tag (some a)) (normalize_version_tag (some b))
