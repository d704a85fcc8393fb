-- ===== src/Update/Version.antt =====
-- app/update/app_version.py: version tags, their parts and their order. A decimal digit of `re` and `int` may be one
-- of another script; `digit` gives the value of a code point that is one. What raises is none.
pub mod Order
pub mod Labels
use Prim.Native.Char.{code}
use Prim.Native.String
use multi_controller.Prelude.{
  ℕ, zero, suc, ◌+◌, ◌-◌, ◌*◌, Bool, true, false, ◌&&◌, ◌||◌, Option, none, some, List, [], ◌∷◌,
  ◌++◌, String, ◌==◌, if◌then◌else◌, eqb, ltb, length,
}
use multi_controller.Prelude.Int.{ℤ, pos, negsuc}
use multi_controller.Prelude.Text.{strip, text_of, join}

-- `raw.lower().startswith("v")` and `raw[1:]`.
unfoldable drop_v : String → String
drop_v String.[] = ""
drop_v (String.◌∷◌ c s) = if eqb (code c) 0x76 || eqb (code c) 0x56 then s else String.◌∷◌ c s

unfoldable pub normalize_version_tag : Option String → String
unfolding drop_v
normalize_version_tag version = strip (drop_v (strip (text_of version)))

unfoldable pub format_version_label : Option String → String
format_version_label version =
    let normalized = normalize_version_tag version in
    if normalized == "" then "버전 정보 없음" else join "v" normalized

-- `s.split(".")`: the first chunk, and the others.
split_dots : String → String × List String
split_dots String.[] = ("", [])
split_dots (String.◌∷◌ c s) =
    let (chunk, chunks) = split_dots s in
    if eqb (code c) 0x2e then ("", chunk ∷ chunks) else (String.◌∷◌ c chunk, chunks)

module _ (digit : ℕ → Option ℕ) where
  -- The number that the digits at the start of a text spell, after `n`.
  number_after : ℕ → String → ℕ
  number_after n String.[] = n
  number_after n (String.◌∷◌ c s) = elim (digit (code c)) [
    | none ↦ n
    | some d ↦ number_after (n * 10 + d) s
  ]

  leading_number : String → Option ℕ
  unfolding number_after
  leading_number String.[] = none
  leading_number (String.◌∷◌ c s) = elim (digit (code c)) [
    | none ↦ none
    | some d ↦ some (number_after d s)
  ]

  -- An empty chunk is skipped, and one that starts with no digit ends the loop.
  parts_of : List String → List ℕ
  unfolding leading_number
  parts_of [] = []
  parts_of (chunk ∷ chunks) =
      let rest = parts_of chunks in
      if chunk == "" then rest else elim (leading_number chunk) [ none ↦ [] | some n ↦ n ∷ rest ]

  unfoldable pub parse_version_parts : Option String → Option (List ℕ)
  unfolding parts_of split_dots
  parse_version_parts version =
      let (chunk, chunks) = split_dots (normalize_version_tag version) in
      elim (parts_of (chunk ∷ chunks)) [ [] ↦ none | n ∷ ns ↦ some (n ∷ ns) ]

unfoldable pub zeros : ℕ → List ℕ
zeros zero = []
zeros (suc n) = 0 ∷ zeros n

-- `parts + (0,) * (size - len(parts))`.
unfoldable pub padded : ℕ → List ℕ → List ℕ
unfolding zeros length
padded size parts = parts ++ zeros (size - length parts)

-- `<` on tuples.
unfoldable pub parts_ltb : List ℕ → List ℕ → Bool
parts_ltb [] [] = false
parts_ltb [] (n ∷ ns) = true
parts_ltb (m ∷ ms) [] = false
parts_ltb (m ∷ ms) (n ∷ ns) =
    let rest = parts_ltb ms ns in if ltb m n then true else if ltb n m then false else rest

unfoldable pub compare_parts : List ℕ → List ℕ → ℤ
unfolding padded parts_ltb length
compare_parts left right =
    let size = (if ltb (length left) (length right) then length right else length left) in
    if parts_ltb (padded size left) (padded size right)
    then negsuc 0
    else if parts_ltb (padded size right) (padded size left)
    then pos 1
    else pos 0

compare_parsed : Option (List ℕ) → Option (List ℕ) → Option ℤ
compare_parsed (some left) (some right) = some (compare_parts left right)
compare_parsed _ _ = none

unfoldable pub compare_versions : (ℕ → Option ℕ) → String → String → Option ℤ
unfolding compare_parsed
compare_versions digit left right =
    compare_parsed (parse_version_parts digit (some left)) (parse_version_parts digit (some right))

-- The `status` of a report, whose labels and tooltip are texts for people.
pub data Status : Type 0 where
  unknown compatible outdated ahead : Status

unfoldable pub status_of : ℤ → Status
status_of (pos zero) = compatible
status_of (pos (suc n)) = ahead
status_of (negsuc n) = outdated

report_status : (ℕ → Option ℕ) → String → String → Option Status
report_status digit compatibility own =
    if compatibility == "" || own == ""
    then some unknown
    else elim (compare_versions digit compatibility own) [
      | none ↦ none
      | some n ↦ some (status_of n)
    ]

-- `build_version_compatibility_report`; the own version stands for the argument or the constant of the program.
unfoldable pub build_version_compatibility_report :
    (ℕ → Option ℕ) → (compatibility_version : Option String) → (own : String) → Option Status
unfolding report_status
build_version_compatibility_report digit compatibility_version own =
    report_status digit (normalize_version_tag compatibility_version)
      (normalize_version_tag (some own))
