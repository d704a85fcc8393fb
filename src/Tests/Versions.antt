-- ===== src/Tests/Versions.antt =====
-- Versions with two and with three parts.
use multi_controller.Prelude.{
  ℕ, ◌-◌, ◌≡◌, refl, ◌&&◌, Option, none, some, [], ◌∷◌, leb, if◌then◌else◌,
}
use multi_controller.Prelude.Int.{pos}
use multi_controller.Prelude.Text.{strip, text_of}
use multi_controller.Update.Version.{
  compare_parts, compare_versions, parse_version_parts, normalize_version_tag, format_version_label,
  build_version_compatibility_report,
}
use multi_controller.Update.Version.Order.{
  Says, compare_parts-Says, map_mirrored, build_version_compatibility_report-mirrored,
}
use multi_controller.Update.Version.Labels.{normalize_version_tag-format_version_label}

-- The ten digits of ASCII.
abbrev digit : ℕ → Option ℕ
digit n = if leb 0x30 n && leb n 0x39 then some (n - 0x30) else none

compare_parts-Says_example :
    Says (1 ∷ 2 ∷ []) (1 ∷ 2 ∷ 3 ∷ []) (compare_parts (1 ∷ 2 ∷ []) (1 ∷ 2 ∷ 3 ∷ []))
compare_parts-Says_example = compare_parts-Says (1 ∷ 2 ∷ []) (1 ∷ 2 ∷ 3 ∷ [])

build_version_compatibility_report-mirrored_example :
    build_version_compatibility_report digit (some "1.10") "v1.9.3"
    ≡ map_mirrored (build_version_compatibility_report digit (some "v1.9.3") "1.10")
build_version_compatibility_report-mirrored_example =
    build_version_compatibility_report-mirrored digit "v1.9.3" "1.10"

normalize_version_tag-format_version_label_example :
    normalize_version_tag (some (format_version_label (some " V1.2 ")))
    ≡ normalize_version_tag (some " V1.2 ")
unfolding normalize_version_tag strip text_of
normalize_version_tag-format_version_label_example =
    normalize_version_tag-format_version_label (some " V1.2 ") refl

newer : compare_versions digit "v1.10" "1.9.3" ≡ some (pos 1)
unfolding compare_versions parse_version_parts normalize_version_tag strip text_of compare_parts
newer = refl
