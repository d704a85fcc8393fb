-- ===== src/Update/Version/Labels.antt =====
-- The labels that the window shows for versions.
use multi_controller.Prelude.{◌≡◌, refl, ap, ◌∙◌, false, Option, some, String, ◌==◌}
use multi_controller.Prelude.Text.{strip, text_of, join}
use multi_controller.Prelude.Text.Strip.{strip-strip, strip-join_v}
use multi_controller.Update.Version.{drop_v, normalize_version_tag, format_version_label}

drop_v-join : (s : String) → drop_v (join "v" s) ≡ s
unfolding drop_v join
drop_v-join s = refl

label_read : (s : String) → normalize_version_tag (some (join "v" (strip s))) ≡ strip s
unfolding normalize_version_tag text_of
label_read s =
    ap (λ t. strip (drop_v t)) (strip-join_v s) ∙ ap strip (drop_v-join (strip s)) ∙ strip-strip s

-- The label of a version is read back as that version: for every text, with or without a `v` and blanks around
-- it, that is not empty once these are taken off, the normal form of its label is its own normal form.
pub normalize_version_tag-format_version_label :
    (version : Option String)
    → (normalize_version_tag version == "") ≡ false
    → normalize_version_tag (some (format_version_label version)) ≡ normalize_version_tag version
unfolding format_version_label
normalize_version_tag-format_version_label version h =
    rw h (unfold normalize_version_tag in label_read (drop_v (strip (text_of version))))
