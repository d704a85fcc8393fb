-- ===== src/Coordination/Service/LayoutEdit/Lock.antt =====
-- The lock of the layout editor, and when a change of the layout is published.
use multi_controller.Prelude.{
  ◌+◌, ◌≡◌, refl, ◌∙◌, ◌↔◌, Bool, true, false, inl, inr, Option, none, some, List, [], ◌∷◌, String,
  eq_iff, arith, Bool-cases, All, if◌then◌else◌,
}
use multi_controller.Prelude.Text.{given_or}
use multi_controller.Registry.{Registry}
use multi_controller.Display.Layout.{LayoutConfig, find_overlapping_nodes}
use multi_controller.Display.Layout.Overlap.{Separate, IsSolid, find_overlapping_nodes-Separate}
use multi_controller.Coordination.Protocol.{layout_update}
use multi_controller.Coordination.Service.{Service, broadcast}
use multi_controller.Coordination.Service.LayoutEdit.{
  builds, is_editor, held_by_other, publish_layout, on_layout_edit_begin, on_layout_edit_end,
  on_layout_update,
}
use multi_controller.Coordination.Service.Leases.Rules.{acquire, give_up}

is_editor_lem : (o : Option String) (e : String) → (is_editor o e ≡ true) ↔ (o ≡ some e)
is_editor_lem none e = ground arith
is_editor_lem (some x) e = ground (arith, eq_iff x e)

-- What an update has to meet.
abbrev pub IsPublished : Service → String → LayoutConfig → Type 0
IsPublished s editor layout = (s.layout_editor_id ≡ some editor) × Separate layout.nodes

-- The editor after a request to begin.
begin_lem :
    (o : Option String) (e : String) → (if held_by_other o e then o else some e) ≡ acquire e o
unfolding acquire
begin_lem none e = refl
begin_lem (some x) e = ground (arith, eq_iff x e)

-- The editor lock is a lock like that of a target: to begin takes it if it is free, only its holder ends
-- it.
module _ (s : Service) (r : Registry) where
  -- Beginning to edit takes the editor lock if it is free and leaves it with its holder otherwise; ending
  -- gives it up if it is held by the editor of the frame, which is the sender where the frame names none.
  pub layout_edit-lock :
      (p : String) (e : Option String)
      → ((on_layout_edit_begin s r p e).0.layout_editor_id
          ≡ acquire (given_or e p) s.layout_editor_id)
        × ((on_layout_edit_end s r p e).0.layout_editor_id
            ≡ give_up (given_or e p) s.layout_editor_id)
  unfolding on_layout_edit_begin on_layout_edit_end acquire give_up
  layout_edit-lock p e = (begun ∙ begin_lem s.layout_editor_id (given_or e p), ended)
    where
      begun : (on_layout_edit_begin s r p e).0.layout_editor_id ≡ (
          if held_by_other s.layout_editor_id (given_or e p)
          then s.layout_editor_id
          else some (given_or e p))
      begun = ground arith

      ended :
          (on_layout_edit_end s r p e).0.layout_editor_id
          ≡ (if is_editor s.layout_editor_id (given_or e p) then none else s.layout_editor_id)
      ended = ground arith

  publish_layout-none :
      (layout : LayoutConfig) (editor : String) (persist : Bool) (pairs : List (String × String))
      → (pairs ≡ [] → ⊥)
      → publish_layout s r layout editor persist pairs ≡ (s, [])
  unfolding publish_layout
  publish_layout-none layout editor persist [] h = absurd (h refl)
  publish_layout-none layout editor persist (p ∷ pairs) h = refl

  -- An update of a layout of nodes with positive sizes is published to all nodes with the next revision if
  -- the editor that it names, or its sender where it names none, holds the editor lock and no two nodes of the layout
  -- share a point; otherwise nothing is sent and the state stays.
  pub on_layout_update-IsPublished :
      (p : String) (e : Option String) (layout : LayoutConfig) (persist : Bool)
      → All IsSolid layout.nodes
      → (IsPublished s (given_or e p) layout
          → on_layout_update s r p e (builds layout) persist ≡ (
            record s { layout_revision = s.layout_revision + 1 },
            broadcast s r (
                layout_update layout
                  (given_or e p)
                  s.coordinator_epoch
                  (s.layout_revision + 1)
                  persist
                  false),
          ))
        × ((IsPublished s (given_or e p) layout → ⊥)
            → on_layout_update s r p e (builds layout) persist ≡ (s, []))
  unfolding on_layout_update publish_layout
  on_layout_update-IsPublished p e layout persist solid =
      let free = find_overlapping_nodes-Separate layout solid in
      let editor = is_editor_lem s.layout_editor_id (given_or e p) in
      (
        λ (held, apart). rw (editor.1 held, free.1 apart) refl,
        λ refused. elim (Bool-cases (is_editor s.layout_editor_id (given_or e p))) [
          | inl held ↦ rw held (
              publish_layout-none layout (given_or e p) persist (find_overlapping_nodes layout)
                (λ none. refused (editor.0 held, free.0 none)))
          | inr other ↦ rw other refl
        ],
      )
