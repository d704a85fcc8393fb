-- ===== src/Coordination/Service/Nodes/Revision.antt =====
-- The revision of the node list: of several updates that start from one revision, one is applied.
use multi_controller.Prelude.{
  ℕ, ◌+◌, ◌≡◌, ◌≢◌, refl, ap, ◌⊎◌, inl, inr, true, false, Option, some, String, arith, Bool-cases,
}
use multi_controller.Prelude.Int.{ℤ, pos, eqb_ℤ}
use multi_controller.Prelude.Dict.{Dict}
use multi_controller.Registry.{Registry}
use multi_controller.Coordination.Service.{Service}
use multi_controller.Coordination.Service.Nodes.{
  Applied, no_reloader, raises, leaves, reject, apply_nodes, on_node_list_update_request,
}

-- Either nothing of the state changes, or the update was for the current revision, which goes up by one.
apply_nodes-revision :
    (s : Service) (r : Registry) (p : String) (base : ℤ) (renames : Dict String) (q : String)
    (a : Applied)
    → ((apply_nodes s r p base renames q a).0 ≡ s)
      ⊎ ((eqb_ℤ base (pos s.node_list_revision) ≡ true)
          × ((apply_nodes s r p base renames q a).0.node_list_revision ≡ s.node_list_revision + 1))
unfolding apply_nodes reject
apply_nodes-revision s r p base renames q no_reloader = inl refl
apply_nodes-revision s r p base renames q raises =
    elim (Bool-cases (eqb_ℤ base (pos s.node_list_revision))) [
      | inl e ↦ rw e (inl refl)
      | inr e ↦ rw e (inl refl)
    ]
apply_nodes-revision s r p base renames q (leaves ctx) =
    elim (Bool-cases (eqb_ℤ base (pos s.node_list_revision))) [
      | inl e ↦ rw e (inr (refl, refl))
      | inr e ↦ rw e (inl refl)
    ]

apply_nodes-stale :
    (s : Service) (r : Registry) (p : String) (base : ℤ) (renames : Dict String) (q : String)
    (a : Applied)
    → eqb_ℤ base (pos s.node_list_revision) ≡ false
    → (apply_nodes s r p base renames q a).0 ≡ s
unfolding apply_nodes reject
apply_nodes-stale s r p base renames q no_reloader e = refl
apply_nodes-stale s r p base renames q raises e = rw e refl
apply_nodes-stale s r p base renames q (leaves ctx) e = rw e refl

next_is_other :
    (base : ℤ) (n m : ℕ) → eqb_ℤ base (pos n) ≡ true → m ≡ n + 1 → eqb_ℤ base (pos m) ≡ false
next_is_other base n m h e = ground arith

-- Two updates of the node list that start from the same revision, one after the other: if the first is
-- applied, so that the revision changes, the second changes nothing, whatever it asks for.
pub on_node_list_update_request-once :
    (s : Service) (r r' : Registry) (p p' : String) (base : ℤ) (renames renames' : Dict String)
    (request request' : Option String) (a a' : Applied)
    → (on_node_list_update_request s r p (some renames) (some base) request a).0.node_list_revision
      ≢ s.node_list_revision
    → (on_node_list_update_request
        (on_node_list_update_request s r p (some renames) (some base) request a).0
        r'
        p'
        (some renames')
        (some base)
        request'
        a').0
      ≡ (on_node_list_update_request s r p (some renames) (some base) request a).0
unfolding on_node_list_update_request
on_node_list_update_request-once s r r' p p' base renames renames' request request' a a' changed =
    elim (apply_nodes-revision s r p base renames _ a) [
      | inl same ↦ absurd (changed (ap (λ z. z.node_list_revision) same))
      | inr (current, next) ↦
          apply_nodes-stale _ r' p' base renames' _ a'
            (next_is_other base s.node_list_revision _ current next)
    ]
