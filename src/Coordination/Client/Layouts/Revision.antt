-- ===== src/Coordination/Client/Layouts/Revision.antt =====
-- The layouts that the coordinator sends are taken in the order of their revisions.
use multi_controller.Prelude.{
  ◌≡◌, refl, sym, ◌∙◌, subst, Bool, false, not, ◌&&◌, Option, none, some, [], String, ◌==◌, eq_refl,
  arith, if_given, if_both, option_both,
}
use multi_controller.Prelude.Int.{ℤ, ltb_ℤ, ◌≤ℤ◌}
use multi_controller.Prelude.Text.{given, strip, text_of}
use multi_controller.Display.Layout.{LayoutConfig}
use multi_controller.Coordination.Service.LayoutEdit.{RawLayout, not_an_object, refused, builds}
use multi_controller.Coordination.Client.{
  Client, Around, Outcome, names, id_of, Comparison, below, same, above, compare_epoch_tokens,
  new_epoch, accept_epoch, accept_coordinator_frame, after_accepting, accepting, client_id,
}
use multi_controller.Coordination.Client.Requests.{
  resolve_one_shot_request, resolve_matching_one_shot_request,
}
use multi_controller.Coordination.Client.Layouts.Calm.{take_update-IsStill}
use multi_controller.Coordination.Client.Layouts.{
  Reload, LayoutUpdate, answered, toggles, requester, raises, apply_update, take_layout,
  take_update, on_layout_update,
}

-- The revision is the same if the epoch is.
abbrev KeepsRevision : Client → Option Outcome → Type 0
KeepsRevision c none = Unit
KeepsRevision c (some o) =
    o.0.coordinator_epoch ≡ c.coordinator_epoch
    → o.0.layout_last_update_revision ≡ c.layout_last_update_revision

compared-KeepsRevision :
    (env : Around) (c : Client) (e current : String) (x : Comparison)
    → c.coordinator_epoch ≡ some current
    → compare_epoch_tokens env.int_of e current ≡ x
    → KeepsRevision c
        (elim x [ below ↦ none | same ↦ some (c, []) | above ↦ some (new_epoch c env e) ])
unfolding compare_epoch_tokens
compared-KeepsRevision env c e current below p h = tt
compared-KeepsRevision env c e current same p h = λ q. refl
compared-KeepsRevision env c e current above p h =
    λ q. absurd (differs e current (some_eq (q ∙ p)) h)
  where
    some_eq : {a b : String} → some a ≡ some b → a ≡ b
    some_eq {a} {b} k = ground arith

    differs : (a b : String) → a ≡ b → compare_epoch_tokens env.int_of a b ≡ above → ⊥
    differs a b k =
        subst (λ x. compare_epoch_tokens env.int_of a x ≡ above → ⊥) k
          (rw (eq_refl a) (λ n. ground arith))

accept_epoch-KeepsRevision :
    (env : Around) (c : Client) (e : String) (current : Option String)
    → c.coordinator_epoch ≡ current
    → KeepsRevision c (accept_epoch c env e current)
unfolding accept_epoch
accept_epoch-KeepsRevision env c e none p = λ q. refl
accept_epoch-KeepsRevision env c e (some current) p =
    compared-KeepsRevision env c e current _ p refl

accept_coordinator_frame-KeepsRevision :
    (env : Around) (c : Client) (peer : String) (epoch : Option String)
    → KeepsRevision c (accept_coordinator_frame c env peer epoch)
unfolding accept_coordinator_frame
accept_coordinator_frame-KeepsRevision env c peer epoch =
    if_both (KeepsRevision c) (names (id_of env.coordinator) peer) _ none
      (option_both (KeepsRevision c) (given epoch) none
        (λ e. accept_epoch c env e c.coordinator_epoch) tt
        (λ e. accept_epoch-KeepsRevision env c e c.coordinator_epoch refl))
      tt

answered-revision :
    (env : Around) (c : Client) (u : LayoutUpdate)
    → (answered env c u).layout_last_update_revision ≡ c.layout_last_update_revision
unfolding answered resolve_one_shot_request resolve_matching_one_shot_request
answered-revision env c u =
    if_both {A = Client} (λ x. x.layout_last_update_revision ≡ c.layout_last_update_revision)
      (toggles env u && requester env u == client_id c) _ _
      (if_both {A = Client} (λ x. x.layout_last_update_revision ≡ c.layout_last_update_revision)
        (strip (text_of u.request_id) == "") _ _
        (if_both {A = Client} (λ x. x.layout_last_update_revision ≡ c.layout_last_update_revision)
          (strip "auto_switch" == "") _ _ refl refl)
        (if_both {A = Client} (λ x. x.layout_last_update_revision ≡ c.layout_last_update_revision)
          (strip (text_of u.request_id) == "") _ _ refl refl))
      refl

apply_update-revision :
    (env : Around) (c : Client) (u : LayoutUpdate) (revision : ℤ) (layout : LayoutConfig)
    (reload : Option Reload)
    → c.layout_last_update_revision ≤ℤ revision
    → c.layout_last_update_revision
      ≤ℤ (apply_update env c u revision layout reload).0.layout_last_update_revision
unfolding apply_update
apply_update-revision env c u revision layout reload h =
    if_both {A = Outcome} (λ o. c.layout_last_update_revision ≤ℤ o.0.layout_last_update_revision)
      (raises env reload) _ _ (ground arith) h

take_layout-revision :
    (env : Around) (c : Client) (u : LayoutUpdate) (revision : ℤ) (raw : RawLayout)
    (reload : Option Reload)
    → u.bootstrap ≡ false
    → c.layout_last_update_revision
      ≤ℤ (take_layout env c u revision raw reload).0.layout_last_update_revision
unfolding take_layout
take_layout-revision env c u revision not_an_object reload b = ground arith
take_layout-revision env c u revision refused reload b =
    kept (answered env c u) (answered-revision env c u)
  where
    kept :
        (c' : Client)
        → c'.layout_last_update_revision ≡ c.layout_last_update_revision
        → c.layout_last_update_revision ≤ℤ c'.layout_last_update_revision
    kept c' e = rw e (ground arith)
take_layout-revision env c u revision (builds layout) reload b =
    let same = answered-revision env c u in
    if_given {A = Outcome} (λ o. c.layout_last_update_revision ≤ℤ o.0.layout_last_update_revision)
      (not u.bootstrap && ltb_ℤ revision c.layout_last_update_revision) (answered env c u, [])
      (apply_update env (answered env c u) u revision layout reload)
      (λ h. subst (λ x. c.layout_last_update_revision ≤ℤ x) (sym same) (ground arith))
      (λ h.
        subst
          (λ x.
            x
            ≤ℤ (apply_update env (answered env c u) u revision layout
                reload).0.layout_last_update_revision)
          same
          (apply_update-revision env (answered env c u) u revision layout reload (
            subst (λ x. x ≤ℤ revision) (sym same)
              (not_lower u.bootstrap revision c.layout_last_update_revision b h))))
  where
    not_lower : (t : Bool) (m n : ℤ) → t ≡ false → (not t && ltb_ℤ m n) ≡ false → n ≤ℤ m
    not_lower t m n e h = ground arith

take_update-revision :
    (env : Around) (c : Client) (u : LayoutUpdate) (reload : Option Reload)
    → u.bootstrap ≡ false
    → c.layout_last_update_revision ≤ℤ (take_update env c u reload).0.layout_last_update_revision
unfolding take_update
take_update-revision env c u reload b =
    option_both {B = Outcome}
      (λ o. c.layout_last_update_revision ≤ℤ o.0.layout_last_update_revision) u.revision (c, [])
      (λ revision. take_layout env c u revision u.layout reload) (ground arith)
      (λ revision. take_layout-revision env c u revision u.layout reload b)

after_accepting-revision :
    (env : Around) (c : Client) (a : Option Outcome) (u : LayoutUpdate) (reload : Option Reload)
    → KeepsRevision c a
    → u.bootstrap ≡ false
    → (after_accepting c a (λ c'. take_update env c' u reload)).0.coordinator_epoch
      ≡ c.coordinator_epoch
    → c.layout_last_update_revision
      ≤ℤ (after_accepting c a (λ c'. take_update env c' u reload)).0.layout_last_update_revision
after_accepting-revision env c none u reload keeps b e = ground arith
after_accepting-revision env c (some o) u reload keeps b e =
    subst (λ x. x ≤ℤ (take_update env o.0 u reload).0.layout_last_update_revision)
      (keeps (sym (take_update-IsStill env o.0 u reload).epoch ∙ e))
      (take_update-revision env o.0 u reload b)

-- A layout update that is not sent at the start of a connection never takes the client back to a lower revision,
-- as long as the epoch of the coordinator stays the same; this holds of every such frame, also of one that is
-- refused, that carries no layout, or that the reloader fails to apply.
pub on_layout_update-revision :
    (env : Around) (c : Client) (peer : String) (u : LayoutUpdate) (reload : Option Reload)
    → u.bootstrap ≡ false
    → (on_layout_update env c peer u reload).0.coordinator_epoch ≡ c.coordinator_epoch
    → c.layout_last_update_revision
      ≤ℤ (on_layout_update env c peer u reload).0.layout_last_update_revision
unfolding on_layout_update accepting
on_layout_update-revision env c peer u reload b =
    if_given {A = Outcome}
      (λ o.
        o.0.coordinator_epoch ≡ c.coordinator_epoch
        → c.layout_last_update_revision ≤ℤ o.0.layout_last_update_revision)
      u.bootstrap (take_update env c u reload)
      (accepting c env peer u.epoch (λ c'. take_update env c' u reload))
      (λ t. absurd (ground arith))
      (λ f.
        after_accepting-revision env c (accept_coordinator_frame c env peer u.epoch) u reload
          (accept_coordinator_frame-KeepsRevision env c peer u.epoch) b)
