-- ===== src/Coordination/Election/Order.antt =====
-- The sort keys are totally ordered, and `min_node` returns a node with the least key.
use multi_controller.Prelude.{
  ℕ, ◌≡◌, refl, sym, subst, ◌⊎◌, inl, inr, true, false, List, [], ◌∷◌, String, arith, Bool-cases,
  In,
}
use multi_controller.Prelude.Text.{str_leb_total, str_leb_trans, str_leb_antisym}
use multi_controller.Context.{NodeInfo}
use multi_controller.Coordination.Election.{coordinator_sort_key, key_leb, min_node}

pub key_leb_total : (a b : ℕ × String) → (key_leb a b ≡ true) ⊎ (key_leb b a ≡ true)
unfolding key_leb
key_leb_total (p, s) (q, t) = ground (arith, str_leb_total s t)

pub key_leb_trans :
    (a b c : ℕ × String) → key_leb a b ≡ true → key_leb b c ≡ true → key_leb a c ≡ true
unfolding key_leb
key_leb_trans (p, s) (q, t) (r, u) h k = ground (arith, str_leb_trans s t u)

pub key_leb_antisym : (a b : ℕ × String) → key_leb a b ≡ true → key_leb b a ≡ true → a.1 ≡ b.1
unfolding key_leb
key_leb_antisym (p, s) (q, t) h k = ground (arith, str_leb_antisym s t)

abbrev pub LebNode : NodeInfo → NodeInfo → Type 0
LebNode a b = key_leb (coordinator_sort_key a) (coordinator_sort_key b) ≡ true

min_node-keep :
    (best n : NodeInfo) (ns : List NodeInfo)
    → key_leb (coordinator_sort_key best) (coordinator_sort_key n) ≡ true
    → min_node best (n ∷ ns) ≡ min_node best ns
unfolding min_node
min_node-keep best n ns e = rw e

min_node-replace :
    (best n : NodeInfo) (ns : List NodeInfo)
    → key_leb (coordinator_sort_key best) (coordinator_sort_key n) ≡ false
    → min_node best (n ∷ ns) ≡ min_node n ns
unfolding min_node
min_node-replace best n ns e = rw e

widen : {a best n : NodeInfo} (ns : List NodeInfo) → In a (best ∷ ns) → In a (best ∷ n ∷ ns)
widen ns (inl e) = inl e
widen ns (inr h) = inr (inr h)

pub min_node-In : (best : NodeInfo) (ns : List NodeInfo) → In (min_node best ns) (best ∷ ns)
min_node-In best [] = inl (unfold min_node in refl)
min_node-In best (n ∷ ns) =
    elim (Bool-cases (key_leb (coordinator_sort_key best) (coordinator_sort_key n))) [
      | inl e ↦
          subst (λ m. In m (best ∷ n ∷ ns)) (sym (min_node-keep best n ns e))
            (widen ns (min_node-In best ns))
      | inr e ↦
          subst (λ m. In m (best ∷ n ∷ ns)) (sym (min_node-replace best n ns e))
            (inr (min_node-In n ns))
    ]

pub min_node-le :
    (best : NodeInfo) (ns : List NodeInfo) (a : NodeInfo)
    → In a (best ∷ ns)
    → LebNode (min_node best ns) a
unfolding min_node
min_node-le best [] a (inl e) = rw e (self_le a)
  where
    self_le : (n : NodeInfo) → LebNode n n
    self_le n = elim (key_leb_total (coordinator_sort_key n) (coordinator_sort_key n)) [
      | inl h ↦ h
      | inr h ↦ h
    ]
min_node-le best [] a (inr h) = absurd h
min_node-le best (n ∷ ns) a h =
    elim (Bool-cases (key_leb (coordinator_sort_key best) (coordinator_sort_key n))) [
      | inl e ↦ rw e (from_best e (λ b. min_node-le best ns b) h)
      | inr e ↦ rw e (from_next e (λ b. min_node-le n ns b) h)
    ]
  where
    from_best :
        key_leb (coordinator_sort_key best) (coordinator_sort_key n) ≡ true
        → ((b : NodeInfo) → In b (best ∷ ns) → LebNode (min_node best ns) b)
        → In a (best ∷ n ∷ ns)
        → LebNode (min_node best ns) a
    from_best e ih (inl p) = ih a (inl p)
    from_best e ih (inr (inl p)) =
        rw (← p) (key_leb_trans _ (coordinator_sort_key best) _ (ih best (inl refl)) e)
    from_best e ih (inr (inr p)) = ih a (inr p)

    from_next :
        key_leb (coordinator_sort_key best) (coordinator_sort_key n) ≡ false
        → ((b : NodeInfo) → In b (n ∷ ns) → LebNode (min_node n ns) b)
        → In a (best ∷ n ∷ ns)
        → LebNode (min_node n ns) a
    from_next e ih (inl p) =
        rw (← p) (key_leb_trans _ (coordinator_sort_key n) _ (ih n (inl refl)) (not_le e))
      where
        not_le :
            key_leb (coordinator_sort_key best) (coordinator_sort_key n) ≡ false → LebNode n best
        not_le e' = elim (key_leb_total (coordinator_sort_key best) (coordinator_sort_key n)) [
          | inl h' ↦ cc
          | inr h' ↦ h'
        ]
    from_next e ih (inr p) = ih a p
