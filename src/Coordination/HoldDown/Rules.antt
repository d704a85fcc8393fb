-- ===== src/Coordination/HoldDown/Rules.antt =====
-- What the hold-down promises: who is picked, what is remembered of it, and when the coordinator changes.
use multi_controller.Prelude.{
  ℕ, ◌+◌, ◌≤◌, ◌≡◌, refl, sym, subst, ◌∙◌, ap, ◌⊎◌, Bool, true, false, inl, inr, Option, none, some,
  List, [], ◌∷◌, String, ◌==◌, eq_iff, arith, In, keep, Bool-cases, Option-cases, if◌then◌else◌,
  eqb, ltb,
}
use multi_controller.Prelude.Text.{text_of}
use multi_controller.Prelude.Dict
use multi_controller.Prelude.Dict.{Dict, get-set}
use multi_controller.Context.{NodeInfo, Context}
use multi_controller.Registry.{Registry}
use multi_controller.Coordination.Election.{online_nodes, min_node, coordinator_sort_key, key_leb}
use multi_controller.Coordination.Election.Order.{min_node-In}
use multi_controller.Coordination.HoldDown.{
  Election, sync_online_tracking, is_healthy, clear_challenger, set_current, by_id, current_among,
  best, or_node, is_challenger, challenge, choose, healthy_of, decide, pick,
}

-- The node is the challenger, and the hold-down time has passed since `challenger_since`, which `challenge` sets to
-- the time since when the node is known to be online; or there is no time to wait for.
abbrev pub HasWaited : Election → ℕ → NodeInfo → Type 0
HasWaited e now n =
    (e.hold_down_ms ≡ 0)
    ⊎ ((e.challenger_id ≡ some n.node_id) × (e.challenger_since + e.hold_down_ms ≤ now))

is_challenger_lem : (o : Option String) (k : String) → is_challenger o k ≡ true → o ≡ some k
is_challenger_lem none k h = ground arith
is_challenger_lem (some c) k h = ground (arith, eq_iff c k)

challenge-HasWaited :
    (e : Election) (now : ℕ) (current preferred : NodeInfo)
    → ((challenge e now current preferred).1 ≡ current)
      ⊎ (((challenge e now current preferred).1 ≡ preferred)
          × HasWaited e now preferred
          × (key_leb (coordinator_sort_key current) (coordinator_sort_key preferred) ≡ false))
unfolding challenge
challenge-HasWaited e now current preferred =
    elim (Bool-cases (key_leb (coordinator_sort_key current) (coordinator_sort_key preferred))) [
      | inl b ↦ rw b (inl refl)
      | inr b ↦ rw b (elim (Bool-cases (eqb e.hold_down_ms 0)) [
        | inl z ↦ rw z (inr (refl, inl (ground arith), refl))
        | inr z ↦ rw z (elim (Bool-cases (is_challenger e.challenger_id preferred.node_id)) [
          | inl c ↦ rw c (elim (Bool-cases (ltb now (e.challenger_since + e.hold_down_ms))) [
            | inl w ↦ rw w (inl refl)
            | inr w ↦ rw w (
                inr (
                  refl,
                  inr (is_challenger_lem e.challenger_id preferred.node_id c, ground arith),
                  refl,
                ))
          ])
          | inr c ↦ rw c (inl refl)
        ])
      ])
    ]

challenge-current :
    (e : Election) (now : ℕ) (current preferred : NodeInfo)
    → text_of e.current_coordinator_id ≡ current.node_id
    → text_of (challenge e now current preferred).0.current_coordinator_id
      ≡ (challenge e now current preferred).1.node_id
unfolding challenge clear_challenger set_current text_of
challenge-current e now current preferred h = ground arith

get-by_id :
    (k : String) (ns : List NodeInfo) (acc : Dict NodeInfo) (n : NodeInfo)
    → Dict.get k (by_id ns acc) ≡ some n
    → (Dict.get k acc ≡ some n) ⊎ (In n ns × (n.node_id ≡ k))
unfolding by_id
get-by_id k [] acc n h = inl h
get-by_id k (m ∷ ns) acc n h = elim (get-by_id k ns (Dict.set m.node_id m acc) n h) [
  | inr (i, e) ↦ inr (inr i, e)
  | inl g ↦ elim (Bool-cases (m.node_id == k)) [
    | inl e ↦ ground (arith, get-set m.node_id k m acc, eq_iff m.node_id k)
    | inr e ↦ ground (arith, get-set m.node_id k m acc)
  ]
]

none_is_not_some : (n : NodeInfo) → none ≡ some n → ⊥
none_is_not_some n h = ground arith

current_among-In :
    (e : Election) (ns : List NodeInfo) (n : NodeInfo)
    → current_among e ns ≡ some n
    → In n ns × (n.node_id ≡ text_of e.current_coordinator_id)
unfolding current_among
current_among-In e ns n h = elim (get-by_id (text_of e.current_coordinator_id) ns [] n h) [
  | inl empty ↦ absurd (none_is_not_some n (unfold Dict.get in empty))
  | inr found ↦ found
]

best-In : (ns : List NodeInfo) (n : NodeInfo) → best ns ≡ some n → In n ns
unfolding best
best-In [] n h = ground arith
best-In (m ∷ ns) n h =
    let e : min_node m ns ≡ n = ground arith in subst (λ x. In x (m ∷ ns)) e (min_node-In m ns)

best-none : (ns : List NodeInfo) → best ns ≡ none → (n : NodeInfo) → In n ns → ⊥
unfolding best
best-none [] b n i = i
best-none (m ∷ ns) b n i = ground arith

In-keep :
    (p : NodeInfo → Bool) (ns : List NodeInfo) (n : NodeInfo)
    → In n (keep p ns)
    → In n ns × (p n ≡ true)
unfolding keep
In-keep p [] n h = absurd h
In-keep p (m ∷ ns) n h = elim (Bool-cases (p m)) [
  | inl e ↦ elim (subst (λ b. In n (if b then m ∷ keep p ns else keep p ns)) e h) [
    | inl same ↦ (inl same, ap p (sym same) ∙ e)
    | inr i ↦ let rest = In-keep p ns n i in (inr rest.0, rest.1)
  ]
  | inr e ↦
      let rest = In-keep p ns n (subst (λ b. In n (if b then m ∷ keep p ns else keep p ns)) e h) in
      (inr rest.0, rest.1)
]

choose-remembered :
    (e : Election) (now : ℕ) (b : NodeInfo) (h c : Option NodeInfo)
    → ((n : NodeInfo) → c ≡ some n → text_of e.current_coordinator_id ≡ n.node_id)
    → text_of (choose e now b h c).0.current_coordinator_id ≡ (choose e now b h c).1.node_id
unfolding choose set_current clear_challenger text_of
choose-remembered e now b h none known = refl
choose-remembered e now b h (some n) known =
    challenge-current e now n (or_node h n) (unfold text_of in known n refl)

decide-remembered :
    (e : Election) (ctx : Context) (now : ℕ) (ns : List NodeInfo)
    → text_of (decide e ctx now ns).0.current_coordinator_id ≡ (decide e ctx now ns).1.node_id
unfolding decide
decide-remembered e ctx now ns = elim (Option-cases (best ns)) [
  | inl b ↦ rw (b, decide) (unfold set_current clear_challenger text_of in refl)
  | inr (n, b) ↦
      rw (b, decide)
        (choose-remembered e now n (best (healthy_of e ctx now ns)) (current_among e ns)
          (λ c h. sym (current_among-In e ns c h).1))
]

-- The outcome when the current coordinator is online, with the best of the healthy nodes.
choose-HasWaited :
    (e : Election) (ctx : Context) (now : ℕ) (b current : NodeInfo) (h : Option NodeInfo)
    → ((n : NodeInfo) → h ≡ some n → is_healthy e ctx now n.node_id ≡ true)
    → ((choose e now b h (some current)).1 ≡ current)
      ⊎ (HasWaited e now (choose e now b h (some current)).1
          × (is_healthy e ctx now (choose e now b h (some current)).1.node_id ≡ true)
          × (key_leb
                (coordinator_sort_key current)
                (coordinator_sort_key (choose e now b h (some current)).1)
              ≡ false))
unfolding choose
choose-HasWaited e ctx now b current none healthy =
    elim (challenge-HasWaited e now current current) [
      | inl same ↦ inl same
      | inr (same, w, b) ↦ inl same
    ]
choose-HasWaited e ctx now b current (some n) healthy = elim (challenge-HasWaited e now current n) [
  | inl same ↦ inl same
  | inr (same, waited, before) ↦ rw same (inr (waited, healthy n refl, before))
]

decide-HasWaited :
    (e : Election) (ctx : Context) (now : ℕ) (ns : List NodeInfo) (current : NodeInfo)
    → current_among e ns ≡ some current
    → ((decide e ctx now ns).1 ≡ current)
      ⊎ (HasWaited e now (decide e ctx now ns).1
          × (is_healthy e ctx now (decide e ctx now ns).1.node_id ≡ true)
          × (key_leb (coordinator_sort_key current) (coordinator_sort_key (decide e ctx now ns).1)
              ≡ false))
unfolding decide
decide-HasWaited e ctx now ns current h = elim (Option-cases (best ns)) [
  | inl b ↦ absurd (best-none ns b current (current_among-In e ns current h).0)
  | inr (n, b) ↦
      rw (b, h, decide)
        (choose-HasWaited e ctx now n current (best (healthy_of e ctx now ns))
          (λ m i. (In-keep _ ns m (best-In (healthy_of e ctx now ns) m i)).1))
]

module _ (e : Election) (ctx : Context) (r : Registry) (now : ℕ) where
  -- The node that is picked is the one that is remembered as the coordinator.
  pub pick-remembered :
      text_of (pick e ctx r now).0.current_coordinator_id ≡ (pick e ctx r now).1.node_id
  unfolding pick
  pick-remembered =
      decide-remembered (sync_online_tracking e ctx r now) ctx now (online_nodes ctx r none)

  -- While the current coordinator is online, another node takes over only if it goes before it by priority
  -- and node id, is healthy, and either no hold-down time is set, or the election names the node as its challenger
  -- before this pick and the hold-down time has passed since its `challenger_since`.
  pub pick-HasWaited :
      (current : NodeInfo)
      → current_among e (online_nodes ctx r none) ≡ some current
      → ((pick e ctx r now).1 ≡ current)
        ⊎ (HasWaited e now (pick e ctx r now).1
            × (is_healthy (sync_online_tracking e ctx r now) ctx now (pick e ctx r now).1.node_id
                ≡ true)
            × (key_leb (coordinator_sort_key current) (coordinator_sort_key (pick e ctx r now).1)
                ≡ false))
  unfolding pick sync_online_tracking current_among
  pick-HasWaited current h =
      decide-HasWaited (sync_online_tracking e ctx r now) ctx now (online_nodes ctx r none) current
        h
