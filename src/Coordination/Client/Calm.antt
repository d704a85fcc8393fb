-- ===== src/Coordination/Client/Calm.antt =====
-- What a handler that does not decide on targets leaves alone: the router, the controller of the sink, and the
-- order of the epochs.
use multi_controller.Prelude.{
  ◌≡◌, ◌≢◌, ◌⊎◌, refl, sym, ap, ◌∙◌, subst, inl, inr, true, false, Option, none, some, List, [],
  String, eq_iff, eq_refl, arith, Bool-cases, if_both, option_both, ℕ,
}
use multi_controller.Prelude.Int.{ℤ}
use multi_controller.Prelude.Text.{given}
use multi_controller.Routing.Sink.{Sink, set_authorized_controller, authorize, is_current}
use multi_controller.Coordination.Client.{
  Client, Around, Effect, Outcome, ◌then_do◌, names, id_of, Comparison, below, same, above,
  compare_epoch_tokens, new_epoch, accept_epoch, accept_coordinator_frame, after_accepting,
  accepting,
}

-- The second epoch is not an older one of the same node than the first.
abbrev pub IsNotOlder : (String → Option ℤ) → Option String → Option String → Type 0
IsNotOlder int_of (some old) (some new) = compare_epoch_tokens int_of new old ≢ below
IsNotOlder int_of _ _ = Unit

pub IsNotOlder-refl : (int_of : String → Option ℤ) (e : Option String) → IsNotOlder int_of e e
unfolding compare_epoch_tokens
IsNotOlder-refl int_of none = tt
IsNotOlder-refl int_of (some e) = rw (eq_refl e) (λ h. ground arith)

pub IsNotOlder-none : (int_of : String → Option ℤ) (e : Option String) → IsNotOlder int_of e none
IsNotOlder-none int_of none = tt
IsNotOlder-none int_of (some e) = tt

-- The same controller as before, or none.
abbrev pub IsNoOther : Option String → Option String → Type 0
IsNoOther before after = (after ≡ before) ⊎ (after ≡ none)

pub record IsStill (c : Client) (o : Outcome) : Type 0 where
  pub router : o.0.router ≡ c.router
  pub sink : o.0.sink ≡ c.sink
  pub epoch : o.0.coordinator_epoch ≡ c.coordinator_epoch

pub still : (c : Client) (did : List Effect) → IsStill c (c, did)
still c did = record { router = refl; sink = refl; epoch = refl }

pub record IsCalm (env : Around) (c : Client) (o : Outcome) : Type 0 where
  pub router : o.0.router ≡ c.router
  pub controller : IsNoOther c.sink.authorized_controller_id o.0.sink.authorized_controller_id
  pub epoch : IsNotOlder env.int_of c.coordinator_epoch o.0.coordinator_epoch

pub IsStill-IsCalm : (env : Around) (c : Client) (o : Outcome) → IsStill c o → IsCalm env c o
IsStill-IsCalm env c o h = record {
  router = h.router;
  controller = inl (ap (λ s. s.authorized_controller_id) h.sink);
  epoch =
      subst (IsNotOlder env.int_of c.coordinator_epoch) (sym h.epoch)
        (IsNotOlder-refl env.int_of c.coordinator_epoch);
}

pub IsCalm-then_do :
    (env : Around) (c : Client) (o : Outcome) (next : Client → Outcome)
    → IsCalm env c o
    → IsStill o.0 (next o.0)
    → IsCalm env c (o then_do next)
IsCalm-then_do env c o next h k = record {
  router = k.router ∙ h.router;
  controller =
      subst (IsNoOther c.sink.authorized_controller_id)
        (sym (ap (λ s. s.authorized_controller_id) k.sink)) h.controller;
  epoch = subst (IsNotOlder env.int_of c.coordinator_epoch) (sym k.epoch) h.epoch;
}

is_current→eq : (a b : Option String) → is_current a b ≡ true → a ≡ b
is_current→eq none none h = refl
is_current→eq none (some k) h = ground arith
is_current→eq (some j) none h = ground arith
is_current→eq (some j) (some k) h = ground (arith, eq_iff j k)

pub set_authorized_controller-sets :
    (s : Sink) (now : ℕ) (k : Option String)
    → (set_authorized_controller s now k).0.authorized_controller_id ≡ k
unfolding set_authorized_controller authorize
set_authorized_controller-sets s now none =
    elim (Bool-cases (is_current s.authorized_controller_id none)) [
      | inr e ↦ rw e refl
      | inl e ↦ rw e (is_current→eq s.authorized_controller_id none e)
    ]
set_authorized_controller-sets s now (some k) =
    elim (Bool-cases (is_current s.authorized_controller_id (some k))) [
      | inr e ↦ rw e refl
      | inl e ↦ rw e (is_current→eq s.authorized_controller_id (some k) e)
    ]

-- What an accepted frame has done to the state before its handler goes on.
abbrev pub IsCalmAnswer : Around → Client → Option Outcome → Type 0
IsCalmAnswer env c none = Unit
IsCalmAnswer env c (some o) = IsCalm env c o

IsCalm-first :
    (env : Around) (c : Client) (e : String)
    → c.coordinator_epoch ≡ none
    → IsCalm env c (record c { coordinator_epoch = some e }, [])
IsCalm-first env c e p = record {
  router = refl;
  controller = inl refl;
  epoch = subst (λ x. IsNotOlder env.int_of x (some e)) (sym p) tt;
}

IsCalm-new :
    (env : Around) (c : Client) (e current : String)
    → c.coordinator_epoch ≡ some current
    → compare_epoch_tokens env.int_of e current ≢ below
    → IsCalm env c (new_epoch c env e)
IsCalm-new env c e current p h = record {
  router = refl;
  controller = inr (set_authorized_controller-sets c.sink env.now none);
  epoch = subst (λ x. IsNotOlder env.int_of x (some e)) (sym p) h;
}

compared-IsCalm :
    (env : Around) (c : Client) (e current : String) (x : Comparison)
    → c.coordinator_epoch ≡ some current
    → compare_epoch_tokens env.int_of e current ≡ x
    → IsCalmAnswer env c
        (elim x [ below ↦ none | same ↦ some (c, []) | above ↦ some (new_epoch c env e) ])
compared-IsCalm env c e current below p h = tt
compared-IsCalm env c e current same p h = IsStill-IsCalm env c _ (still c [])
compared-IsCalm env c e current above p h = IsCalm-new env c e current p (λ k. ground arith)

accept_epoch-IsCalm :
    (env : Around) (c : Client) (e : String) (current : Option String)
    → c.coordinator_epoch ≡ current
    → IsCalmAnswer env c (accept_epoch c env e current)
unfolding accept_epoch
accept_epoch-IsCalm env c e none p = IsCalm-first env c e p
accept_epoch-IsCalm env c e (some current) p = compared-IsCalm env c e current _ p refl

pub accept_coordinator_frame-IsCalm :
    (env : Around) (c : Client) (peer : String) (epoch : Option String)
    → IsCalmAnswer env c (accept_coordinator_frame c env peer epoch)
unfolding accept_coordinator_frame
accept_coordinator_frame-IsCalm env c peer epoch =
    if_both (IsCalmAnswer env c) (names (id_of env.coordinator) peer) _ none
      (option_both (IsCalmAnswer env c) (given epoch) none
        (λ e. accept_epoch c env e c.coordinator_epoch) tt
        (λ e. accept_epoch-IsCalm env c e c.coordinator_epoch refl))
      tt

after_accepting-IsCalm :
    (env : Around) (c : Client) (a : Option Outcome) (next : Client → Outcome)
    → IsCalmAnswer env c a
    → ((c' : Client) → IsStill c' (next c'))
    → IsCalm env c (after_accepting c a next)
after_accepting-IsCalm env c none next h k = IsStill-IsCalm env c _ (still c [])
after_accepting-IsCalm env c (some o) next h k = IsCalm-then_do env c o next h (k o.0)

pub accepting-IsCalm :
    (env : Around) (c : Client) (peer : String) (epoch : Option String) (next : Client → Outcome)
    → ((c' : Client) → IsStill c' (next c'))
    → IsCalm env c (accepting c env peer epoch next)
unfolding accepting
accepting-IsCalm env c peer epoch next k =
    after_accepting-IsCalm env c _ next (accept_coordinator_frame-IsCalm env c peer epoch) k

-- An accepted frame comes from the coordinator.
pub accepting-names :
    (env : Around) (c : Client) (peer : String) (epoch : Option String) (next : Client → Outcome)
    → names (id_of env.coordinator) peer ≡ false
    → accepting c env peer epoch next ≡ (c, [])
unfolding accepting accept_coordinator_frame
accepting-names env c peer epoch next h = rw h refl
