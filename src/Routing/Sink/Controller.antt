-- ===== src/Routing/Sink/Controller.antt =====
-- What each operation of the sink does to an input that the controller holds.
use multi_controller.Prelude.{
  ◌≡◌, refl, sym, ◌∙◌, ap, inl, inr, Bool, true, false, not, Option, none, some, List, [], ◌∷◌,
  String, ◌==◌, eq_iff, arith, if◌then◌else◌, any, Bool-cases,
}
use multi_controller.Prelude.Dict
use multi_controller.Prelude.Dict.{
  Dict, HasUniqueKeys, get-delete, get-retain, delete-HasUniqueKeys, retain-HasUniqueKeys,
}
use multi_controller.Routing.Sink.{
  prepare_remote_control, end_remote_control, InputEvent, entries_of, has_entry, track_pressed,
  inject, is_controller, release_entries_map, is_current, release_entries,
}
use multi_controller.Routing.Sink.Released.{
  Input, entry_of, IsPlain, after_calls, held_by, after_calls-release_none,
  after_calls-release_entries, after_calls-release_entries_map,
}
use multi_controller.Routing.Sink.Authorized.{IsPlainEvent, inject-tracked, other_lem}

abbrev pub Entries : Type 0
Entries = Dict (List String)

-- Only the controller has entries.
abbrev IsAlone : Option String → Entries → Type 0
IsAlone o m = (k : String) → is_controller o k ≡ false → entries_of k m ≡ []

pub entries_of-retain :
    (p : String → Bool) (k : String) (m : Entries)
    → HasUniqueKeys m
    → entries_of k (Dict.retain (λ j es. p j) m) ≡ (if p k then entries_of k m else [])
unfolding entries_of
entries_of-retain p k m u = ground (arith, get-retain (λ j es. p j) k m u)

pub entries_of-delete :
    (j k : String) (m : Entries)
    → entries_of k (Dict.delete j m) ≡ (if j == k then [] else entries_of k m)
unfolding entries_of
entries_of-delete j k m = ground (arith, get-delete j k m)

pub controller_differs :
    (o : Option String) (p k : String)
    → is_controller o p ≡ true
    → is_controller o k ≡ false
    → (p == k) ≡ false
controller_differs none p k h g = ground arith
controller_differs (some c) p k h g = ground (arith, eq_iff c p, eq_iff c k, eq_iff p k)

pub flipped : (c k : String) → (c == k) ≡ false → (k == c) ≡ false
flipped c k h = ground (arith, eq_iff c k, eq_iff k c)

no_entry : (x : String) → has_entry x [] ≡ false
unfolding has_entry any
no_entry x = refl

module _ (i : Input) (plain : IsPlain i) where
  pub inject-held_by :
      (o : Option String) (m : Entries) (p : String) (e : InputEvent)
      → IsPlainEvent e
      → is_controller o p ≡ true
      → after_calls i (held_by o m i) (inject e) ≡ held_by o (track_pressed p e m) i
  inject-held_by none m p e ev h = absurd (false_is_not_true h)
    where
      false_is_not_true : false ≡ true → ⊥
      false_is_not_true g = ground arith
  inject-held_by (some c) m p e ev h = rw ((eq_iff c p).0 h) (inject-tracked i plain p e m ev)

  pub end-held_by :
      (o : Option String) (m : Entries)
      → after_calls i (held_by o m i) (end_remote_control ∷ release_entries_map m) ≡ false
  unfolding after_calls
  end-held_by none m =
      ap (λ b. after_calls i b (release_entries_map m)) (other_lem i _ end_remote_control tt)
      ∙ after_calls-release_none i plain m
  end-held_by (some c) m =
      ap (λ b. after_calls i b (release_entries_map m)) (other_lem i _ end_remote_control tt)
      ∙ after_calls-release_entries_map i plain c m

  pub prepare-held_by :
      (o : Option String) (m : Entries) (c : String)
      → HasUniqueKeys m
      → is_current o (some c) ≡ false
      → after_calls i
          (held_by o m i)
          (prepare_remote_control ∷ release_entries_map (Dict.retain (λ k es. not (k == c)) m))
        ≡ false
  unfolding after_calls
  prepare-held_by none m c u n =
      ap (λ b. after_calls i b (release_entries_map (Dict.retain (λ k es. not (k == c)) m)))
        (other_lem i false prepare_remote_control tt)
      ∙ after_calls-release_none i plain (Dict.retain (λ k es. not (k == c)) m)
  prepare-held_by (some d) m c u n =
      ap (λ b. after_calls i b (release_entries_map rest))
        (other_lem i _ prepare_remote_control tt
          ∙ ap (has_entry (entry_of i))
              (sym (entries_of-retain (λ k. not (k == c)) d m u ∙ rw n refl)))
      ∙ after_calls-release_entries_map i plain d rest
    where
      rest : Entries
      rest = Dict.retain (λ k es. not (k == c)) m

  pub kept-held_by :
      (o : Option String) (m : Entries) (c : String)
      → HasUniqueKeys m
      → IsAlone o m
      → is_current o (some c) ≡ false
      → held_by (some c) (Dict.retain (λ k es. k == c) m) i ≡ false
  kept-held_by o m c u alone n =
      ap (has_entry (entry_of i))
        (entries_of-retain (λ k. k == c) c m u ∙ rw ((eq_iff c c).1 refl) (alone c (other o n)))
      ∙ no_entry (entry_of i)
    where
      other : (x : Option String) → is_current x (some c) ≡ false → is_controller x c ≡ false
      other none h = refl
      other (some d) h = h

  pub release-held_by :
      (o : Option String) (m : Entries) (p : String)
      → IsAlone o m
      → after_calls i (held_by o m i) (release_entries (entries_of p m))
        ≡ held_by o (Dict.delete p m) i
  release-held_by none m p alone =
      after_calls-release_entries i plain false (entries_of p m) ∙ ground arith
  release-held_by (some c) m p alone =
      after_calls-release_entries i plain _ (entries_of p m) ∙ elim (Bool-cases (p == c)) [
        | inl e ↦ ground (arith, entries_of-delete p c m, eq_iff p c, no_entry (entry_of i))
        | inr e ↦
            ground (
              arith,
              entries_of-delete p c m,
              eq_iff p c,
              eq_iff c p,
              alone p,
              no_entry (entry_of i),
            )
      ]
