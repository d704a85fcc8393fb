-- ===== src/Routing/Sink/Released.antt =====
-- No input stays down at a target: what the injector was told to press and not to release is what the
-- authorized controller holds.
use multi_controller.Prelude.{
  ◌≡◌, ◌≢◌, refl, sym, ◌∙◌, ap, ◌⊎◌, inl, inr, Bool, true, false, Option, none, some, List, [], ◌∷◌,
  ◌++◌, String, ◌==◌, eq_iff, arith, if◌then◌else◌, any, keep, Bool-cases, Option-cases,
}
use multi_controller.Prelude.Text.{join, after_prefix, after_prefix-join, join-after_prefix}
use multi_controller.Prelude.Dict
use multi_controller.Prelude.Dict.{
  Dict, HasUniqueKeys, get-set, get-delete, get-retain, set-HasUniqueKeys, delete-HasUniqueKeys,
  retain-HasUniqueKeys,
}
use multi_controller.Routing.Sink.{
  Injection, inject_key, inject_mouse_button, Sink, entries_of, has_entry, add, discard,
  mouse_entry, release_entry, release_entries, release_entries_map,
}

-- What a person would look at: a key or a button.
pub data Input : Type 0 where
  a_key a_button : String → Input

-- Its entry among the pressed ones.
abbrev pub entry_of : Input → String
unfolding mouse_entry
entry_of (a_key k) = k
entry_of (a_button b) = mouse_entry b

-- A key whose name does not look like the entry of a button.
abbrev pub IsPlain : Input → Type 0
IsPlain (a_key k) = after_prefix "mouse:" k ≡ none
IsPlain (a_button b) = Unit

-- Whether it is down after a call of the injector, and after several.
unfoldable pub after_call : Input → Bool → Injection → Bool
after_call (a_key j) b (inject_key k down) = if k == j then down else b
after_call (a_button j) b (inject_mouse_button k position down) = if k == j then down else b
after_call i b _ = b

unfoldable pub after_calls : Input → Bool → List Injection → Bool
after_calls i b [] = b
after_calls i b (c ∷ cs) = after_calls i (after_call i b c) cs

-- The controller holds the input.
abbrev pub held_by : Option String → Dict (List String) → Input → Bool
held_by none m i = false
held_by (some c) m i = has_entry (entry_of i) (entries_of c m)

unfoldable pub held : Sink → Input → Bool
held s i = held_by s.authorized_controller_id s.pressed i

pub after_calls-append :
    (i : Input) (b : Bool) (xs ys : List Injection)
    → after_calls i b (xs ++ ys) ≡ after_calls i (after_calls i b xs) ys
unfolding after_calls
after_calls-append i b [] ys = refl
after_calls-append i b (x ∷ xs) ys = after_calls-append i (after_call i b x) xs ys

pub has_entry-add :
    (e x : String) (es : List String)
    → has_entry e (add x es) ≡ (if x == e then true else has_entry e es)
unfolding has_entry any add
has_entry-add e x es = ground (arith, eq_iff x e)

pub has_entry-discard :
    (e x : String) (es : List String)
    → has_entry e (discard x es) ≡ (if x == e then false else has_entry e es)
unfolding has_entry any discard keep
has_entry-discard e x [] = ground arith
has_entry-discard e x (y ∷ es) =
    ground (arith, eq_iff y x, eq_iff y e, eq_iff x e, has_entry-discard e x es)

pub differs : (s t : String) → s ≢ t → (s == t) ≡ false
differs s t ne = ground (arith, eq_iff s t)

same : (s t : String) → s ≡ t → (s == t) ≡ true
same s t e = (eq_iff s t).1 e

some_injective : (s t : String) → some s ≡ some t → s ≡ t
some_injective s t h = ground arith

pub none_is_not_some : (o : Option String) (t : String) → o ≡ none → o ≡ some t → ⊥
none_is_not_some o t h g = ground arith

pub same_button :
    (b k e : String) → after_prefix "mouse:" e ≡ some b → (e == mouse_entry k) ≡ (b == k)
unfolding mouse_entry
same_button b k e h = elim (Bool-cases (b == k)) [
  | inl eq ↦
      same _ _ (join-after_prefix "mouse:" e b h ∙ ap (join "mouse:") ((eq_iff b k).0 eq)) ∙ sym eq
  | inr ne ↦
      differs _ _ (λ g. none_is_true ne (
        (eq_iff b k).1 (
          some_injective b k
            (sym h ∙ ap (after_prefix "mouse:") g ∙ after_prefix-join "mouse:" k))))
      ∙ sym ne
]
  where
    none_is_true : {x : Bool} → x ≡ false → x ≡ true → ⊥
    none_is_true f g = ground arith

-- To release an entry lets go of the input that has it, and of no other.
pub after_call-release_entry :
    (i : Input) (b : Bool) (e : String)
    → IsPlain i
    → after_call i b (release_entry e) ≡ (if e == entry_of i then false else b)
unfolding after_call release_entry mouse_entry
after_call-release_entry (a_key k) b e plain = elim (Option-cases (after_prefix "mouse:" e)) [
  | inl p ↦ rw (p, release_entry) refl
  | inr (x, p) ↦
      rw (p, release_entry)
        (rw
          (differs e k (λ g.
            none_is_not_some (after_prefix "mouse:" k) x plain
              (ap (after_prefix "mouse:") (sym g) ∙ p)))
          refl)
]
after_call-release_entry (a_button k) b e plain = elim (Option-cases (after_prefix "mouse:" e)) [
  | inl p ↦
      rw (p, release_entry)
        (rw
          (differs e (mouse_entry k) (λ g.
            none_is_not_some (after_prefix "mouse:" e) k p
              (ap (after_prefix "mouse:") g ∙ after_prefix-join "mouse:" k)))
          refl)
  | inr (x, p) ↦ rw (p, release_entry) (rw (same_button x k e p) refl)
]

-- Released entries: what was up stays up, and an input with one of the entries is up.
module _ (i : Input) (plain : IsPlain i) where
  pub after_calls-release_entries :
      (b : Bool) (es : List String)
      → after_calls i b (release_entries es) ≡ (if has_entry (entry_of i) es then false else b)
  unfolding after_calls release_entries has_entry any
  after_calls-release_entries b [] = refl
  after_calls-release_entries b (e ∷ es) =
      ap (λ x. after_calls i x (release_entries es)) (after_call-release_entry i b e plain)
      ∙ after_calls-release_entries (if e == entry_of i then false else b) es
      ∙ ground arith

  after_calls-first :
      (b : Bool) (k : String) (es : List String) (m : Dict (List String))
      → after_calls i b (release_entries_map ((k, es) ∷ m))
        ≡ after_calls i (if has_entry (entry_of i) es then false else b) (release_entries_map m)
  unfolding release_entries_map
  after_calls-first b k es m =
      after_calls-append i b (release_entries es) (release_entries_map m)
      ∙ ap (λ x. after_calls i x (release_entries_map m)) (after_calls-release_entries b es)

  pub after_calls-release_none :
      (m : Dict (List String)) → after_calls i false (release_entries_map m) ≡ false
  unfolding after_calls release_entries_map
  after_calls-release_none [] = refl
  after_calls-release_none ((k, es) ∷ m) =
      after_calls-first false k es m
      ∙ ap (λ b. after_calls i b (release_entries_map m)) (ground arith)
      ∙ after_calls-release_none m

  left_down :
      (c k : String) (es : List String) (m : Dict (List String))
      → ((if has_entry (entry_of i) es
            then false
            else has_entry (entry_of i) (entries_of c ((k, es) ∷ m)))
          ≡ false)
        ⊎ ((if has_entry (entry_of i) es
              then false
              else has_entry (entry_of i) (entries_of c ((k, es) ∷ m)))
            ≡ has_entry (entry_of i) (entries_of c m))
  unfolding entries_of Dict.get
  left_down c k es m = ground arith

  -- Whatever is down by the entries of one peer is up after the entries of all peers are released.
  pub after_calls-release_entries_map :
      (c : String) (m : Dict (List String))
      → after_calls i (has_entry (entry_of i) (entries_of c m)) (release_entries_map m) ≡ false
  after_calls-release_entries_map c [] =
      unfold release_entries_map after_calls entries_of Dict.get has_entry any in refl
  after_calls-release_entries_map c ((k, es) ∷ m) =
      after_calls-first (has_entry (entry_of i) (entries_of c ((k, es) ∷ m))) k es m
      ∙ elim (left_down c k es m) [
        | inl up ↦ ap (λ b. after_calls i b (release_entries_map m)) up ∙ after_calls-release_none m
        | inr same_as ↦
            ap (λ b. after_calls i b (release_entries_map m)) same_as
            ∙ after_calls-release_entries_map c m
      ]
