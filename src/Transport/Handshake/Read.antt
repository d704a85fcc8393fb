-- ===== src/Transport/Handshake/Read.antt =====
-- What one node reads of the HELLO of another.
use multi_controller.Prelude.{
  ◌≡◌, refl, sym, ap, ◌∙◌, inl, inr, Bool, true, false, Option, none, some, String, ◌==◌, eq_iff,
  arith, if◌then◌else◌, Bool-cases,
}
use multi_controller.Prelude.Text.{strip, given}
use multi_controller.Transport.Handshake.{
  field_if, field_of, make_hello, optional_hello_value, or_else, read_hello,
}

-- A version without blanks around it, or none.
unfoldable pub cleaned : Option String → Option String
cleaned none = none
cleaned (some s) = if strip s == "" then none else some (strip s)

cleaned-empty : (s : String) → s ≡ "" → cleaned (some s) ≡ none
unfolding cleaned strip
cleaned-empty s e = rw e refl

given-empty : (s : String) → (s == "") ≡ true → given (some s) ≡ none
unfolding given
given-empty s e = rw e refl

given-full : (s : String) → (s == "") ≡ false → given (some s) ≡ some s
unfolding given
given-full s e = rw e refl

optional_hello_value-field_of :
    (o : Option String) → optional_hello_value (field_of o) ≡ some (cleaned o)
unfolding optional_hello_value given cleaned
optional_hello_value-field_of none = refl
optional_hello_value-field_of (some s) = elim (Bool-cases (s == "")) [
  | inl e ↦
      ap (λ g. optional_hello_value (field_if g)) (given-empty s e)
      ∙ ap some (sym (cleaned-empty s (ground (arith, eq_iff s ""))))
  | inr e ↦ ap (λ g. optional_hello_value (field_if g)) (given-full s e)
]

-- What a node reads of the HELLO that another makes: its id, its versions without the blanks around them, the
-- version of the program in place of a compatibility version that is not there, and whether it bootstraps.
-- The id is not empty.
pub read_hello-make_hello :
    (k : String) (app compatibility : Option String) (bootstrap : Bool)
    → (k == "") ≡ false
    → read_hello (make_hello k app compatibility bootstrap)
      ≡ some record {
        node_id = k;
        app_version = cleaned app;
        compatibility_version = or_else (cleaned compatibility) (cleaned app);
        bootstrap = bootstrap;
      }
unfolding read_hello make_hello
read_hello-make_hello k app compatibility bootstrap h =
    rw h (
      rw (optional_hello_value-field_of app)
        (rw (optional_hello_value-field_of compatibility) refl))
