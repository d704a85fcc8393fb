-- ===== src/Transport/Handshake.antt =====
-- transport/peer/handshake.py and frames.py: the HELLO line that both nodes send first. A socket is the sequence of
-- what its `recv` returns, an empty one where the peer has closed. What `json.loads` makes of a line is an argument.
pub mod Ends
pub mod Read
use multi_controller.Prelude.{
  ℕ, zero, suc, ◌+◌, Bool, true, false, not, Option, none, some, List, [], ◌∷◌, ◌++◌, String, ◌==◌,
  if◌then◌else◌, eqb, ltb, any, length,
}
use multi_controller.Prelude.Text.{strip, text_of, given}

abbrev pub Bytes : Type 0
Bytes = List ℕ

abbrev pub hello_max_bytes : ℕ
hello_max_bytes = 8192

-- What the loop of `recv_hello` ends with: a line, or what it raises.
pub data Received : Type 0 where
  line : Bytes → Received
  closed too_large : Received
  out_of_fuel : Received

unfoldable pub has_newline : Bytes → Bool
unfolding any
has_newline buf = any (λ b. eqb b 0x0a) buf

-- `buf.split(b"\n", 1)[0]`.
unfoldable pub first_line : Bytes → Bytes
first_line [] = []
first_line (b ∷ bs) = let rest = first_line bs in if eqb b 0x0a then [] else b ∷ rest

module _ (recv : ℕ → Bytes) where
  unfoldable pub read_line : (fuel reads : ℕ) → Bytes → Received
  unfolding has_newline first_line length
  read_line zero reads buf = out_of_fuel
  read_line (suc fuel) reads buf =
      let rest = read_line fuel (suc reads) (buf ++ recv reads) in
      if has_newline buf then line (first_line buf) else elim (recv reads) [
        | [] ↦ closed
        | b ∷ bs ↦ if ltb hello_max_bytes (length (buf ++ recv reads)) then too_large else rest
      ]

  -- The limit, one read that passes it, and one round more.
  unfoldable pub receive_line : Received
  unfolding read_line
  receive_line = read_line 8194 0 []

-- A field of a JSON object.
pub data Field : Type 0 where
  missing null not_text : Field
  text : String → Field

pub record HelloFrame : Type 0 where
  pub kind : Field
  pub node_id : Field
  pub app_version : Field
  pub compatibility_version : Field
  pub bootstrap : Bool

pub record HelloInfo : Type 0 where
  pub node_id : String
  pub app_version : Option String
  pub compatibility_version : Option String
  pub bootstrap : Bool

abbrev field_if : Option String → Field
field_if none = missing
field_if (some s) = text s

abbrev field_of : Option String → Field
field_of o = field_if (given o)

unfoldable pub make_hello :
    String → (app_version compatibility_version : Option String) → Bool → HelloFrame
unfolding given
make_hello self_node_id app_version compatibility_version bootstrap = record {
  kind = text "hello";
  node_id = text self_node_id;
  app_version = field_of app_version;
  compatibility_version = field_of compatibility_version;
  bootstrap = bootstrap;
}

-- None is what raises; a value may be there or not.
unfoldable pub optional_hello_value : Field → Option (Option String)
optional_hello_value missing = some none
optional_hello_value null = some none
optional_hello_value not_text = none
optional_hello_value (text s) = some (if strip s == "" then none else some (strip s))

abbrev is_text : String → Field → Bool
is_text s (text t) = t == s
is_text s _ = false

abbrev name_of : Field → Option String
name_of (text s) = if s == "" then none else some s
name_of _ = none

abbrev or_else : Option String → Option String → Option String
or_else none other = other
or_else (some s) other = some s

info_of : String → Bool → Option (Option String) → Option (Option String) → Option HelloInfo
info_of k bootstrap (some app) (some compatibility) = some record {
  node_id = k;
  app_version = app;
  compatibility_version = or_else compatibility app;
  bootstrap = bootstrap;
}
info_of k bootstrap _ _ = none

-- What `recv_hello` reads from the object; none is what raises.
unfoldable pub read_hello : HelloFrame → Option HelloInfo
unfolding optional_hello_value info_of
read_hello f =
    if is_text "hello" f.kind
    then elim (name_of f.node_id) [
      | none ↦ none
      | some k ↦
          info_of k f.bootstrap (optional_hello_value f.app_version)
            (optional_hello_value f.compatibility_version)
    ]
    else none

parsed : (Bytes → Option HelloFrame) → Received → Option HelloInfo
unfolding read_hello
parsed loads (line bs) = elim (loads bs) [ none ↦ none | some f ↦ read_hello f ]
parsed loads _ = none

unfoldable pub recv_hello : (ℕ → Bytes) → (Bytes → Option HelloFrame) → Option HelloInfo
unfolding receive_line parsed
recv_hello recv loads = parsed loads (receive_line recv)
