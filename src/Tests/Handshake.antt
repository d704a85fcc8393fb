-- ===== src/Tests/Handshake.antt =====
-- A HELLO that comes in two pieces, and one that never ends.
use multi_controller.Prelude.{ℕ, zero, suc, ◌≡◌, refl, true, none, some, [], ◌∷◌, any}
use multi_controller.Prelude.Text.{strip}
use multi_controller.Transport.Handshake.{
  Bytes, line, has_newline, first_line, read_line, receive_line, make_hello, read_hello,
}
use multi_controller.Transport.Handshake.Ends.{HasEnded, receive_line-HasEnded}
use multi_controller.Transport.Handshake.Read.{cleaned, read_hello-make_hello}

-- `{}` in two pieces, the second with the end of the line; then nothing more.
abbrev pieces : ℕ → Bytes
pieces zero = 0x7b ∷ []
pieces (suc zero) = 0x7d ∷ 0x0a ∷ []
pieces _ = []

-- Never the end of a line.
abbrev endless : ℕ → Bytes
endless n = 0x7b ∷ []

two_reads : read_line pieces 5 0 [] ≡ line (0x7b ∷ 0x7d ∷ [])
unfolding read_line has_newline any first_line
two_reads = refl

receive_line-HasEnded_example : HasEnded (receive_line endless)
receive_line-HasEnded_example = receive_line-HasEnded endless

read_hello-make_hello_example :
    read_hello (make_hello "desk" (some " 1.2 ") none true)
    ≡ some record {
      node_id = "desk";
      app_version = some "1.2";
      compatibility_version = some "1.2";
      bootstrap = true;
    }
unfolding cleaned strip
read_hello-make_hello_example = read_hello-make_hello "desk" (some " 1.2 ") none true refl
