-- ===== src/Transport/Handshake/Ends.antt =====
-- The loop that reads the HELLO line ends.
use multi_controller.Prelude.{
  ℕ, zero, suc, ◌+◌, ◌≤◌, ◌<◌, ◌≡◌, refl, ap, true, [], ◌∷◌, ◌++◌, arith, if◌then◌else◌, ltb, any,
  length, if_given,
}
use multi_controller.Transport.Handshake.{
  Bytes, hello_max_bytes, Received, line, closed, too_large, out_of_fuel, has_newline, first_line,
  read_line, receive_line,
}

-- The loop has ended, and a line that it has read is shorter than the limit.
abbrev pub HasEnded : Received → Type 0
HasEnded (line bs) = length bs < hello_max_bytes
HasEnded closed = Unit
HasEnded too_large = Unit
HasEnded out_of_fuel = ⊥

first_line-length : (buf : Bytes) → has_newline buf ≡ true → length (first_line buf) < length buf
unfolding has_newline any first_line length
first_line-length [] h = absurd (ground arith)
first_line-length (b ∷ bs) h = ground (arith, first_line-length bs)

length-append : (xs ys : Bytes) → length (xs ++ ys) ≡ length xs + length ys
unfolding length
length-append [] ys = ground arith
length-append (x ∷ xs) ys = ground (arith, length-append xs ys)

grown : (buf chunk bs : Bytes) (b : ℕ) → chunk ≡ b ∷ bs → length buf < length (buf ++ chunk)
grown buf chunk bs b e = ground (arith, length-append buf chunk, ap length e, one_more b bs)
  where
    one_more : (b : ℕ) (bs : Bytes) → 0 < length (b ∷ bs)
    one_more b bs = unfold length in ground arith

module _ (recv : ℕ → Bytes) where
  rounds :
      (fuel reads : ℕ) (buf chunk : Bytes)
      → hello_max_bytes < suc fuel + length buf
      → recv reads ≡ chunk
      → (hello_max_bytes < fuel + length (buf ++ recv reads)
          → length (buf ++ recv reads) ≤ hello_max_bytes
          → HasEnded (read_line recv fuel (suc reads) (buf ++ recv reads)))
      → HasEnded (elim chunk [
        | [] ↦ closed
        | b ∷ bs ↦
            if ltb hello_max_bytes (length (buf ++ recv reads))
            then too_large
            else read_line recv fuel (suc reads) (buf ++ recv reads)
      ])
  rounds fuel reads buf [] h e again = tt
  rounds fuel reads buf (b ∷ bs) h e again =
      let longer = grown buf (recv reads) bs b e in
      if_given HasEnded (ltb hello_max_bytes (length (buf ++ recv reads))) _ _ (λ q. tt)
        (λ q. again (ground arith) (ground arith))

  -- Every round that goes on has made the buffer longer.
  read_line-HasEnded :
      (fuel reads : ℕ) (buf : Bytes)
      → hello_max_bytes < fuel + length buf
      → length buf ≤ hello_max_bytes
      → HasEnded (read_line recv fuel reads buf)
  unfolding read_line
  read_line-HasEnded zero reads buf h k = absurd (ground arith)
  read_line-HasEnded (suc fuel) reads buf h k =
      if_given HasEnded (has_newline buf) _ _ (λ n. shorter (first_line-length buf n))
        (λ n.
          rounds fuel reads buf (recv reads) h refl
            (λ p q. read_line-HasEnded fuel (suc reads) (buf ++ recv reads) p q))
    where
      shorter : length (first_line buf) < length buf → length (first_line buf) < hello_max_bytes
      shorter q = ground arith

-- Whatever a peer sends, and in whatever pieces, the loop of `recv_hello` ends within 8194 rounds, for the fuel that
-- the model gives it is never used up: it ends with a line that is shorter than the limit, or it raises because the
-- peer has closed or has sent too much.
pub receive_line-HasEnded : (recv : ℕ → Bytes) → HasEnded (receive_line recv)
unfolding receive_line
receive_line-HasEnded recv =
    read_line-HasEnded recv 8194 0 [] (ground arith) (unfold length in ground arith)
