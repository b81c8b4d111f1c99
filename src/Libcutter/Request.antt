-- ===== src/Libcutter/Request.antt =====
-- A command on its way from `Client::send_command` of libcardboard/src/client.cpp to
-- `IPC::handle_client_readable` of cardboard/IPC.cpp.
use cardboard.Base.{
  ◌+◌, ◌^◌, ◌<◌, ◌≡◌, ap, ◌∙◌, subst, Option, none, some, List, [], ◌∷◌, ◌++◌, arith, length,
}
use cardboard.Base.Int.{ℤ, pos, int_laws}
use cardboard.Base.Text.{Text}
use cardboard.Protocol.Header.{Endian, HeaderBuffer, interpret_header, create_header_buffer}
use cardboard.Protocol.Header.Wire.{interpret-create_header}
use cardboard.Ipc.{Client, Readable, Handler, reading_header, handle_client_readable}
use cardboard.Ipc.Stages.{Brings, answered_by, handle_client_readable-at_once}
use cardboard.Libcutter.{encoded, send_command, payload_length}
use cardboard.Libcutter.Reply.{header_of}

-- What the server reads of what a client has written, a header of four bytes and the rest.
abbrev pub first_part : List Text → Option (ℤ × HeaderBuffer)
first_part [] = none
first_part (header ∷ parts) = elim (header_of header) [ none ↦ none | some h ↦ some (pos 4, h) ]

abbrev pub second_part : List Text → Option Text
second_part [] = none
second_part (header ∷ []) = none
second_part (header ∷ payload ∷ parts) = some payload

payload_length_small :
    (buffer : Text) → length buffer + 1 < 2 ^ 31 → payload_length buffer ≡ pos (length buffer + 1)
payload_length_small buffer h = ground (arith, h)

module _ {ℓ} {S : Type ℓ} where
  -- A command whose bytes and a zero are fewer than 2^31, written without failure: when what the
  -- client has written arrives at a server that waits for a header, all at once, the effect is that
  -- of the handler on exactly those bytes and the zero, and the client waits to write its reply,
  -- whichever byte order either machine has.
  pub handle_client_readable-send_command :
      (writer reader : Endian) (handle : Handler S) (c : Client) (e : Readable) (buffer : Text)
      (s : S)
      → length buffer + 1 < 2 ^ 31
      → c.state ≡ reading_header
      → Brings e (pos (length buffer + 5))
      → e.header ≡ first_part (send_command writer (encoded buffer) none none).0
      → e.payload ≡ second_part (send_command writer (encoded buffer) none none).0
      → handle_client_readable reader handle c e s
        ≡ answered_by reader handle c (pos (length buffer + 1)) (buffer ++ 0 ∷ []) s
  unfolding send_command
  handle_client_readable-send_command writer reader handle c e buffer s fits reading brings header
        payload =
      let h : HeaderBuffer = create_header_buffer writer (payload_length buffer) in
      let incoming : interpret_header reader h ≡ pos (length buffer + 1) =
        (ap (λ n. interpret_header reader (create_header_buffer writer n))
            (payload_length_small buffer fits)
          ∙ (interpret-create_header writer reader (pos (length buffer + 1))
              (omega arith, omega (arith, fits))).0) in
      subst
        (λ n.
          handle_client_readable reader handle c e s
          ≡ answered_by reader handle c n (buffer ++ 0 ∷ []) s)
        incoming
        ((handle_client_readable-at_once reader handle c e (pos (length buffer + 5)) (pos 4) h
            (buffer ++ 0 ∷ []) s reading brings (omega arith) header (rw incoming (grind int_laws))
            payload).0
          (rw incoming (omega arith)))
