-- ===== src/Libcutter/Reply.antt =====
-- A reply on its way from `IPC::handle_client_writeable` of cardboard/IPC.cpp to
-- `Client::wait_response` of libcardboard/src/client.cpp.
use cardboard.Base.{ℕ, ◌<◌, ◌≡◌, refl, ap, ◌∙◌, false, Option, none, some, [], ◌∷◌, arith}
use cardboard.Base.Int.{pos, ◌≤ℤ◌}
use cardboard.Base.Text.{Text}
use cardboard.Protocol.Header.{
  Endian, little, big, HeaderBuffer, load, interpret_header, swap_bytes, of_word,
}
use cardboard.Ipc.{Client, Written, Outcome, handle_client_writeable}
use cardboard.Ipc
use cardboard.Ipc.Answer.{handle_client_writeable-takes_message}
use cardboard.Libcutter.{Received, wait_response, error_number, read_response}

-- The four bytes that the first `recv` takes from what was written.
abbrev pub header_of : Text → Option HeaderBuffer
header_of (b0 ∷ b1 ∷ b2 ∷ b3 ∷ []) = some (record { b0 = b0; b1 = b1; b2 = b2; b3 = b3 })
header_of _ = none

abbrev pub arrives : Option Ipc.Reply → Option HeaderBuffer
arrives none = none
arrives (some reply) = header_of reply.bytes

abbrev AreBytes : HeaderBuffer → Type 0
AreBytes h = (h.b0 < 256) × (h.b1 < 256) × (h.b2 < 256) × (h.b3 < 128)

of_word_low : (h : HeaderBuffer) → AreBytes h → of_word (load little h) ≡ pos (load little h)
of_word_low h b = ground (arith, b)

interpret_header_bytes :
    (e : Endian) (h : HeaderBuffer) → AreBytes h → interpret_header e h ≡ pos (load little h)
unfolding interpret_header
interpret_header_bytes little h b = of_word_low h b
interpret_header_bytes big h (b0, b1, b2, b3) =
    let swapped : swap_bytes (load big h) ≡ load little h = omega (arith, b0, b1, b2, b3) in
    ap of_word swapped ∙ of_word_low h (b0, b1, b2, b3)

read_response_long :
    (n : ℕ) (r : Received)
    → 4 < n
    → r.count ≤ℤ pos 4
    → read_response (pos n) r ≡ error_number r.payload_error
read_response_long n r long few = ground (arith, long, few)

-- A reply of at least four bytes, the fourth of them an ASCII character other than NUL, never
-- reaches the caller of wait_response: where what the server has written arrives, and the second
-- recv returns no more than the four bytes it asks for, the result is the error number that is
-- there then, whichever byte order either machine has.
pub wait_response-handle_client_writeable :
    (server reader : Endian) (c : Client) (written : Written) (b0 b1 b2 b3 : ℕ) (m : Text)
    (r : Received)
    → c.message ≡ b0 ∷ b1 ∷ b2 ∷ b3 ∷ m
    → AreBytes (record { b0 = b0; b1 = b1; b2 = b2; b3 = b3 })
    → 0 < b3
    → r.header ≡ arrives (handle_client_writeable server c false false written).1
    → r.count ≤ℤ pos 4
    → wait_response reader r ≡ error_number r.payload_error
unfolding wait_response
wait_response-handle_client_writeable server reader c written b0 b1 b2 b3 m r e bytes high arrived
      few =
    let h : HeaderBuffer = record { b0 = b0; b1 = b1; b2 = b2; b3 = b3 } in
    let there : r.header ≡ some h =
      (arrived
        ∙ ap (λ (x : Outcome × Option Ipc.Reply). arrives x.1)
            (handle_client_writeable-takes_message server c written (rw e (omega arith)))
        ∙ rw e refl) in
    rw (there, interpret_header_bytes reader h bytes)
      (read_response_long (load little h) r (omega (arith, high)) few)
