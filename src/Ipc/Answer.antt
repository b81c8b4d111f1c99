-- ===== src/Ipc/Answer.antt =====
-- The reply that `IPC::handle_client_writeable` writes (cardboard/IPC.cpp).
use cardboard.Base.{
  ℕ, zero, suc, ◌≤◌, ◌≡◌, refl, ap, false, some, [], ◌∷◌, ◌++◌, arith, length, take, drop, ltb,
}
use cardboard.Base.Int.{pos}
use cardboard.Base.Text.{Text}
use cardboard.Protocol.Header.{Endian, create_header_buffer}
use cardboard.Ipc.{
  Client, after_write, Written, reply_of, header_bytes, is_empty, handle_client_writeable,
}

take-append_long : (n : ℕ) (xs ys : Text) → n ≤ length xs → take n (xs ++ ys) ≡ take n xs
take-append_long zero xs ys h = refl
take-append_long (suc n) [] ys h = ground arith
take-append_long (suc n) (x ∷ xs) ys h = ap (◌∷◌ x) (take-append_long n xs ys (omega (arith, h)))

not_empty : (m : Text) → 4 ≤ length m → is_empty m ≡ false
not_empty [] h = ground arith
not_empty (b ∷ m) h = refl

reply_of_long :
    (endian : Endian) (m : Text)
    → 4 ≤ length m
    → reply_of endian m ≡ record { bytes = take 4 m; overrun = ltb 4 (length m) }
unfolding reply_of
reply_of_long endian m h = simp (
  not_empty m h,
  take-append_long 4 m
      (drop (length m) (header_bytes (create_header_buffer endian (pos (length m))))) h,
)

-- A reply of four bytes or more is not written as the protocol has it, the header and then the
-- message: the four bytes on the wire are the first four of the message, with no header, and a
-- message longer than that is copied behind the end of the buffer allocated for it. The client is
-- removed unless the write is to be tried again.
pub handle_client_writeable-takes_message :
    (endian : Endian) (c : Client) (written : Written)
    → 4 ≤ length c.message
    → handle_client_writeable endian c false false written ≡ (
      after_write c written,
      some (record { bytes = take 4 c.message; overrun = ltb 4 (length c.message) }),
    )
unfolding handle_client_writeable
handle_client_writeable-takes_message endian c written long =
    simp (not_empty c.message long, reply_of_long endian c.message long)
