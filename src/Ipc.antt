-- ===== src/Ipc.antt =====
-- The compositor's side of a connection: cardboard/IPC.h and IPC.cpp.
--
-- The socket and the command handler are parameters: a readable event carries what `ioctl` and
-- `recv` return, and `Handler` is `read_command_data` with the command callback, over the state
-- `S` of the compositor.
pub mod Stages
pub mod Answer
pub mod Clients
pub mod Life
mod Examples
use cardboard.Base.{
  ℕ, ◌+◌, ◌-◌, ◌==◌, Bool, true, false, not, ◌||◌, Option, none, some, List, [], ◌∷◌, ◌++◌,
  if◌then◌else◌, length, take, drop, keep_if, ltb,
}
use cardboard.Base.Int.{ℤ, pos, negsuc, ◌-ℤ◌, leb_ℤ, ltb_ℤ}
use cardboard.Base.Text.{Text, codes}
use cardboard.Protocol.Header.{Endian, HeaderBuffer, interpret_header, create_header_buffer}

pub data ClientState : Type 0 where
  reading_header reading_payload writing : ClientState

-- `IPC::Client`; the two flags say which event sources are registered, and `address` stands for the
-- node of the list of clients.
pub record Client : Type 0 where
  pub address : ℕ
  pub client_fd : ℕ
  pub state : ClientState
  pub readable_event_source : Bool
  pub writable_event_source : Bool
  pub payload_size : ℤ
  pub message : Text

-- What a handler does with its client: it stays, `remove_client` is called on it, or the handler
-- throws, which nothing catches.
pub data Outcome : Type 0 where
  stays : Client → Outcome
  removed : Outcome
  throws : Outcome

-- `WL_EVENT_ERROR`, `WL_EVENT_HANGUP`, what `FIONREAD` reports, and what the two calls of `recv`
-- give, the header with its count; `none` is -1.
pub record Readable : Type 0 where
  pub error : Bool
  pub hangup : Bool
  pub available : Option ℤ
  pub header : Option (ℤ × HeaderBuffer)
  pub payload : Option Text

-- `read_command_data` and the callback: the reply to a payload, and the compositor after it.
abbrev pub Handler {ℓ} : Type ℓ → Type ℓ
Handler S = Text → S → Text × S

-- `HEADER_SIZE`
abbrev pub header_size : ℕ
header_size = 4

module _ {ℓ} {S : Type ℓ} (endian : Endian) (handle : Handler S) where
  abbrev answered : Client → Text × S → Outcome × S
  answered c (reply, s) =
      (stays (record c { message = reply; writable_event_source = true; state = writing }), s)

  abbrev receive_payload : Client → Option Text → S → Outcome × S
  receive_payload c none s = (removed, s)
  receive_payload c (some bytes) s = answered c (handle bytes s)

  -- The case `READING_PAYLOAD`. `new std::byte[payload_size]` throws for a negative size.
  unfoldable pub read_payload : Client → ℤ → Option Text → S → Outcome × S
  read_payload c available payload s =
      if ltb_ℤ available c.payload_size
      then (stays c, s)
      else if ltb_ℤ c.payload_size (pos 0)
      then (throws, s)
      else receive_payload c payload s

  abbrev receive_header : Client → ℤ → Option (ℤ × HeaderBuffer) → Option Text → S → Outcome × S
  receive_header c available none payload s = (removed, s)
  receive_header c available (some (received, buffer)) payload s =
      let c' = record c {
        payload_size = interpret_header endian buffer;
        state = reading_payload;
      } in
      if leb_ℤ c'.payload_size (available -ℤ received)
      then read_payload c' (available -ℤ received) payload s
      else (stays c', s)

  -- The case `READING_HEADER`, which falls through to the payload if that is there already.
  unfoldable pub read_header :
      Client → ℤ → Option (ℤ × HeaderBuffer) → Option Text → S → Outcome × S
  read_header c available header payload s =
      if ltb_ℤ available (pos header_size)
      then (stays c, s)
      else receive_header c available header payload s

  unfoldable pub read_stage : ClientState → Client → ℤ → Readable → S → Outcome × S
  read_stage reading_header c available e s = read_header c available e.header e.payload s
  read_stage reading_payload c available e s = read_payload c available e.payload s
  read_stage writing c available e s = (stays c, s)

  abbrev read_available : Client → Option ℤ → Readable → S → Outcome × S
  read_available c none e s = (removed, s)
  read_available c (some n) e s = read_stage c.state c n e s

  -- `IPC::handle_client_readable`
  unfoldable pub handle_client_readable : Client → Readable → S → Outcome × S
  handle_client_readable c e s =
      if e.error
      then (removed, s)
      else if e.hangup
      then (removed, s)
      else read_available c e.available e s

-- What `write` returns: a count, -1 with EAGAIN, or -1 with another error.
pub data Written : Type 0 where
  count : ℕ → Written
  again failed : Written

-- What `handle_client_writeable` hands to `write`, and whether it has written behind the end of the
-- buffer that it allocated.
pub record Reply : Type 0 where
  pub bytes : Text
  pub overrun : Bool

abbrev pub header_bytes : HeaderBuffer → Text
header_bytes h = h.b0 ∷ h.b1 ∷ h.b2 ∷ h.b3 ∷ []

abbrev pub is_empty : Text → Bool
is_empty [] = true
is_empty (b ∷ bs) = false

-- `message.empty() + header.size()`, the size of the buffer and the count given to `write`.
abbrev pub reply_size : Text → ℕ
reply_size message = (if is_empty message then 1 else 0) + header_size

-- `std::copy` of `xs` to the start of a buffer.
abbrev pub copy_to_start : Text → Text → Text
copy_to_start xs buffer = xs ++ drop (length xs) buffer

-- The header is copied to the start of the buffer, and then the message, to the start too.
unfoldable pub reply_of : Endian → Text → Reply
reply_of endian message =
    let header = header_bytes (create_header_buffer endian (pos (length message))) in
    record {
      bytes = take (reply_size message) (copy_to_start message header);
      overrun = ltb (reply_size message) (length message);
    }

abbrev pub after_write : Client → Written → Outcome
after_write c (count n) = removed
after_write c again = stays c
after_write c failed = removed

-- `IPC::handle_client_writeable`: what becomes of the client, and the reply that it writes, if any.
unfoldable pub handle_client_writeable :
    Endian → Client → Bool → Bool → Written → Outcome × Option Reply
handle_client_writeable endian c error hangup written =
    if error || hangup
    then (removed, none)
    else if is_empty c.message
    then (removed, none)
    else (after_write c written, some (reply_of endian c.message))
