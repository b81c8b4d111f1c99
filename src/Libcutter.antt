-- ===== src/Libcutter.antt =====
-- The client's side of a connection: libcardboard/src/client.cpp.
--
-- What the system calls return is given, and so is the encoding of a command, which cereal makes.
pub mod Reply
pub mod Request
mod Examples
use cardboard.Base.{
  ℕ, ◌+◌, ◌==◌, ◌%◌, ◌^◌, Bool, Option, none, some, List, [], ◌∷◌, ◌++◌, if◌then◌else◌, length,
}
use cardboard.Base.Int.{ℤ, pos, ltb_ℤ, eqb_ℤ}
use cardboard.Base.Text.{Text, codes}
use cardboard.Protocol.Header.{
  Endian, HeaderBuffer, interpret_header, create_header_buffer, of_word,
}
use cardboard.Ipc.{header_bytes}

-- `tl::expected<void, std::string>` of `send_command`.
pub data Sent : Type 0 where
  sent : Sent
  not_sent : Text → Sent

-- The command's bytes, or the error of their encoding.
pub data Encoded : Type 0 where
  encoded : Text → Encoded
  not_encoded : Text → Encoded

-- `-1` of a `write` with the message of its error, or none.
abbrev pub Failure : Type 0
Failure = Option Text

abbrev unable : Text → Sent
unable error = not_sent (codes "unable to write payload: " ++ error)

-- `size() + 1` as an `int`.
abbrev pub payload_length : Text → ℤ
payload_length buffer = of_word ((length buffer + 1) % 2 ^ 32)

-- What has been handed to the socket, and the result, by what the two writes return.
abbrev pub write_parts : Endian → Text → Failure → Failure → List Text × Sent
write_parts endian buffer (some error) second =
    (header_bytes (create_header_buffer endian (payload_length buffer)) ∷ [], unable error)
write_parts endian buffer none second =
    let header = header_bytes (create_header_buffer endian (payload_length buffer)) in
    let written = header ∷ (buffer ++ 0 ∷ []) ∷ [] in
    elim second [ none ↦ (written, sent) | some error ↦ (written, unable error) ]

-- `Client::send_command`
unfoldable pub send_command : Endian → Encoded → Failure → Failure → List Text × Sent
send_command endian (not_encoded error) first second = ([], not_sent error)
send_command endian (encoded buffer) first second = write_parts endian buffer first second

-- `tl::expected<std::string, int>` of `wait_response`, or the exception of a negative array size.
pub data Response : Type 0 where
  response : Text → Response
  error_number : ℕ → Response
  throws : Response

-- The header, where `recv` returns its size, and the number of the error; what the second `recv`
-- returns, the buffer after it, and the number of the error then.
pub record Received : Type 0 where
  pub header : Option HeaderBuffer
  pub header_error : ℕ
  pub count : ℤ
  pub buffer : Text
  pub payload_error : ℕ

-- The bytes before the first zero.
abbrev pub c_string : Text → Text
c_string [] = []
c_string (b ∷ bs) = if b == 0 then [] else b ∷ c_string bs

abbrev pub read_response : ℤ → Received → Response
read_response incoming r =
    if eqb_ℤ incoming (pos 0)
    then response []
    else if ltb_ℤ incoming (pos 0)
    then throws
    else if eqb_ℤ r.count incoming
    then response (c_string r.buffer)
    else error_number r.payload_error

-- `EBADF`
abbrev ebadf : ℕ
ebadf = 9

abbrev pub after_header : Endian → Option HeaderBuffer → Received → Response
after_header endian none r =
    if r.header_error == ebadf then response [] else error_number r.header_error
after_header endian (some h) r = read_response (interpret_header endian h) r

-- `Client::wait_response`
unfoldable pub wait_response : Endian → Received → Response
wait_response endian r = after_header endian r.header r

-- What `open_client` finds: the socket, the two variables of the environment, and whether the
-- connection is made.
pub record Surroundings : Type 0 where
  pub socket_fd : Option ℕ
  pub cardboard_socket : Option Text
  pub wayland_display : Option Text
  pub connects : Text → Bool

-- The socket of the client, or the message of the error.
pub data Opened : Type 0 where
  opened : ℕ → Text → Opened
  not_opened : Text → Opened

abbrev pub socket_path : Option Text → Option Text → Option Text
socket_path (some path) display = some path
socket_path none (some display) = some (codes "/tmp/cardboard-" ++ display)
socket_path none none = none

abbrev pub connect_to : Surroundings → ℕ → Option Text → Opened
connect_to s fd none = not_opened (codes "WAYLAND_DISPLAY not set")
connect_to s fd (some path) =
    if s.connects path then opened fd path else not_opened (codes "Unable to connect")

abbrev pub open_with : Surroundings → Option ℕ → Opened
open_with s none = not_opened (codes "Failed to create socket")
open_with s (some fd) = connect_to s fd (socket_path s.cardboard_socket s.wayland_display)

-- `open_client`
unfoldable pub open_client : Surroundings → Opened
open_client s = open_with s s.socket_fd
