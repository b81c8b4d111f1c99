-- ===== src/Libcutter/Examples.antt =====
-- The reply of a command that had nothing to do, as cutter receives it.
use cardboard.Base.{◌∷◌, ℕ, suc, false, ◌≡◌, refl, some, [], arith, drop}
use cardboard.Base.Int.{pos}
use cardboard.Base.Text.{codes}
use cardboard.Protocol.Header.{little, big, create_header_buffer}
use cardboard.Libcutter.{send_command}
use cardboard.Libcutter.Request.{handle_client_readable-send_command}
use cardboard.Ipc.Stages.{answered_by}
use cardboard.Ipc.{
  Readable, Handler, handle_client_readable, Client, count, handle_client_writeable, reply_of,
}
use cardboard.Ipc.Clients.{new_client}
use cardboard.Libcutter.{Received, wait_response, error_number}
use cardboard.Libcutter.Reply.{wait_response-handle_client_writeable}

abbrev client : Client
client = record (new_client 8 5) { message = codes "Nothing to do" }

-- The connection ends after the four bytes.
abbrev received : Received
received = record {
  header = some (record { b0 = 78; b1 = 111; b2 = 116; b3 = 104 });
  header_error = 0;
  count = pos 0;
  buffer = [];
  payload_error = 0;
}

wait_response-handle_client_writeable_example : wait_response big received ≡ error_number 0
unfolding handle_client_writeable reply_of
wait_response-handle_client_writeable_example =
    wait_response-handle_client_writeable little big client (count 4) 78 111 116 104
      (drop 4 (codes "Nothing to do")) received refl
      (omega arith, omega arith, omega arith, omega arith) (omega arith) refl (omega arith)

-- The compositor counts the commands and sends each back.
abbrev echo : Handler ℕ
echo bytes n = (bytes, suc n)

abbrev arrival : Readable
arrival = record {
  error = false;
  hangup = false;
  available = some (pos 7);
  header = some (pos 4, create_header_buffer big (pos 3));
  payload = some (104 ∷ 105 ∷ 0 ∷ []);
}

handle_client_readable-send_command_example :
    handle_client_readable little echo (new_client 8 5) arrival 0
    ≡ answered_by little echo (new_client 8 5) (pos 3) (104 ∷ 105 ∷ 0 ∷ []) 0
unfolding send_command
handle_client_readable-send_command_example =
    handle_client_readable-send_command big little echo (new_client 8 5) arrival (104 ∷ 105 ∷ []) 0
      (omega arith) refl (refl, refl, refl) refl refl
