-- ===== src/Ipc/Examples.antt =====
-- A client that sends a message of two bytes in pieces, and the theorems about the connection there.
use cardboard.Base.{ℕ, suc, ◌≡◌, refl, true, false, some, List, [], ◌∷◌, arith}
use cardboard.Base.Int.{pos, negsuc, ◌-ℤ◌, ◌≤ℤ◌, ◌<ℤ◌}
use cardboard.Protocol.Header.{little, create_header_buffer, interpret_header}
use cardboard.Ipc.{
  Client, Readable, Handler, stays, throws, again, handle_client_readable, handle_client_writeable,
  reading_payload, read_stage, read_header, read_payload,
}
use cardboard.Ipc.Answer.{handle_client_writeable-takes_message}
use cardboard.Ipc.Clients.{Fcntl, new_client, handle_client_connection}
use cardboard.Ipc.Life.{started, next, connects, reads, Reach, IsServed, Reach-IsServed}
use cardboard.Ipc.Stages.{
  done, wait, run, run-delivered, handle_client_readable-at_once, handle_client_readable-Advances,
  Advances, answered_by,
}

-- The compositor counts the messages and sends each back.
abbrev echo : Handler ℕ
echo bytes n = (bytes, suc n)

abbrev event : ℕ → Readable
event n = record {
  error = false;
  hangup = false;
  available = some (pos n);
  header = some (pos 4, create_header_buffer little (pos 2));
  payload = some (104 ∷ 105 ∷ []);
}

abbrev client : Client
client = new_client 8 5

abbrev pieces : List Readable
pieces = event 3 ∷ event 5 ∷ event 1 ∷ event 2 ∷ event 0 ∷ []

run-delivered_example :
    run little echo client pieces 0 ≡ answered_by little echo client (pos 2) (104 ∷ 105 ∷ []) 0
unfolding interpret_header create_header_buffer ◌-ℤ◌
run-delivered_example =
    run-delivered little echo client (event 5) (event 2) (pos 5) (pos 2) (pos 4) (pos 1)
      (create_header_buffer little (pos 2)) (104 ∷ 105 ∷ []) (event 3 ∷ []) (event 1 ∷ [])
      (event 0 ∷ []) 0 refl (wait (pos 3) (refl, refl, refl) (omega arith) done) (refl, refl, refl)
      (omega arith) refl (ground arith) (wait (pos 1) (refl, refl, refl) (omega arith) done)
      (refl, refl, refl) (omega arith) (omega arith) refl
      (wait (pos 0) (refl, refl, refl) (omega arith) done)

-- A header with the length -1.
abbrev bad_event : Readable
bad_event = record (event 6) { header = some (pos 4, create_header_buffer little (negsuc 0)) }

handle_client_readable-at_once_example :
    (pos 0 ≤ℤ interpret_header little (create_header_buffer little (negsuc 0))
      → handle_client_readable little echo client bad_event 0
        ≡ answered_by little echo client
            (interpret_header little (create_header_buffer little (negsuc 0)))
            (104 ∷ 105 ∷ [])
            0)
    × (interpret_header little (create_header_buffer little (negsuc 0)) <ℤ pos 0
        → handle_client_readable little echo client bad_event 0 ≡ (throws, 0))
unfolding interpret_header create_header_buffer ◌-ℤ◌
handle_client_readable-at_once_example =
    handle_client_readable-at_once little echo client bad_event (pos 6) (pos 4)
      (create_header_buffer little (negsuc 0)) (104 ∷ 105 ∷ []) 0 refl (refl, refl, refl)
      (omega arith) refl (omega arith) refl

handle_client_readable-Advances_example :
    Advances client ((handle_client_readable little echo client (event 5) 0).0)
handle_client_readable-Advances_example =
    handle_client_readable-Advances little echo client (event 5) 0 refl

handle_client_writeable-takes_message_example :
    handle_client_writeable little
      (record client { message = 1 ∷ 2 ∷ 3 ∷ 4 ∷ 5 ∷ [] })
      false
      false
      again
    ≡ (
      stays (record client { message = 1 ∷ 2 ∷ 3 ∷ 4 ∷ 5 ∷ [] }),
      some (record { bytes = 1 ∷ 2 ∷ 3 ∷ 4 ∷ []; overrun = true }),
    )
handle_client_writeable-takes_message_example =
    handle_client_writeable-takes_message little
      (record client { message = 1 ∷ 2 ∷ 3 ∷ 4 ∷ 5 ∷ [] }) again (omega arith)

abbrev fcntl : Fcntl
fcntl = record {
  get_fd_fails = false;
  set_fd_fails = false;
  get_fl_fails = false;
  set_fl_fails = false;
}

-- A client that has connected and sent its header.
abbrev half : Client
half = record (new_client 9 6) { state = reading_payload; payload_size = pos 2 }

half-Reach : Reach little echo (half ∷ []) 0
unfolding handle_client_connection handle_client_readable read_stage read_header read_payload
    interpret_header create_header_buffer ◌-ℤ◌
half-Reach =
    next {cs = new_client 9 6 ∷ []} {s = 0}
      (next {cs = []} {s = 0} started (connects 9 (some 6) fcntl refl))
      (reads (new_client 9 6) (event 5) refl refl)

Reach-IsServed_example : IsServed (half ∷ [])
Reach-IsServed_example = Reach-IsServed little echo half-Reach
