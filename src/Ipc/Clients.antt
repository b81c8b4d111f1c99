-- ===== src/Ipc/Clients.antt =====
-- The list of clients: `IPC::handle_client_connection` and `IPC::remove_client`, and how the outcome
-- of a handler changes the list (cardboard/IPC.cpp).
use cardboard.Base.{
  ℕ, ◌==◌, Bool, true, false, not, Option, none, some, List, [], ◌∷◌, ◌++◌, if◌then◌else◌, keep_if,
}
use cardboard.Base.Int.{pos}
use cardboard.Ipc.{Client, reading_header, Outcome, stays, removed, throws}

-- The four calls of `fcntl` on a new socket: whether each fails.
pub record Fcntl : Type 0 where
  pub get_fd_fails : Bool
  pub set_fd_fails : Bool
  pub get_fl_fails : Bool
  pub set_fl_fails : Bool

abbrev pub new_client : ℕ → ℕ → Client
new_client address fd = record {
  address = address;
  client_fd = fd;
  state = reading_header;
  readable_event_source = true;
  writable_event_source = false;
  payload_size = pos 0;
  message = [];
}

abbrev set_flags : Fcntl → Bool
set_flags f =
    if f.get_fd_fails
    then false
    else if f.set_fd_fails
    then false
    else if f.get_fl_fails
    then false
    else not f.set_fl_fails

-- `IPC::handle_client_connection`: what `accept` returns, the address of the new node.
unfoldable pub handle_client_connection : ℕ → Option ℕ → Fcntl → List Client → List Client
handle_client_connection address none f cs = cs
handle_client_connection address (some fd) f cs =
    if set_flags f then cs ++ new_client address fd ∷ [] else cs

-- `IPC::remove_client`
unfoldable pub remove_client : Client → List Client → List Client
remove_client c cs = keep_if (λ x. not (x.address == c.address)) cs

-- The client of a node, if the node is in the list.
abbrev pub find_client : ℕ → List Client → Option Client
find_client address [] = none
find_client address (c ∷ cs) = if c.address == address then some c else find_client address cs

-- A handler writes to its client in place.
abbrev pub replace_client : Client → List Client → List Client
replace_client c [] = []
replace_client c (x ∷ cs) = (if x.address == c.address then c else x) ∷ replace_client c cs

-- The list after the event of a client; `none` where the handler throws.
abbrev pub after_event : Client → Outcome → List Client → Option (List Client)
after_event c (stays c') cs = some (replace_client c' cs)
after_event c removed cs = some (remove_client c cs)
after_event c throws cs = none
