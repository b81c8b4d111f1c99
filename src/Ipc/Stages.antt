-- ===== src/Ipc/Stages.antt =====
-- How the handler of readable events goes through its stages (cardboard/IPC.cpp).
use cardboard.Base.{ℕ, ◌≤◌, ◌≡◌, refl, ap, ◌∙◌, Bool, true, false, some, List, [], ◌∷◌, ◌++◌, arith}
use cardboard.Base.Int.{ℤ, pos, ◌-ℤ◌, ltb_ℤ, leb_ℤ, ◌≤ℤ◌, ◌<ℤ◌}
use cardboard.Base.Text.{Text}
use cardboard.Protocol.Header.{Endian, HeaderBuffer, interpret_header}
use cardboard.Ipc.{
  ClientState, reading_header, reading_payload, writing, Client, Outcome, stays, removed, throws,
  Readable, Handler, header_size, read_payload, read_header, read_stage, handle_client_readable,
}

-- A readable event without error or hangup, with `n` bytes to read.
abbrev pub Brings : Readable → ℤ → Type 0
Brings e n = (e.error ≡ false) × (e.hangup ≡ false) × (e.available ≡ some n)

-- Events that each come with fewer bytes than `limit`.
pub data Waits (limit : ℤ) : List Readable → Type 0 where
  done : Waits limit []
  wait :
      {e : Readable} {es : List Readable} (n : ℤ)
      → Brings e n
      → n <ℤ limit
      → Waits limit es
      → Waits limit (e ∷ es)

ltb_ℤ-not : (a b : ℤ) → b ≤ℤ a → ltb_ℤ a b ≡ false
ltb_ℤ-not a b h = ground arith

ltb_ℤ-so : (a b : ℤ) → a <ℤ b → ltb_ℤ a b ≡ true
ltb_ℤ-so a b h = ground arith

leb_ℤ-so : (a b : ℤ) → a ≤ℤ b → leb_ℤ a b ≡ true
leb_ℤ-so a b h = ground arith

module _ {ℓ} {S : Type ℓ} (endian : Endian) (handle : Handler S) where
  abbrev go_on : Outcome × S → (Client → S → Outcome × S) → Outcome × S
  go_on (stays c, s) next = next c s
  go_on (removed, s) next = (removed, s)
  go_on (throws, s) next = (throws, s)

  -- The readable events of a client, one after the other, as long as it stays.
  abbrev pub run : Client → List Readable → S → Outcome × S
  run c [] s = (stays c, s)
  run c (e ∷ es) s = go_on (handle_client_readable endian handle c e s) (λ c' s'. run c' es s')

  -- The client when `reply` answers a message of `size` bytes.
  abbrev pub with_reply : Client → ℤ → Text → Client
  with_reply c size reply = record c {
    payload_size = size;
    message = reply;
    writable_event_source = true;
    state = writing;
  }

  abbrev pub answered_by : Client → ℤ → Text → S → Outcome × S
  answered_by c size bytes s = (stays (with_reply c size ((handle bytes s).0)), (handle bytes s).1)

  wait_header :
      (c : Client) (e : Readable) (s : S) (n : ℤ)
      → c.state ≡ reading_header
      → Brings e n
      → n <ℤ pos header_size
      → handle_client_readable endian handle c e s ≡ (stays c, s)
  unfolding handle_client_readable read_stage read_header
  wait_header c e s n reading (no_error, no_hangup, available) short = ground arith

  wait_payload :
      (c : Client) (e : Readable) (s : S) (n : ℤ)
      → c.state ≡ reading_payload
      → Brings e n
      → n <ℤ c.payload_size
      → handle_client_readable endian handle c e s ≡ (stays c, s)
  unfolding handle_client_readable read_stage read_payload
  wait_payload c e s n reading (no_error, no_hangup, available) short = ground arith

  ignore :
      (c : Client) (e : Readable) (s : S) (n : ℤ)
      → c.state ≡ writing
      → Brings e n
      → handle_client_readable endian handle c e s ≡ (stays c, s)
  unfolding handle_client_readable read_stage
  ignore c e s n reading (no_error, no_hangup, available) = ground arith

  run-Waits :
      (c : Client) (limit : ℤ) (s : S)
      → ((e : Readable) (n : ℤ)
          → Brings e n
          → n <ℤ limit
          → handle_client_readable endian handle c e s ≡ (stays c, s))
      → (ws es : List Readable) → Waits limit ws
      → run c (ws ++ es) s ≡ run c es s
  run-Waits c limit s stay [] es done = refl
  run-Waits c limit s stay (e ∷ ws) es (wait n brings short more) =
      ap (λ o. go_on o (λ c' s'. run c' (ws ++ es) s')) (stay e n brings short)
      ∙ run-Waits c limit s stay ws es more

  run_all :
      (c : Client) (limit : ℤ) (s : S)
      → c.state ≡ writing
      → (ws : List Readable) → Waits limit ws
      → run c ws s ≡ (stays c, s)
  run_all c limit s state [] done = refl
  run_all c limit s state (e ∷ ws) (wait n brings short more) =
      ap (λ o. go_on o (λ c' s'. run c' ws s')) (ignore c e s n state brings)
      ∙ run_all c limit s state ws more

  take_header :
      (c : Client) (e : Readable) (s : S) (n received : ℤ) (buffer : HeaderBuffer)
      → c.state ≡ reading_header
      → Brings e n
      → pos header_size ≤ℤ n
      → e.header ≡ some (received, buffer)
      → n -ℤ received <ℤ interpret_header endian buffer
      → handle_client_readable endian handle c e s ≡ (
        stays (record c { payload_size = interpret_header endian buffer; state = reading_payload }),
        s,
      )
  unfolding handle_client_readable read_stage read_header
  take_header c e s n received buffer reading (no_error, no_hangup, available) enough header short =
      ground arith

  take_payload :
      (c : Client) (e : Readable) (s : S) (n : ℤ) (bytes : Text)
      → c.state ≡ reading_payload
      → Brings e n
      → pos 0 ≤ℤ c.payload_size
      → c.payload_size ≤ℤ n
      → e.payload ≡ some bytes
      → handle_client_readable endian handle c e s ≡ answered_by c c.payload_size bytes s
  unfolding handle_client_readable read_stage read_payload
  take_payload c e s n bytes reading (no_error, no_hangup, available) fits enough payload = simp (
    no_error,
    no_hangup,
    available,
    reading,
    ltb_ℤ-not n c.payload_size enough,
    ltb_ℤ-not c.payload_size (pos 0) fits,
    payload,
  )

  -- A message whose header gives a length from 0 on is answered exactly once, however it arrives:
  -- after events too short for the header, one with the header but not the whole payload, events too
  -- short for the payload, and one with the payload, then any further events without error or
  -- hangup, the handler has been called once, on the payload, and the client waits to write its
  -- reply.
  pub run-delivered :
      (c : Client) (e1 e2 : Readable) (n1 n2 received last : ℤ) (buffer : HeaderBuffer)
      (bytes : Text) (ws1 ws2 ws3 : List Readable) (s : S)
      → c.state ≡ reading_header
      → Waits (pos header_size) ws1
      → Brings e1 n1
      → pos header_size ≤ℤ n1
      → e1.header ≡ some (received, buffer)
      → n1 -ℤ received <ℤ interpret_header endian buffer
      → Waits (interpret_header endian buffer) ws2
      → Brings e2 n2
      → pos 0 ≤ℤ interpret_header endian buffer
      → interpret_header endian buffer ≤ℤ n2
      → e2.payload ≡ some bytes
      → Waits last ws3
      → run c (ws1 ++ e1 ∷ (ws2 ++ e2 ∷ ws3)) s
        ≡ answered_by c (interpret_header endian buffer) bytes s
  run-delivered c e1 e2 n1 n2 received last buffer bytes ws1 ws2 ws3 s reading w1 b1 enough1 header
        short w2 b2 fits enough2 payload w3 =
      run-Waits c (pos header_size) s (λ e n. wait_header c e s n reading) ws1
        (e1 ∷ (ws2 ++ e2 ∷ ws3)) w1
      ∙ ap (λ o. go_on o (λ c' s'. run c' (ws2 ++ e2 ∷ ws3) s'))
          (take_header c e1 s n1 received buffer reading b1 enough1 header short)
      ∙ run-Waits c2 c2.payload_size s (λ e n. wait_payload c2 e s n refl) ws2 (e2 ∷ ws3) w2
      ∙ ap (λ o. go_on o (λ c' s'. run c' ws3 s'))
          (take_payload c2 e2 s n2 bytes refl b2 fits enough2 payload)
      ∙ run_all c3 last ((handle bytes s).1) refl ws3 w3
    where
      c2 : Client
      c2 = record c { payload_size = interpret_header endian buffer; state = reading_payload }

      c3 : Client
      c3 = with_reply c (interpret_header endian buffer) ((handle bytes s).0)

  -- A header and its whole payload that arrive together are read in the one event, with the effect
  -- that `run-delivered` has for the parts. A header that gives a negative length is not refused:
  -- the handler throws, whatever else has arrived.
  pub handle_client_readable-at_once :
      (c : Client) (e : Readable) (n received : ℤ) (buffer : HeaderBuffer) (bytes : Text) (s : S)
      → c.state ≡ reading_header
      → Brings e n
      → pos header_size ≤ℤ n
      → e.header ≡ some (received, buffer)
      → interpret_header endian buffer ≤ℤ (n -ℤ received)
      → e.payload ≡ some bytes
      → (pos 0 ≤ℤ interpret_header endian buffer
          → handle_client_readable endian handle c e s
            ≡ answered_by c (interpret_header endian buffer) bytes s)
        × (interpret_header endian buffer <ℤ pos 0
            → handle_client_readable endian handle c e s ≡ (throws, s))
  unfolding handle_client_readable read_stage read_header read_payload
  handle_client_readable-at_once c e n received buffer bytes s reading
        (no_error, no_hangup, available) enough header whole payload =
      (
        λ fits. simp (
          no_error,
          no_hangup,
          available,
          reading,
          header,
          payload,
          ltb_ℤ-not n (pos header_size) enough,
          leb_ℤ-so (interpret_header endian buffer) (n -ℤ received) whole,
          ltb_ℤ-not (n -ℤ received) (interpret_header endian buffer) whole,
          ltb_ℤ-not (interpret_header endian buffer) (pos 0) fits,
        ),
        λ below. simp (
          no_error,
          no_hangup,
          available,
          reading,
          header,
          payload,
          ltb_ℤ-not n (pos header_size) enough,
          leb_ℤ-so (interpret_header endian buffer) (n -ℤ received) whole,
          ltb_ℤ-not (n -ℤ received) (interpret_header endian buffer) whole,
          ltb_ℤ-so (interpret_header endian buffer) (pos 0) below,
        ),
      )

abbrev pub is_writing : ClientState → Bool
is_writing reading_header = false
is_writing reading_payload = false
is_writing writing = true

abbrev rank : ClientState → ℕ
rank reading_header = 0
rank reading_payload = 1
rank writing = 2

-- The outcome keeps the client's socket and node, never goes back a stage, and has the event source
-- for writing exactly in the last stage. The message changes only with the step into that stage.
abbrev pub Advances : Client → Outcome → Type 0
Advances c (stays c') =
    (rank c.state ≤ rank c'.state)
    × (c'.client_fd ≡ c.client_fd)
    × (c'.address ≡ c.address)
    × (c'.writable_event_source ≡ is_writing c'.state)
    × (is_writing c'.state ≡ is_writing c.state → c'.message ≡ c.message)
Advances c removed = Unit {0}
Advances c throws = Unit {0}

module _ {ℓ} {S : Type ℓ} (endian : Endian) (handle : Handler S) where
  -- For a client that is registered for writing exactly in the writing stage, whatever arrives: if
  -- it stays, it never goes back a stage, keeps its socket and its node, is again registered for
  -- writing exactly in the writing stage, and keeps its message unless it enters that stage.
  pub handle_client_readable-Advances :
      (c : Client) (e : Readable) (s : S)
      → c.writable_event_source ≡ is_writing c.state
      → Advances c ((handle_client_readable endian handle c e s).0)
  unfolding handle_client_readable read_stage read_header read_payload
  handle_client_readable-Advances c e s ready = ground arith
