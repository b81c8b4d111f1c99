-- ===== src/Ipc/Life.antt =====
-- The list of clients of the IPC server through any sequence of connections and of events of the
-- clients (cardboard/IPC.cpp).
use cardboard.Base.{
  ℕ, ◌+◌, ◌≤◌, ◌≡◌, refl, subst, ◌==◌, Bool, true, false, Option, none, some, List, [], ◌∷◌, ◌++◌,
  arith, if◌then◌else◌, Bool-cases, inl, inr,
}
use cardboard.Protocol.Header.{Endian}
use cardboard.Ipc.{
  Client, Outcome, stays, removed, throws, Readable, Handler, Written, read_stage, read_header,
  read_payload, handle_client_readable, handle_client_writeable,
}
use cardboard.Ipc.Clients.{
  Fcntl, new_client, handle_client_connection, remove_client, find_client, replace_client,
  after_event,
}
use cardboard.Ipc.Stages.{is_writing}

-- How many clients have the address.
abbrev pub clients_at : ℕ → List Client → ℕ
clients_at a [] = 0
clients_at a (c ∷ cs) = (if c.address == a then 1 else 0) + clients_at a cs

-- The client is registered for reading, and for writing exactly in the writing stage.
abbrev pub IsRegistered : Client → Type 0
IsRegistered c = (c.readable_event_source ≡ true) × (c.writable_event_source ≡ is_writing c.state)

abbrev pub AreRegistered : List Client → Type 0
AreRegistered [] = Unit {0}
AreRegistered (c ∷ cs) = IsRegistered c × AreRegistered cs

-- No two clients share a node, and each is registered as its stage asks for.
abbrev pub IsServed : List Client → Type 0
IsServed cs = ((a : ℕ) → clients_at a cs ≤ 1) × AreRegistered cs

clients_at-append :
    (a : ℕ) (xs ys : List Client) → clients_at a (xs ++ ys) ≡ clients_at a xs + clients_at a ys
clients_at-append a [] ys = ground arith
clients_at-append a (x ∷ xs) ys = ground (arith, clients_at-append a xs ys)

AreRegistered-append :
    (xs ys : List Client) → AreRegistered xs → AreRegistered ys → AreRegistered (xs ++ ys)
AreRegistered-append [] ys h k = k
AreRegistered-append (x ∷ xs) ys (r, h) k = (r, AreRegistered-append xs ys h k)

connected-IsServed :
    (address : ℕ) (accepted : Option ℕ) (f : Fcntl) (cs : List Client)
    → clients_at address cs ≡ 0
    → IsServed cs
    → IsServed (handle_client_connection address accepted f cs)
unfolding handle_client_connection
connected-IsServed address none f cs fresh h = h
connected-IsServed address (some fd) f cs fresh (once, h) = connected _
  where
    fits : (a : ℕ) → clients_at a (cs ++ new_client address fd ∷ []) ≤ 1
    fits a =
        rw (clients_at-append a cs (new_client address fd ∷ [])) (elim (Bool-cases (address == a)) [
          | inl e ↦
              let same : address ≡ a = ground (arith, e) in
              let none_there = subst (λ b. clients_at b cs ≡ 0) same fresh in
              rw none_there (ground arith)
          | inr e ↦ rw e (ground (arith, once a))
        ])

    connected : (b : Bool) → IsServed (if b then cs ++ new_client address fd ∷ [] else cs)
    connected true =
        (fits, AreRegistered-append cs (new_client address fd ∷ []) h ((refl, refl), tt))
    connected false = (once, h)

clients_at-replace_client :
    (a : ℕ) (c : Client) (cs : List Client) → clients_at a (replace_client c cs) ≡ clients_at a cs
clients_at-replace_client a c [] = refl
clients_at-replace_client a c (x ∷ cs) = ground (arith, clients_at-replace_client a c cs)

replaced-AreRegistered :
    (c : Client) (cs : List Client)
    → IsRegistered c
    → AreRegistered cs
    → AreRegistered (replace_client c cs)
replaced-AreRegistered c [] r h = tt
replaced-AreRegistered c (x ∷ cs) r (q, h) = (chosen _, replaced-AreRegistered c cs r h)
  where
    chosen : (b : Bool) → IsRegistered (if b then c else x)
    chosen true = r
    chosen false = q

clients_at-remove_client :
    (a : ℕ) (c : Client) (cs : List Client) → clients_at a (remove_client c cs) ≤ clients_at a cs
unfolding remove_client
clients_at-remove_client a c [] = omega arith
clients_at-remove_client a c (x ∷ cs) = ground (arith, clients_at-remove_client a c cs)

removed-AreRegistered :
    (c : Client) (cs : List Client) → AreRegistered cs → AreRegistered (remove_client c cs)
unfolding remove_client
removed-AreRegistered c [] h = tt
removed-AreRegistered c (x ∷ cs) (q, h) = elim (Bool-cases (x.address == c.address)) [
  | inl e ↦ rw e (removed-AreRegistered c cs h)
  | inr e ↦ rw e (q, removed-AreRegistered c cs h)
]

found-IsRegistered :
    (a : ℕ) (c : Client) (cs : List Client)
    → AreRegistered cs
    → find_client a cs ≡ some c
    → IsRegistered c
found-IsRegistered a c [] h e = absurd (ground (arith, e))
found-IsRegistered a c (x ∷ cs) (q, h) e = elim (Bool-cases (x.address == a)) [
  | inl hit ↦ let same : x ≡ c = ground (arith, hit, e) in subst IsRegistered same q
  | inr miss ↦ found-IsRegistered a c cs h (ground (arith, miss, e))
]

-- What a handler leaves of its client, if it stays.
abbrev Leaves : Outcome → Type 0
Leaves (stays c) = IsRegistered c
Leaves removed = Unit {0}
Leaves throws = Unit {0}

event-IsServed :
    (c : Client) (o : Outcome) (cs cs' : List Client)
    → Leaves o
    → after_event c o cs ≡ some cs'
    → IsServed cs
    → IsServed cs'
event-IsServed c (stays c') cs cs' r e (once, h) =
    let same : replace_client c' cs ≡ cs' = ground (arith, e) in
    subst IsServed same
      (λ a. rw (clients_at-replace_client a c' cs) (once a), replaced-AreRegistered c' cs r h)
event-IsServed c removed cs cs' r e (once, h) =
    let same : remove_client c cs ≡ cs' = ground (arith, e) in
    subst IsServed same
      (λ a. ground (arith, clients_at-remove_client a c cs, once a), removed-AreRegistered c cs h)
event-IsServed c throws cs cs' r e h = absurd (ground (arith, e))

writeable-Leaves :
    (endian : Endian) (c : Client) (error hangup : Bool) (written : Written)
    → IsRegistered c
    → Leaves (handle_client_writeable endian c error hangup written).0
unfolding handle_client_writeable
writeable-Leaves endian c error hangup written r = ground (arith, r)

module _ {S : Type 0} (endian : Endian) (handle : Handler S) where
  readable-Leaves :
      (c : Client) (e : Readable) (s : S)
      → IsRegistered c
      → Leaves (handle_client_readable endian handle c e s).0
  unfolding handle_client_readable read_stage read_header read_payload
  readable-Leaves c e s r = ground (arith, r)

  -- One event of the server: a connection, whose node is none of the list, or an event of a client
  -- of the list, whose handler does not throw.
  pub data Step : List Client → S → List Client → S → Type 0 where
    connects :
        {cs : List Client} {s : S} (address : ℕ) (accepted : Option ℕ) (f : Fcntl)
        → clients_at address cs ≡ 0
        → Step cs s (handle_client_connection address accepted f cs) s
    reads :
        {cs cs' : List Client} {s : S} (c : Client) (e : Readable)
        → find_client c.address cs ≡ some c
        → after_event c (handle_client_readable endian handle c e s).0 cs ≡ some cs'
        → Step cs s cs' (handle_client_readable endian handle c e s).1
    writes :
        {cs cs' : List Client} {s : S} (c : Client) (error hangup : Bool) (written : Written)
        → find_client c.address cs ≡ some c
        → after_event c (handle_client_writeable endian c error hangup written).0 cs ≡ some cs'
        → Step cs s cs' s

  pub data Reach : List Client → S → Type 0 where
    started : {s : S} → Reach [] s
    next : {cs cs' : List Client} {s s' : S} → Reach cs s → Step cs s cs' s' → Reach cs' s'

  Step-IsServed : {cs cs' : List Client} {s s' : S} → Step cs s cs' s' → IsServed cs → IsServed cs'
  Step-IsServed {cs} (connects address accepted f fresh) h =
      connected-IsServed address accepted f cs fresh h
  Step-IsServed {cs} {cs'} {s} (reads c e there after) h =
      event-IsServed c (handle_client_readable endian handle c e s).0 cs cs'
        (readable-Leaves c e s (found-IsRegistered c.address c cs (h.1) there)) after h
  Step-IsServed {cs} {cs'} (writes c error hangup written there after) h =
      event-IsServed c (handle_client_writeable endian c error hangup written).0 cs cs'
        (writeable-Leaves endian c error hangup written
          (found-IsRegistered c.address c cs (h.1) there))
        after h

  -- From an empty list, through any sequence of connections, accepted or refused, and of readable
  -- and writable events of the clients, whatever they bring, with no handler throwing: no two
  -- clients share a node, and each client is registered for reading, and for writing exactly when
  -- it is in the writing stage.
  pub Reach-IsServed : {cs : List Client} {s : S} → Reach cs s → IsServed cs
  Reach-IsServed started = (λ a. omega arith, tt)
  Reach-IsServed (next r step) = Step-IsServed step (Reach-IsServed r)
