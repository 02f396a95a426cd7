-- ===== src/Connections/Drain.antt =====
-- sender_loop of src/sender.c over a whole queue, on connections that take what is written.
use rn_praktikum.Base.{
  ℕ, suc, ◌+◌, ◌^◌, ◌-◌, ◌<◌, ◌≡◌, ◌≢◌, refl, sym, ap, ◌∙◌, inl, inr, List, [], ◌∷◌, ◌++◌, some,
  ltb, ◌==◌, if◌then◌else◌, ◌>>=◌, arith, length, All, lt→ltb, Bool-cases,
}
use mathlib.Core.Path.{subst}
use mathlib.Core.List.{append_assoc, append-nil}
use rn_praktikum.Names.{eot}
use rn_praktikum.Queue.{MessageSend, pop, pop_send}
use rn_praktikum.Tcp.{send_tcp, failed}
use rn_praktikum.Tcp.Stream.{Accepts, send_tcp_lem, send_tcp-failed}
use rn_praktikum.Connections.{
  Connection, Net, new_con, get_from, get_con, sender_round, sender_loop,
}

-- The int -1, which CLIENT_connect_to returns when it fails.
abbrev pub no_socket : ℕ
no_socket = 2 ^ 32 - 1

-- The bytes of the messages that are not empty, each with its EOT, in the order of the queue.
abbrev pub wires : List MessageSend → List (List ℕ)
wires [] = []
wires (m ∷ q) = if ltb 0 m.msg_len then (m.msg ++ eot ∷ []) ∷ wires q else wires q

wires-cons : (m : MessageSend) (q : List MessageSend) → wires (m ∷ []) ++ wires q ≡ wires (m ∷ q)
wires-cons m q = elim (Bool-cases (ltb 0 m.msg_len)) [ inl e ↦ rw e refl | inr e ↦ rw e refl ]

-- The bytes that were sent, the first ones first.
abbrev pub history : List (ℕ × List ℕ) → List (List ℕ)
history [] = []
history (s ∷ sent) = history sent ++ s.1 ∷ []

-- A connection with a socket.
abbrev pub IsOpen : Connection → Type 0
IsOpen c = c.socket_fd ≢ no_socket

-- A message as it can be in the memory.
abbrev pub IsShort : MessageSend → Type 0
IsShort m = length m.msg + 1 < 2 ^ 63

module _ (dial : ℕ → ℕ → ℕ) (reached : (a p : ℕ) → dial a p ≢ no_socket) where
  get_from-IsOpen :
      (addr : ℕ) (cs : List Connection)
      → All IsOpen cs
      → All IsOpen (get_from dial addr cs).0 × IsOpen (get_from dial addr cs).1
  unfolding get_from new_con
  get_from-IsOpen addr [] a = ((reached _ _, tt), reached _ _)
  get_from-IsOpen addr (c ∷ cs) (o, a) = elim (Bool-cases (c.addr_port == addr)) [
    | inl e ↦ rw e ((o, a), o)
    | inr e ↦ let (rest, found) = get_from-IsOpen addr cs a in rw e ((o, rest), found)
  ]

  get_con-IsOpen :
      (addr : ℕ) (cs : List Connection) (net : Net)
      → net.cons ≡ cs
      → All IsOpen cs
      → All IsOpen (get_con dial addr net).0.cons
        × IsOpen (get_con dial addr net).1
        × ((get_con dial addr net).0.sent ≡ net.sent)
  unfolding get_con new_con
  get_con-IsOpen addr [] net e a = rw (e, get_con) ((reached _ _, tt), reached _ _, refl)
  get_con-IsOpen addr (c ∷ cs) net e a =
      let (rest, found) = get_from-IsOpen addr (c ∷ cs) a in rw (e, get_con) (rest, found, refl)

  module _ (last : ℕ) where
    sender_round_sends :
        (write : ℕ → ℕ → ℕ → ℕ) (m : MessageSend) (q : List MessageSend) (net : Net)
        → ((fd : ℕ) → fd ≢ no_socket → Accepts (write fd))
        → IsShort m
        → All IsOpen net.cons
        → (net' : Net) × (sender_round dial write last (m ∷ q) net ≡ some (q, net'))
          × All IsOpen net'.cons
          × (history net'.sent ≡ history net.sent ++ wires (m ∷ []))
    unfolding sender_round pop_send pop
    sender_round_sends write m q net takes short opened = elim (Bool-cases (ltb 0 m.msg_len)) [
      | inl e ↦
          let (net', con) = get_con dial m.dest_addr net in
          let (opened', found, sent) = get_con-IsOpen m.dest_addr net.cons net refl opened in
          (
            record net' { sent = (con.socket_fd, m.msg ++ eot ∷ []) ∷ net'.sent },
            rw (e, sender_round)
                (ap
                  (λ o. o >>= λ wire.
                    some (q, record net' { sent = (con.socket_fd, wire) ∷ net'.sent }))
                  (send_tcp_lem (write con.socket_fd) last m.msg (takes con.socket_fd found)
                    short)),
            opened',
            rw e (ap (λ s. history s ++ (m.msg ++ eot ∷ []) ∷ []) sent),
          )
      | inr e ↦ (net, rw (e, sender_round) refl, opened, rw e (sym (append-nil _)))
    ]

    -- As many rounds of sender_loop as there are messages come back and leave the queue empty, when
    -- every connection has a socket and every new one gets one: the messages that are not empty have
    -- been sent, each with an EOT behind it, in the order in which they were queued, and nothing else.
    -- The sockets take at least one byte of every write and no more than they are given, and each
    -- message with its EOT is shorter than 2^63 bytes.
    pub sender_loop_drains :
        (write : ℕ → ℕ → ℕ → ℕ → ℕ) (q : List MessageSend) (net : Net)
        → ((i fd : ℕ) → fd ≢ no_socket → Accepts (write i fd))
        → All IsShort q
        → All IsOpen net.cons
        → (net' : Net) × (sender_loop dial write last (length q) q net ≡ some ([], net'))
          × (history net'.sent ≡ history net.sent ++ wires q)
    unfolding sender_loop
    sender_loop_drains write [] net takes short opened = (net, refl, sym (append-nil _))
    sender_loop_drains write (m ∷ q) net takes (s, short) opened =
        let (net', sent, opened', h) =
          sender_round_sends (write (length q)) m q net (takes (length q)) s opened in
        let (net'', done, order) = sender_loop_drains write q net' takes short opened' in
        (
          net'',
          ap (λ o. o >>= λ r. sender_loop dial write last (length q) r.0 r.1) sent ∙ done,
          order
              ∙ ap (λ l. l ++ wires q) h
              ∙ append_assoc (history net.sent) (wires (m ∷ [])) (wires q)
              ∙ ap (λ l. history net.sent ++ l) (wires-cons m q),
        )

-- A message for an address that cannot be reached is lost: while the connection has the socket -1,
-- on which every write fails, the round comes back, takes the message from the queue and sends
-- nothing.
sender_round_loses :
    (dial : ℕ → ℕ → ℕ) (write : ℕ → ℕ → ℕ → ℕ) (last : ℕ) (m : MessageSend) (q : List MessageSend)
    (net : Net)
    → 0 < m.msg_len
    → IsShort m
    → ((i k : ℕ) → write (get_con dial m.dest_addr net).1.socket_fd i k ≡ failed)
    → (net' : Net) × (sender_round dial write last (m ∷ q) net ≡ some (q, net'))
      × (net'.sent
          ≡ ((get_con dial m.dest_addr net).1.socket_fd, [])
            ∷ (get_con dial m.dest_addr net).0.sent)
unfolding sender_round pop_send pop
sender_round_loses dial write last m q net some_bytes short fails =
    let (net', con) = get_con dial m.dest_addr net in
    let lost : send_tcp (write con.socket_fd) (length m.msg + 1) last m.msg ≡ some [] =
      subst (λ k. send_tcp (write con.socket_fd) k last m.msg ≡ some []) {x = suc (length m.msg)}
        (omega arith)
        (send_tcp-failed (write con.socket_fd) (length m.msg) last m.msg short (fails 0)) in
    (
      record net' { sent = (con.socket_fd, []) ∷ net'.sent },
      rw (lt→ltb 0 m.msg_len some_bytes, lost, sender_round) refl,
      refl,
    )
