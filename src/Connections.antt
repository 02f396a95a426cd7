-- ===== src/Connections.antt =====
-- The open connections of src/sender.c: get_con, remove_con and remove_con_fd, and one round of
-- sender_loop. The linked list is the list of its cells. Each function holds con_mutex from its
-- first line to its return. A file descriptor is the bit pattern of its int.
pub mod Cache
pub mod Drain
use rn_praktikum.Base.{
  ℕ, zero, suc, ◌+◌, ◌-◌, ◌*◌, ◌/◌, ◌%◌, ◌^◌, List, [], ◌∷◌, ◌++◌, Option, none, some, Bool, true,
  false, ltb, ◌==◌, if◌then◌else◌, ◌>>=◌, length, take,
}
use rn_praktikum.Tcp.{send_tcp}
use rn_praktikum.Queue.{MessageSend, pop_send}

-- Connection
pub record Connection : Type 0 where
  pub addr_port : ℕ
  pub socket_fd : ℕ
  pub counter : ℕ

-- con_head, and what the functions ask of the system: the descriptors that were registered with
-- epoll for reading, those that were closed, and the bytes that were sent, the last one first.
pub record Net : Type 0 where
  pub cons : List Connection
  pub registered : List ℕ
  pub closed : List ℕ
  pub sent : List (ℕ × List ℕ)

-- An int as a uint64_t.
unfoldable pub int_to_u64 : ℕ → ℕ
int_to_u64 w = if ltb w (2 ^ 31) then w else w + (2 ^ 64 - 2 ^ 32)

-- `dial s_addr port` is the result of CLIENT_connect_to, a descriptor or -1.
module _ (dial : ℕ → ℕ → ℕ) where
  unfoldable pub new_con : ℕ → Connection
  new_con addr_port = record {
    addr_port = addr_port;
    socket_fd = dial (addr_port / 2 ^ 32) (addr_port % 2 ^ 16);
    counter = 0;
  }

  -- The search of get_con through a list that is not empty, and the new cell at its end.
  unfoldable pub get_from : ℕ → List Connection → List Connection × Connection
  unfolding new_con
  get_from addr [] = (new_con addr ∷ [], new_con addr)
  get_from addr (c ∷ cs) =
      let (rest, found) = get_from addr cs in
      if c.addr_port == addr then (c ∷ cs, c) else (c ∷ rest, found)

  -- get_con(addr_port)
  unfoldable pub get_con : ℕ → Net → Net × Connection
  unfolding new_con get_from
  get_con addr net = elim net.cons [
    | [] ↦ (
      record net {
        cons = new_con addr ∷ [];
        registered = (new_con addr).socket_fd ∷ net.registered;
      },
      new_con addr,
    )
    | c ∷ cs ↦ let (cs', found) = get_from addr (c ∷ cs) in (record net { cons = cs' }, found)
  ]

  -- One round of sender_loop. `write fd` is what the calls of write on `fd` return, and `last` what
  -- malloc leaves behind the message, as for send_tcp. send_tcp may make one write for each byte
  -- and the EOT; `none`: it needs more, which it does only if a write takes no byte.
  unfoldable pub sender_round :
      (write : ℕ → ℕ → ℕ → ℕ)
      → (last : ℕ) → List MessageSend
      → Net
      → Option (List MessageSend × Net)
  unfolding get_con pop_send send_tcp
  sender_round write last q net = elim (pop_send q) [
    | none ↦ some (q, net)
    | some (m, rest) ↦
        if ltb 0 m.msg_len
        then (let (net', con) = get_con m.dest_addr net in
            send_tcp (write con.socket_fd) (length m.msg + 1) last m.msg >>= λ wire.
            some (rest, record net' { sent = (con.socket_fd, wire) ∷ net'.sent }))
        else some (rest, net)
  ]

  -- sender_loop over the next `rounds` rounds, while `running` is set; `write i` belongs to the
  -- round with i left.
  unfoldable pub sender_loop :
      (write : ℕ → ℕ → ℕ → ℕ → ℕ)
      → (last : ℕ) → ℕ
      → List MessageSend
      → Net
      → Option (List MessageSend × Net)
  unfolding sender_round
  sender_loop write last zero q net = some (q, net)
  sender_loop write last (suc rounds) q net =
      sender_round (write rounds) last q net >>= λ r. sender_loop write last rounds r.0 r.1

-- The search and the removal in remove_con and remove_con_fd: the list, and the cell taken out.
unfoldable pub remove_from :
    (Connection → Bool) → List Connection → List Connection × Option Connection
remove_from test [] = ([], none)
remove_from test (c ∷ cs) =
    let (rest, found) = remove_from test cs in if test c then (cs, some c) else (c ∷ rest, found)

unfoldable pub remove_by : (Connection → Bool) → Net → Net
unfolding remove_from
remove_by test net =
    let (cs, found) = remove_from test net.cons in
    elim found [
      | none ↦ record net { cons = cs }
      | some c ↦ record net { cons = cs; closed = c.socket_fd ∷ net.closed }
    ]

-- remove_con(addr_port)
unfoldable pub remove_con : ℕ → Net → Net
unfolding remove_by
remove_con addr net = remove_by (λ c. c.addr_port == addr) net

-- remove_con_fd(fd), with fd a uint64_t
unfoldable pub remove_con_fd : ℕ → Net → Net
unfolding remove_by int_to_u64
remove_con_fd fd net = remove_by (λ c. int_to_u64 c.socket_fd == fd) net
