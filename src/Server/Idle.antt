-- ===== src/Server/Idle.antt =====
-- The descriptors of src/server.c that are not in the sender's list.
use rn_praktikum.Base.{
  ℕ, zero, suc, ◌≡◌, ◌≢◌, refl, ◌⊎◌, inl, inr, List, [], ◌∷◌, Option, none, some, Bool, true, false,
  not, ◌==◌, ◌||◌, arith, replicate, ==_ne,
}
use rn_praktikum.Tcp.{read_tcp, read_from}
use rn_praktikum.Connections.{Connection, Net, remove_con_fd, remove_by, remove_from, int_to_u64}
use rn_praktikum.Node.{Node}
use rn_praktikum.Protocol.Receive.{handle_msg}
use rn_praktikum.Server.{Event, has_in, has_err, has_hup, receive, handle_event, handle_events}

-- Is there a cell with the descriptor?
unfoldable pub has_fd : ℕ → List Connection → Bool
unfolding int_to_u64
has_fd fd [] = false
has_fd fd (c ∷ cs) = (int_to_u64 c.socket_fd == int_to_u64 fd) || has_fd fd cs

remove_from-absent :
    (fd : ℕ) (cs : List Connection)
    → has_fd fd cs ≡ false
    → remove_from (λ c. int_to_u64 c.socket_fd == int_to_u64 fd) cs ≡ (cs, none)
unfolding has_fd remove_from
remove_from-absent fd [] h = refl
remove_from-absent fd (c ∷ cs) h = ground (arith, remove_from-absent fd cs)

remove_con_fd-absent :
    (fd : ℕ) (net : Net) → has_fd fd net.cons ≡ false → remove_con_fd (int_to_u64 fd) net ≡ net
unfolding remove_con_fd remove_by
remove_con_fd-absent fd net h =
    rw (remove_from-absent fd net.cons h, remove_by) (rw (remove_from-absent fd net.cons h) refl)

-- The other side has hung up or closed the connection: epoll reports an error, a hang-up or no
-- input, or a first read that returns no bytes.
abbrev pub IsGone : ℕ → Event → Type 0
IsGone server_socket e =
    ((has_err e.events || (has_hup e.events || not (has_in e.events))) ≡ true)
    ⊎ ((has_err e.events || (has_hup e.events || not (has_in e.events))) ≡ false)
      × (e.fd ≢ server_socket)
      × (e.read 0 ≡ some [])

read_tcp-closed : (read : ℕ → Option (List ℕ)) → read 0 ≡ some [] → read_tcp read ≡ some []
unfolding read_tcp read_from
read_tcp-closed read h = rw (h, read_from) refl

receive_closed : (e : Event) (n : Node) → e.read 0 ≡ some [] → receive e n ≡ some n
unfolding receive handle_msg
receive_closed e n h = rw (read_tcp-closed e.read h, receive) refl

handle_event_gone :
    (server_socket : ℕ) (e : Event) (n : Node)
    → IsGone server_socket e
    → has_fd e.fd n.net.cons ≡ false
    → handle_event server_socket e n ≡ some n
unfolding handle_event
handle_event_gone server_socket e n g h = elim g [
  | inl p ↦ rw (p, handle_event) (rw (remove_con_fd-absent e.fd n.net h) refl)
  | inr (p, ne, r) ↦
      rw (p, handle_event) (rw (==_ne e.fd server_socket ne, handle_event) (receive_closed e n r))
]

-- A connection that accept returned is not in the sender's list. When its other side is gone, any
-- number of events that say so leave the host as it is: the descriptor is neither closed nor taken
-- from epoll, which goes on reporting it.
pub handle_events_gone :
    (server_socket : ℕ) (e : Event) (n : Node) (k : ℕ)
    → IsGone server_socket e
    → has_fd e.fd n.net.cons ≡ false
    → handle_events server_socket (replicate k e) n ≡ some n
unfolding handle_events
handle_events_gone server_socket e n zero g h = refl
handle_events_gone server_socket e n (suc k) g h =
    rw (handle_event_gone server_socket e n g h, handle_events)
      (handle_events_gone server_socket e n k g h)
