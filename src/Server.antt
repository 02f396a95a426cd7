-- ===== src/Server.antt =====
-- src/server.c: the loop around epoll, and the system's answers that it works on. `none` is
-- undefined behaviour.
pub mod Idle
use rn_praktikum.Base.{
  ℕ, ◌/◌, ◌%◌, ◌^◌, ◌-◌, List, [], ◌∷◌, ◌++◌, Option, none, some, Bool, not, ◌==◌, ◌||◌,
  if◌then◌else◌, ◌>>=◌, length,
}
use rn_praktikum.Tcp.{read_tcp}
use rn_praktikum.Connections.{remove_con_fd, int_to_u64}
use rn_praktikum.Node.{Node}
use rn_praktikum.Protocol.Receive.{handle_msg}

-- The bits EPOLLIN, EPOLLERR and EPOLLHUP of `events`.
unfoldable pub has_in : ℕ → Bool
has_in events = events % 2 == 1

unfoldable pub has_err : ℕ → Bool
has_err events = events / 8 % 2 == 1

unfoldable pub has_hup : ℕ → Bool
has_hup events = events / 16 % 2 == 1

-- An epoll_event, with what the calls that its treatment makes will return: `accepted` the
-- descriptor that accept returns, or -1, `read` the bytes of every read, `behind` the array behind
-- the bytes read, and what tableUpdate finds in its two name arrays.
pub record Event : Type 0 where
  pub events : ℕ
  pub fd : ℕ
  pub accepted : ℕ
  pub read : ℕ → Option (List ℕ)
  pub behind : List ℕ
  pub junk : ℕ → List ℕ
  pub junk' : ℕ → List ℕ

-- protocol_handle_msg(fd), from read_tcp on. When a read fails, read_tcp frees a pointer that it
-- did not allocate.
unfoldable pub receive : Event → Node → Option Node
unfolding read_tcp handle_msg
receive e n =
    read_tcp e.read >>= λ bytes. handle_msg e.junk e.junk' (length bytes) (bytes ++ e.behind) n

-- epoll_ctl(epoll, EPOLL_CTL_ADD, fd, &event), with EPOLLIN alone.
unfoldable pub register : ℕ → Node → Node
register fd n = record n { net = record (n.net) { registered = fd ∷ n.net.registered } }

-- The body of the loop over the events; accept's -1 is registered like a descriptor.
unfoldable pub handle_event : ℕ → Event → Node → Option Node
unfolding receive register remove_con_fd int_to_u64 has_in has_err has_hup
handle_event server_socket e n =
    if has_err e.events || (has_hup e.events || not (has_in e.events))
    then some (record n { net = remove_con_fd (int_to_u64 e.fd) n.net })
    else if e.fd == server_socket
    then some (register e.accepted n)
    else receive e n

-- The events that one epoll_wait returned, in their order.
unfoldable pub handle_events : ℕ → List Event → Node → Option Node
unfolding handle_event
handle_events server_socket [] n = some n
handle_events server_socket (e ∷ es) n =
    handle_event server_socket e n >>= handle_events server_socket es

-- The loop of server_loop over what epoll_wait returns, round by round. Nothing calls stop_server,
-- so `running` stays set.
unfoldable pub serve : ℕ → List (List Event) → Node → Option Node
unfolding handle_events
serve server_socket [] n = some n
serve server_socket (es ∷ rounds) n =
    handle_events server_socket es n >>= serve server_socket rounds

-- server_loop from SERVER_listen_on's result on, -1 included, through the rounds given: the socket
-- is registered first.
unfoldable pub server_loop : ℕ → List (List Event) → Node → Option Node
unfolding register serve
server_loop server_socket rounds n = serve server_socket rounds (register server_socket n)
