-- ===== src/Protocol.antt =====
-- src/protocol.c: what the user's commands send, and the treatment of a received message. `none`
-- is undefined behaviour: a read through a null pointer, or past the end of an array.
pub mod Receive
pub mod Forward
pub mod Chat
pub mod Typed
pub mod Delivery
pub mod Neighbours
pub mod Login
pub mod Joining
pub mod Arrival
pub mod Join
pub mod Beat
pub mod Listed
pub mod Told
pub mod Welcome
pub mod Route
pub mod Spread
pub mod Fits
pub mod Answer
pub mod Handshake
pub mod Logout
pub mod Relay
pub mod Each
pub mod Leave
use rn_praktikum.Base.{
  ℕ, zero, suc, ◌+◌, ◌-◌, ◌*◌, ◌/◌, ◌%◌, ◌^◌, List, [], ◌∷◌, ◌++◌, Option, none, some, Bool, true,
  false, ◌==◌, ◌&&◌, ◌||◌, if◌then◌else◌, ◌>>=◌, get_or, codes, length, take, drop, zeros, str_eq,
  c_str, write_at,
}
use rn_praktikum.Names.{
  create_header, header_bytes, header_size, type_chat, type_login, type_logout, type_route,
  type_heart, eot, msg_size, msglen, get_name, set_name,
}
use rn_praktikum.Queue.{MsgCounter, single, keep, up, down, push_ui, push_send}
use rn_praktikum.Series.{add_list, remove_list}
use rn_praktikum.Table.{get_routing, get_routing_table_size, record_size}
use rn_praktikum.Table.Export.{table_to_char_array}
use rn_praktikum.Table.Print.{print_routing_table, system}
use rn_praktikum.Node.{Node, User, get_hops_one_away}
use rn_praktikum.Heartbeat.{no_user, is_empty}

-- push_send(counter, dest, msg, len)
unfoldable pub send_with : MsgCounter → ℕ → List ℕ → ℕ → Node → Node
unfolding push_send
send_with counter dest msg len n = record n { send = (push_send counter dest msg len n.send).0 }

-- push_ui(text, name)
unfoldable pub tell : List ℕ → List ℕ → Node → Node
unfolding push_ui
tell text name n = record n { ui = (push_ui text name n.ui).0 }

-- The loop of send_to_all_neighboors: the target is written into the header, and the message is
-- sent to every user up to the first without a name, but not to `skip`.
unfoldable pub send_each : List User → List ℕ → List ℕ → ℕ → Node → Node
unfolding is_empty send_with set_name
send_each [] msg skip size n = n
send_each (u ∷ us) msg skip size n =
    let msg' = write_at 34 (set_name u.chat_name) msg in
    let sent =
      if str_eq u.chat_name skip
      then n
      else send_with single (get_routing n.table u.chat_name) msg' size n in
    let rest = send_each us msg' skip size sent in if is_empty u then n else rest

-- `count` users with no name.
unfoldable pub no_users : ℕ → List User
no_users zero = []
no_users (suc k) = no_user ∷ no_users k

-- send_to_all_neighboors(full_message, skip_sender, size)
unfoldable pub send_to_all_neighboors : List ℕ → List ℕ → ℕ → Node → Node
unfolding send_each no_users
send_to_all_neighboors msg skip size n =
    send_each (get_hops_one_away n.table (no_users (get_routing_table_size n.table / record_size)))
      msg skip size n

-- do_chat(target, msg)
unfoldable pub do_chat : List ℕ → List ℕ → Node → Option Node
unfolding send_with
do_chat target msg n =
    let header = header_bytes (create_header n.own_name target type_chat) in
    let m0 = write_at 0 header (zeros msg_size) in
    let m1 = write_at header_size (c_str msg) m0 in
    let m2 = write_at (header_size + length (c_str msg)) (eot ∷ []) m1 in
    elim (str_eq target system) [
      | true ↦ some (
          if str_eq msg (codes "routing")
          then record n { ui = print_routing_table n.table n.ui }
          else n)
      | false ↦ msglen m2 >>= λ len. some (send_with single (get_routing n.table target) m2 len n)
    ]

-- The message of do_login; `local_addr` holds the four bytes that inet_aton gives, in network
-- order.
unfoldable pub login_message : List ℕ → List ℕ → List ℕ → ℕ → List ℕ
unfolding get_name
login_message own_name chat_name local_addr local_port =
    let header = header_bytes (create_header own_name [] type_login) in
    let m0 = write_at 0 header (zeros msg_size) in
    let m1 = take header_size m0 ++ get_name (drop header_size m0) chat_name in
    let m2 = write_at (header_size + 32) local_addr m1 in
    let m3 =
      write_at (header_size + 36) (local_port / 2 ^ 8 % 2 ^ 8 ∷ local_port % 2 ^ 8 ∷ []) m2 in
    write_at (header_size + 38) (eot ∷ []) m3

-- do_login; `target_addr` is the address of the target as a number.
unfoldable pub do_login : List ℕ → List ℕ → ℕ → ℕ → ℕ → Node → Option Node
unfolding login_message send_with
do_login chat_name local_addr local_port target_addr target_port n =
    let m = login_message n.own_name chat_name local_addr local_port in
    msglen m >>= λ len. some (send_with single (target_addr * 2 ^ 32 + target_port) m len n)

-- do_logout(); the EOT behind the header is written outside of the array.
unfoldable pub do_logout : Node → Node
unfolding send_to_all_neighboors
do_logout n =
    let m = header_bytes (create_header n.own_name [] type_logout) in
    send_to_all_neighboors m [] header_size n

-- memchr(msg, b, n) != NULL
unfoldable pub mem_chr : ℕ → ℕ → List ℕ → Bool
mem_chr b zero msg = false
mem_chr b (suc n) [] = false
mem_chr b (suc n) (x ∷ msg) = (x == b) || mem_chr b n msg

-- forward(sender, target, msg)
unfoldable pub forward : List ℕ → List ℕ → List ℕ → Node → Option Node
unfolding add_list remove_list mem_chr send_with
forward sender target msg n =
    let dest = get_routing n.table target in
    let (series, found) = add_list target n.series in
    let added = record n { series = series } in
    elim (dest == 0) [
      | true ↦ some n
      | false ↦ elim found [
        | false ↦ msglen msg >>= λ len. some (send_with up dest msg len added)
        | true ↦ msglen msg >>= λ len. some (
            if mem_chr eot len msg
            then record (send_with down dest msg len added) { series = remove_list target series }
            else send_with keep dest msg len added)
      ]
    ]

-- The ROUTE message with the whole table, its target left empty.
unfoldable pub route_message : Node → Option (List ℕ)
route_message n = do
  ergebnis ← table_to_char_array n.table (zeros (get_routing_table_size n.table))
  some (header_bytes (create_header n.own_name [] type_route) ++ ergebnis)

-- The table sent to the direct neighbours but `skip`.
unfoldable pub send_routes : List ℕ → Node → Option Node
unfolding route_message send_to_all_neighboors
send_routes skip n = do m ← route_message n; some (send_to_all_neighboors m skip (length m) n)
