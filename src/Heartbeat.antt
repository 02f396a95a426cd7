-- ===== src/Heartbeat.antt =====
-- src/heartBeat.c: the heartbeats to the direct neighbours. A round of heartBeatFunction is cut at
-- its sleeps: `start_round` runs before the two seconds of waiting and `end_round` behind them.
pub mod Rounds
pub mod Removal
use rn_praktikum.Base.{
  ℕ, zero, suc, ◌/◌, List, [], ◌∷◌, ◌++◌, Option, none, some, Bool, true, false, ◌==◌,
  if◌then◌else◌, ◌>>=◌, get_elem?, get_or, set, codes, length, zeros, replicate, str_eq, c_str,
}
use rn_praktikum.Names.{create_header, header_bytes, header_size, type_heart, type_route}
use rn_praktikum.Queue.{single, push_ui, push_send}
use rn_praktikum.Table.{get_routing, get_routing_table_size, get_sizeof_routing_table, record_size}
use rn_praktikum.Table.Export.{table_to_char_array}
use rn_praktikum.Node.{Node, User, delete_from_table, get_hops_one_away}

-- The length of users.oneHopaway.
abbrev pub max_users : ℕ
max_users = 50

abbrev pub no_user : User
no_user = record { chat_name = zeros 32; adress = 0; port = 0; not_responded = 0 }

-- chatName[0] == '\0'
unfoldable pub is_empty : User → Bool
is_empty u = get_or u.chat_name 0 0 == 0

-- push_send(SINGLE, getRouting(name), msg, len)
unfoldable pub send_to : List ℕ → List ℕ → ℕ → Node → Node
unfolding push_send
send_to name msg len n = record n {
  send = (push_send single (get_routing n.table name) msg len n.send).0;
}

-- The loop of sendHeartbeatSignal over the users.
unfoldable pub signal_each : List User → Node → Node
unfolding is_empty send_to
signal_each [] n = n
signal_each (u ∷ us) n =
    let sent =
      send_to u.chat_name (header_bytes (create_header n.own_name u.chat_name type_heart))
        header_size n in
    let rest = signal_each us sent in if is_empty u then n else rest

-- sendHeartbeatSignal()
unfoldable pub send_heartbeat_signal : Node → Node
unfolding signal_each
send_heartbeat_signal n = signal_each n.users n

unfoldable pub first_user_empty : List User → Bool
unfolding is_empty
first_user_empty [] = true
first_user_empty (u ∷ us) = is_empty u

-- A round up to its sleep. Without a direct neighbour it only waits.
unfoldable pub start_round : Node → Node
unfolding send_heartbeat_signal first_user_empty
start_round n =
    let seen = record n { users = get_hops_one_away n.table n.users } in
    if first_user_empty seen.users
    then seen
    else send_heartbeat_signal
        (record seen { users = get_hops_one_away n.table (replicate max_users no_user) })

-- The inner loop: a ROUTE message with the table to the users from the front on, at most `k`.
unfoldable pub route_each : ℕ → List User → List ℕ → Node → Node
unfolding is_empty send_to
route_each zero us bytes n = n
route_each (suc k) [] bytes n = n
route_each (suc k) (u ∷ us) bytes n =
    let msg = header_bytes (create_header n.own_name u.chat_name type_route) ++ bytes in
    let rest = route_each k us bytes (send_to u.chat_name msg (length msg) n) in
    if is_empty u then n else rest

-- "User %s is not responding. Removing from routing table.\n"
unfoldable pub text_not_responding : List ℕ → List ℕ
unfolding c_str
text_not_responding name =
    codes "User "
    ++ (c_str name ++ (codes " is not responding. Removing from routing table." ++ 10 ∷ []))

-- What happens to the user at `i`, who did not answer; `none` is the read through a null pointer
-- in tableToCharArray.
unfoldable pub remove_user : ℕ → User → Node → Option Node
unfolding text_not_responding route_each
remove_user i u n = do
  let told = record n { ui = (push_ui (text_not_responding u.chat_name) u.chat_name n.ui).0 }
  let gone = delete_from_table u.chat_name told
  let seen = record gone { users = get_hops_one_away gone.table (set gone.users i no_user) }
  bytes ← table_to_char_array seen.table (zeros (get_sizeof_routing_table seen.table))
  some (route_each (get_routing_table_size seen.table / record_size) seen.users bytes seen)

-- The loop behind the sleep, with the rounds left, from index `i` on.
unfoldable pub check_from : ℕ → ℕ → Node → Option Node
unfolding is_empty remove_user
check_from zero i n = some n
check_from (suc k) i n = elim (get_elem? n.users i) [
  | none ↦ some n
  | some u ↦ elim (is_empty u) [
    | true ↦ some n
    | false ↦ elim (u.not_responded == 0) [
      | true ↦ remove_user i u n >>= check_from k (suc i)
      | false ↦
          check_from k (suc i) (record n { users = set n.users i (record u { not_responded = 0 }) })
    ]
  ]
]

unfoldable pub end_round : Node → Option Node
unfolding check_from
end_round n = check_from max_users 0 n

-- The loop of receiveHeartbeatResponse: the first user with the name has answered.
unfoldable pub answer_from : List ℕ → List User → List User
answer_from name [] = []
answer_from name (u ∷ us) =
    let rest = answer_from name us in
    if str_eq u.chat_name name then record u { not_responded = 1 } ∷ us else u ∷ rest

-- receiveHeartbeatResponse(senderName)
unfoldable pub receive_heartbeat_response : List ℕ → Node → Node
unfolding answer_from
receive_heartbeat_response name n = record n {
  users = answer_from name (get_hops_one_away n.table n.users);
}
