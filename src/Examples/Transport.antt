-- ===== src/Examples/Transport.antt =====
-- Examples for send_tcp, read_tcp and a chat line between two hosts.
use rn_praktikum.Base.{
  ℕ, All, ◌+◌, ◌≤◌, ◌≡◌, refl, List, [], ◌∷◌, ◌++◌, some, true, arith, length, codes, zeros, c_str,
  str_eq, bytes_eq,
}
use rn_praktikum.Names.{eot}
use rn_praktikum.Queue.{MessageSend, push}
use rn_praktikum.Table.{get_routing, routing_from}
use rn_praktikum.Tcp.{send_tcp, read_tcp}
use rn_praktikum.Tcp.Stream.{Accepts, send_tcp_lem, waiting}
use rn_praktikum.Protocol.{do_chat}
use rn_praktikum.Protocol.Receive.{handle_msg}
use rn_praktikum.Protocol.Relay.{Forwards, Relays, chat_relayed}
use rn_praktikum.Node.{Node}
use rn_praktikum.Examples.{alice, bob, carol, small_node, noise}
use rn_praktikum.Examples.Messages.{typed-NoEot, not_system, typed_fits, hi-NoEot}

-- A connection that takes a byte at a time.
abbrev pub slow : ℕ → ℕ → ℕ
slow i k = 1

pub slow-Accepts : Accepts slow
slow-Accepts = λ i k h. (omega arith, omega arith)

send_tcp_lem_example : send_tcp slow 3 9 (codes "hi") ≡ some (codes "hi" ++ eot ∷ [])
send_tcp_lem_example = send_tcp_lem slow 9 (codes "hi") slow-Accepts (omega arith)

abbrev bob_node : Node
bob_node = record (small_node 1) { own_name = bob }

bob_own : str_eq bob bob_node.own_name ≡ true
unfolding bytes_eq c_str
bob_own = refl

short_names : (length (c_str alice) ≤ 32) × (length (c_str bob) ≤ 32)
unfolding c_str
short_names = (omega arith, omega arith)

-- carol's host lies on the way.
abbrev carol_node : Node
carol_node = record (small_node 1) { own_name = carol }

carol-Forwards : Forwards bob carol_node
unfolding get_routing routing_from bytes_eq c_str
carol-Forwards = (refl, λ e. omega arith)

chat_relayed_example :
    (q : MessageSend) × (bytes : List ℕ) × (do_chat bob (codes "hi") (small_node 1)
      ≡ some (record (small_node 1) { send = (push [] q).0 }))
    × (q.dest_addr ≡ get_routing (small_node 1).table bob)
    × (send_tcp slow (length q.msg + 1) 9 q.msg ≡ some bytes)
    × (read_tcp (waiting bytes) ≡ some bytes)
    × All
        (Relays (λ n. noise) (λ n. noise) slow 9 bob bytes (zeros 9))
        (carol_node ∷ carol_node ∷ [])
    × (handle_msg (λ n. noise) (λ n. noise) (length bytes) (bytes ++ zeros 9) bob_node
        ≡ some (record bob_node {
          ui = (push [] (record { text = c_str (codes "hi"); name = c_str alice })).0;
        }))
chat_relayed_example =
    chat_relayed (λ n. noise) (λ n. noise) slow 9 bob (codes "hi") (zeros 9) (small_node 1) bob_node
      (carol_node ∷ carol_node ∷ []) slow-Accepts short_names.0 short_names.1 not_system bob_own
      (carol-Forwards, (carol-Forwards, tt)) typed-NoEot hi-NoEot typed_fits
