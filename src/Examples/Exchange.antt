-- ===== src/Examples/Exchange.antt =====
-- An example for a table that another host learns.
use rn_praktikum.Base.{
  ℕ, ◌+◌, ◌≤◌, ◌≡◌, refl, List, ◌++◌, some, arith, length, zeros, All, bytes_eq, c_str,
}
use rn_praktikum.Table.{scanned, init_table, is_blank}
use rn_praktikum.Table.Start.{start_table, init_table-IsValid}
use rn_praktikum.Table.Count.{used_from}
use rn_praktikum.Table.Invariant.{used}
use rn_praktikum.Table.Export.{first_entry}
use rn_praktikum.Table.Announce.{announced, announced_from}
use rn_praktikum.Table.Codec.{IsEntry}
use rn_praktikum.Table.Exchange.{IsAnnounced}
use rn_praktikum.Node.{Node}
use rn_praktikum.Node.Heard.{init_table-Heard}
use rn_praktikum.Tcp.{send_tcp, read_tcp}
use rn_praktikum.Tcp.Stream.{waiting}
use rn_praktikum.Protocol.{route_message}
use rn_praktikum.Protocol.Receive.{handle_msg}
use rn_praktikum.Protocol.Told.{table_letter}
use rn_praktikum.Protocol.Spread.{table_delivered}
use rn_praktikum.Examples.Transport.{slow, slow-Accepts}
use rn_praktikum.Table.Growth.{Reached}
use rn_praktikum.Examples.{
  alice, bob, small_node, alice_entry, bob_entry, carol_entry, small_table, noise,
}

-- bob's host at its start; it knows itself alone.
abbrev bob_node : Node
bob_node = record (small_node 1) {
  own_name = bob;
  table = init_table bob 0x0200_000a 5000 noise noise start_table;
}

alice_first : first_entry (small_table 1).slots ≡ some alice_entry
unfolding first_entry
alice_first = refl

pub alice-IsEntry : IsEntry alice_entry
alice-IsEntry = record {
  name_length = refl;
  next_name_length = refl;
  adress_lt = omega arith;
  port_lt = omega arith;
  next_adress_lt = omega arith;
  next_port_lt = omega arith;
  hop_count_lt = omega arith;
}

pub bob-IsEntry : IsEntry bob_entry
bob-IsEntry = record {
  name_length = refl;
  next_name_length = refl;
  adress_lt = omega arith;
  port_lt = omega arith;
  next_adress_lt = omega arith;
  next_port_lt = omega arith;
  hop_count_lt = omega arith;
}

pub carol-IsEntry : IsEntry carol_entry
carol-IsEntry = record {
  name_length = refl;
  next_name_length = refl;
  adress_lt = omega arith;
  port_lt = omega arith;
  next_adress_lt = omega arith;
  next_port_lt = omega arith;
  hop_count_lt = omega arith;
}

-- alice's three entries.
three-IsAnnounced : All IsAnnounced (announced (small_table 1))
unfolding announced_from is_blank bytes_eq c_str
three-IsAnnounced = (
  (alice-IsEntry, λ e. omega arith, omega arith),
  (
    (bob-IsEntry, λ e. omega arith, omega arith),
    ((carol-IsEntry, λ e. omega arith, omega arith), tt),
  ),
)

room_for_three : used bob_node.table + length (announced (small_table 1)) ≤ scanned
unfolding used_from announced_from is_blank bytes_eq c_str init_table
room_for_three = omega arith

short_names : (length (c_str alice) ≤ 32) × (length (c_str bob) ≤ 32)
unfolding c_str
short_names = (omega arith, omega arith)

table_delivered_example :
    (r : List ℕ) × (bytes : List ℕ) × (m : Node) × (route_message (small_node 1) ≡ some r)
    × (send_tcp slow (length (table_letter bob r 9).msg + 1) 9 (table_letter bob r 9).msg
        ≡ some bytes)
    × (read_tcp (waiting bytes) ≡ some bytes)
    × (handle_msg (λ n. noise) (λ n. noise) (length bytes) (bytes ++ zeros 9) bob_node ≡ some m)
    × All (λ e. Reached m.table e.chat_name (e.hop_count + 1)) (announced (small_table 1))
table_delivered_example =
    let (heard, first) = init_table-Heard bob 0x0200_000a 5000 noise noise in
    table_delivered (λ n. noise) (λ n. noise) slow 9 bob (zeros 9) 9 (small_node 1) bob_node
      alice_entry slow-Accepts short_names.0 short_names.1 alice_first alice-IsEntry
      (λ e. omega arith) three-IsAnnounced (λ i. refl) (λ i. refl)
      (init_table-IsValid bob 0x0200_000a 5000 noise noise) room_for_three heard first
