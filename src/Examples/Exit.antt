-- ===== src/Examples/Exit.antt =====
-- An example for the exit: alice types a letter and leaves, and bob leaves.
use rn_praktikum.Base.{
  ℕ, replicate, ◌+◌, ◌≤◌, ◌≡◌, refl, List, [], ◌∷◌, ◌++◌, Option, none, some, true, arith, length,
  map, bytes_eq, c_str, str_eq, false,
}
use rn_praktikum.Queue.{max_queue_size, pop}
use rn_praktikum.Node.{Node}
use rn_praktikum.Protocol.Leave.{logout_letter}
use rn_praktikum.Protocol.Listed.{AllNamed}
use rn_praktikum.Queue.{MessageSend}
use rn_praktikum.Table.{Entry, Slot, scanned, get_routing}
use rn_praktikum.Protocol.{do_logout}
use rn_praktikum.Examples.Welcome.{small_slots-AllNamed, no_slots-AllNamed}
use rn_praktikum.Ui.{
  Session, add_foreign_message, turn, find_tab_from, change_tab, add_to_tab, drain_from, on_key,
}
use rn_praktikum.Ui.Draw.{redraw}
use rn_praktikum.Ui.Loop.{round, loop, start_ui, empty_ui, first_session}
use rn_praktikum.Ui.Terminal.{
  Termios, Terminal, Exit, Input, input_round, read_key, get_size, run_ui, run_ui_leaves,
}
use rn_praktikum.Table.Lookup.{lookup, lookup_from}
use rn_praktikum.Table.Forget.{forget}
use rn_praktikum.Tcp.{send_tcp, read_tcp}
use rn_praktikum.Tcp.Stream.{waiting}
use rn_praktikum.Protocol.Receive.{handle_msg}
use rn_praktikum.Protocol.Logout.{logout_delivered}
use rn_praktikum.Examples.{
  alice, alice_entry, bob, bob_entry, small_node, small_table, taken, no_slot, noise,
}
use rn_praktikum.Examples.Joining.{node-IsValid, alice_first}
use rn_praktikum.Examples.Transport.{slow, slow-Accepts}

-- A terminal that waits for whole lines.
abbrev lines_first : Terminal
lines_first =
    let cooked : Termios = record {
      icanon = true;
      echo = true;
      isig = true;
      vmin = 1;
      vtime = 0;
      rest = 7;
    } in
    record { mode = some cooked; orig_term = record cooked { rest = 0 } }

abbrev letter_typed : Input
letter_typed = record { ready = true; byte = some 105; seq = []; others = λ n. n }

abbrev screen : Option (ℕ × ℕ)
screen = some (24, 80)

abbrev typed : Option Session
typed = start_ui (map (input_round (get_size screen (0, 0))) (letter_typed ∷ [])) (small_node 1)

abbrev session_of : Option Session → Session
session_of none = first_session empty_ui (small_node 1)
session_of (some s) = s

typed_runs : typed ≡ some (session_of typed)
unfolding start_ui loop round redraw turn drain_from on_key pop add_foreign_message find_tab_from
    bytes_eq c_str change_tab add_to_tab input_round read_key get_size
typed_runs = refl

typed_table : (session_of typed).node ≡ small_node 1
unfolding start_ui loop round redraw turn drain_from on_key pop add_foreign_message find_tab_from
    bytes_eq c_str change_tab add_to_tab input_round read_key get_size
typed_table = refl

typed_names : AllNamed (session_of typed).node.table.slots
typed_names = rw typed_table small_slots-AllNamed

bob_found : lookup (small_node 1).table bob ≡ some bob_entry
unfolding lookup_from bytes_eq c_str
bob_found = refl

typed_neighbour : lookup (session_of typed).node.table bob ≡ some bob_entry
typed_neighbour = rw typed_table bob_found

typed_room : length (session_of typed).node.send + scanned ≤ max_queue_size
typed_room = rw typed_table (omega arith)

run_ui_leaves_example :
    (x : Exit) × (pre : List MessageSend) × (post : List MessageSend) × (run_ui lines_first screen
        (0, 0)
        (letter_typed ∷ [])
        (small_node 1)
      ≡ some x)
    × (x.terminal.mode ≡ lines_first.mode)
    × (x.node ≡ record ((session_of typed).node) {
      send =
          (session_of typed).node.send
          ++ (pre ++ logout_letter (session_of typed).node bob_entry ∷ post);
    })
run_ui_leaves_example =
    run_ui_leaves lines_first screen (0, 0) (letter_typed ∷ []) (small_node 1) (session_of typed)
      bob bob_entry typed_runs typed_names typed_neighbour refl typed_room

-- bob leaves; alice is his neighbour, and he is hers.
abbrev near_alice : Entry
near_alice = record alice_entry { hop_count = 1 }

abbrev bob_slots : List Slot
bob_slots = taken (record bob_entry { hop_count = 0 }) 1 ∷ taken near_alice 1 ∷ replicate 98 no_slot

abbrev bob_node : Node
bob_node = record (small_node 1) {
  own_name = bob;
  table = record (small_table 1) { slots = bob_slots };
}

bob_slots-AllNamed : AllNamed bob_slots
bob_slots-AllNamed = ((λ e. omega arith), ((λ e. omega arith), no_slots-AllNamed 98))

alice_found : lookup bob_node.table alice ≡ some near_alice
unfolding lookup_from bytes_eq c_str
alice_found = refl

short_names : (length (c_str bob) ≤ 32) × (length (c_str alice) ≤ 32)
unfolding c_str
short_names = (omega arith, omega arith)

not_bob : str_eq alice bob ≡ false
unfolding c_str bytes_eq
not_bob = refl

logout_delivered_example :
    (q : MessageSend) × (pre : List MessageSend) × (post : List MessageSend) × (bytes : List ℕ)
    × (m : Node) × (do_logout bob_node ≡ record bob_node { send = pre ++ q ∷ post })
    × (q.dest_addr ≡ get_routing bob_node.table alice)
    × (send_tcp slow (length q.msg + 1) 9 q.msg ≡ some bytes)
    × (read_tcp (waiting bytes) ≡ some bytes)
    × (handle_msg (λ i. noise) (λ i. noise) (length bytes) (bytes ++ []) (small_node 1) ≡ some m)
    × ((x : List ℕ) → lookup m.table x ≡ forget bob (lookup (small_node 1).table x))
logout_delivered_example =
    logout_delivered (λ i. noise) (λ i. noise) slow 9 [] alice near_alice bob_node (small_node 1)
      alice_entry slow-Accepts bob_slots-AllNamed alice_found refl (omega arith) short_names.0
      short_names.1 node-IsValid alice_first not_bob not_bob
