-- ===== src/Examples/Handshake.antt =====
-- An example for the two ways of joining: dave, who has just started, logs in at alice's host.
use mathlib.Core.Option.{some-injective, none-ne-some}
use mathlib.Core.Path.{subst}
use rn_praktikum.Base.{
  ℕ, zero, suc, ◌+◌, ◌≤◌, ◌<◌, ◌≡◌, refl, List, [], ◌∷◌, ◌++◌, some, arith, length, zeros, c_str,
  All, replicate,
}
use rn_praktikum.Queue.{MessageSend, push}
use rn_praktikum.Table.{Entry, init_table, adress_and_port, scanned}
use rn_praktikum.Table.Start.{start_table, init_table-IsValid}
use rn_praktikum.Table.Wire.{bytes32}
use rn_praktikum.Table.Count.{used_from}
use rn_praktikum.Table.Lookup.{lookup}
use rn_praktikum.Table.Invariant.{used}
use rn_praktikum.Table.Announce.{announced}
use rn_praktikum.Table.Growth.{Reached}
use rn_praktikum.Table.Exchange.{IsAnnounced}
use rn_praktikum.Node.{Node}
use rn_praktikum.Node.Heard.{init_table-Heard}
use rn_praktikum.Tcp.{send_tcp, read_tcp}
use rn_praktikum.Tcp.Stream.{waiting}
use rn_praktikum.Protocol.{do_login}
use rn_praktikum.Protocol.Receive.{handle_msg}
use rn_praktikum.Protocol.Login.{neighbour}
use rn_praktikum.Protocol.Told.{table_letter, heart_letter}
use rn_praktikum.Protocol.Fits.{Fits}
use rn_praktikum.Protocol.Handshake.{handshake}
use rn_praktikum.Examples.{
  alice, alice_entry, bob_entry, carol_entry, small_node, small_slots, taken, no_slot, noise,
}
use rn_praktikum.Examples.Exchange.{alice-IsEntry, bob-IsEntry, carol-IsEntry}
use rn_praktikum.Examples.Joining.{
  dave, dave_unknown, dave_clean, four_letters, node-IsValid, alice_first,
}
use rn_praktikum.Examples.Transport.{slow, slow-Accepts}

abbrev new_host : Node
new_host = record (small_node 1) {
  own_name = dave;
  table = init_table dave 0x0900_000a 5000 noise noise start_table;
}

taken-Fits : (e : Entry) (seen : ℕ) → IsAnnounced e → Fits (taken e seen)
taken-Fits e seen fits x p = subst IsAnnounced (some-injective e x p) fits

no_slots-Fits : (k : ℕ) → All Fits (replicate k no_slot)
no_slots-Fits zero = tt
no_slots-Fits (suc k) = ((λ e p. absurd (none-ne-some e p)), no_slots-Fits k)

small_slots-Fits : All Fits (small_slots 1)
small_slots-Fits = (
  taken-Fits alice_entry 1 (alice-IsEntry, (λ e. omega arith), omega arith),
  (
    taken-Fits bob_entry 0 (bob-IsEntry, (λ e. omega arith), omega arith),
    (taken-Fits carol_entry 1 (carol-IsEntry, (λ e. omega arith), omega arith), no_slots-Fits 97),
  ),
)

own_names : (c_str dave ≡ c_str four_letters) × (length (c_str alice) ≤ 32)
unfolding c_str
own_names = (refl, omega arith)

room_for_both : used new_host.table + used (small_node 1).table < scanned
unfolding used_from init_table
room_for_both = omega arith

abbrev to_dave : ℕ
to_dave = adress_and_port 0x0a00_0009 5000

handshake_example :
    (q : MessageSend) × (bytes : List ℕ) × (m : Node) × (r : List ℕ) × (pre : List MessageSend)
    × (post : List MessageSend) × (answer : List ℕ) × (k : Node) × (do_login four_letters
          (bytes32 0x0a00_0009)
          5000
          0x0100_000a
          5000
          new_host
        ≡ some (record new_host { send = (push [] q).0 }))
    × (send_tcp slow (length q.msg + 1) 9 q.msg ≡ some bytes)
    × (read_tcp (waiting bytes) ≡ some bytes)
    × (handle_msg (λ n. noise) (λ n. noise) (length bytes) (bytes ++ zeros 9) (small_node 1)
        ≡ some m)
    × (lookup m.table dave ≡ some (neighbour dave 0x0a00_0009 5000 1))
    × (m.send
        ≡ (pre ++ table_letter dave r to_dave ∷ post)
          ++ heart_letter alice four_letters to_dave ∷ [])
    × (send_tcp slow
          (length (table_letter dave r to_dave).msg + 1)
          9
          (table_letter dave r to_dave).msg
        ≡ some answer)
    × (read_tcp (waiting answer) ≡ some answer)
    × (handle_msg
          (λ n. noise)
          (λ n. noise)
          (length answer)
          (answer ++ zeros 9)
          (record new_host { send = (push [] q).0 })
        ≡ some k)
    × All (λ e. Reached k.table e.chat_name (e.hop_count + 1)) (announced m.table)
    × Reached k.table alice 1
handshake_example =
    let (heard, first) = init_table-Heard dave 0x0900_000a 5000 noise noise in
    handshake (λ n. noise) (λ n. noise) (λ n. noise) (λ n. noise) slow slow 9 9 four_letters
      (zeros 9) (zeros 9) 0x0a00_0009 5000 0x0100_000a 5000 new_host (small_node 1) alice_entry
      slow-Accepts slow-Accepts (λ e. omega arith) (omega arith) own_names.0 own_names.1 dave_clean
      (omega arith) (omega arith) (λ i. refl) (λ i. refl) (λ i. refl) (λ i. refl) node-IsValid
      alice_first (λ e. omega arith) small_slots-Fits dave_unknown (omega arith)
      (init_table-IsValid dave 0x0900_000a 5000 noise noise) first heard room_for_both
