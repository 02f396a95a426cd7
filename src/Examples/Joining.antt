-- ===== src/Examples/Joining.antt =====
-- Examples for initTable and a LOGIN message.
use rn_praktikum.Base.{
  ℕ, ◌+◌, ◌*◌, ◌^◌, ◌≤◌, ◌<◌, ◌≡◌, refl, List, [], ◌∷◌, ◌++◌, none, some, false, arith, length,
  codes, zeros, c_str, str_eq, bytes_eq,
}
use rn_praktikum.Table.{init_table, get_routing, scanned}
use rn_praktikum.Table.Lookup.{lookup, lookup_from}
use rn_praktikum.Table.Count.{used_from}
use rn_praktikum.Table.Distinct.{distinct_from}
use rn_praktikum.Table.Front.{front_only, all_free}
use rn_praktikum.Table.Invariant.{IsValid, used}
use rn_praktikum.Table.Start.{start_table, init_table_lem}
use rn_praktikum.Node.{Node}
use rn_praktikum.Protocol.{do_login}
use rn_praktikum.Protocol.Joining.{login_front, login_bytes, do_login_cut}
use rn_praktikum.Names.{header_bytes, create_header, set_name, eot}
use rn_praktikum.Names.Length.{NoEot}
use rn_praktikum.Queue.{single, push}
use rn_praktikum.Table.Wire.{bytes32}
use rn_praktikum.Table.Export.{first_entry}
use rn_praktikum.Examples.{alice, alice_entry, small_node, noise}
use rn_praktikum.Examples.Messages.{all_but-All}

alice_short : length (c_str alice) < 32
unfolding c_str
alice_short = omega arith

init_table_lem_example :
    let t = init_table alice 0x0100_000a 5000 noise noise start_table in
    IsValid t
    × (get_routing t alice ≡ 0x0100_000a * 2 ^ 32 + 5000)
    × ((other : List ℕ) → str_eq alice other ≡ false → lookup t other ≡ none)
init_table_lem_example =
    init_table_lem alice 0x0100_000a 5000 noise noise alice_short (omega arith) (omega arith) refl

abbrev pub dave : List ℕ
dave = codes "dave" ++ zeros 28

pub dave_unknown : lookup (small_node 1).table dave ≡ none
unfolding lookup_from bytes_eq c_str
dave_unknown = refl

pub node-IsValid : IsValid (small_node 1).table
unfolding used_from distinct_from front_only all_free lookup_from bytes_eq c_str
node-IsValid = record { places = refl; accounted = refl; distinct = refl; front = refl }

pub node_room : used (small_node 1).table < scanned
unfolding used_from
node_room = omega arith

-- dave's host; alice does not know him.
abbrev dave_node : Node
dave_node = record (small_node 1) { own_name = dave }

abbrev pub four_letters : List ℕ
four_letters = codes "dave"

pub dave_short : length (c_str dave) ≤ 32
unfolding c_str
dave_short = omega arith

-- 10.0.0.9, port 5000: no byte is a 4.
pub dave_clean : NoEot (login_bytes dave four_letters (bytes32 0x0a00_0009) 5000)
unfolding header_bytes create_header set_name c_str bytes32
dave_clean = all_but-All eot (login_bytes dave four_letters (bytes32 0x0a00_0009) 5000) refl

pub alice_first : first_entry (small_node 1).table.slots ≡ some alice_entry
unfolding first_entry
alice_first = refl

-- 10.0.4.9.
front_clean : NoEot (login_front dave four_letters ++ 10 ∷ 0 ∷ [])
unfolding header_bytes create_header set_name c_str
front_clean = all_but-All eot (login_front dave four_letters ++ 10 ∷ 0 ∷ []) refl

do_login_cut_example :
    do_login four_letters (10 ∷ 0 ∷ 4 ∷ 9 ∷ []) 5000 0x0100_000a 5000 dave_node
    ≡ some (record dave_node {
      send =
          (push [] (record {
            dest_addr = 0x0100_000a * 2 ^ 32 + 5000;
            msg = login_front dave four_letters ++ 10 ∷ 0 ∷ [];
            msg_len = 100;
            msg_counter = single;
          })).0;
    })
do_login_cut_example =
    do_login_cut four_letters (10 ∷ 0 ∷ []) (9 ∷ []) 5000 0x0100_000a 5000 dave_node
      (λ e. omega arith) (omega arith) refl front_clean
