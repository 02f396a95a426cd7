-- ===== src/TestTable/Message.antt =====
-- The main function of src/testTable.c and the message that it tries its table with.
use rn_praktikum.Base.{
  ℕ, ◌+◌, ◌-◌, ◌*◌, ◌/◌, ◌%◌, ◌^◌, ◌≡◌, refl, List, [], ◌∷◌, ◌++◌, ◌==◌, if◌then◌else◌, codes,
  length, replicate, zeros, bytes_eq, c_str,
}
use rn_praktikum.Table.{is_blank, no_route, record_size}
use rn_praktikum.Table.Wire.{read32, read16, read_entry, next_hop_count}
use rn_praktikum.Table.Print.{decimal, dotted}
use rn_praktikum.TestTable.{
  RoutingTable, places, blank, init_table, find_from, insert_from, update_record, table_update,
  routing_from, get_routing, table_to_char_array, print_routing_table, line,
}

-- A name at the left end of its 32 bytes.
abbrev padded : List ℕ → List ℕ
padded name = name ++ zeros (32 - length name)

-- testMessage: Alice over Bob, Bob over Carol, Carol over Dave.
abbrev pub test_message : List ℕ
test_message =
    padded (codes "Alice")
    ++ (192 ∷ 168 ∷ 1 ∷ 10 ∷ 19 ∷ 136 ∷ []
        ++ (padded (codes "Bob")
            ++ (10 ∷ 0 ∷ 0 ∷ 5 ∷ 23 ∷ 112 ∷ 0 ∷ 0 ∷ 0 ∷ 3 ∷ []
                ++ (padded (codes "Bob")
                    ++ (10 ∷ 0 ∷ 0 ∷ 5 ∷ 23 ∷ 112 ∷ []
                        ++ (padded (codes "Carol")
                            ++ (172 ∷ 16 ∷ 0 ∷ 7 ∷ 27 ∷ 88 ∷ 0 ∷ 0 ∷ 0 ∷ 2 ∷ []
                                ++ (padded (codes "Carol")
                                    ++ (172 ∷ 16 ∷ 0 ∷ 7 ∷ 27 ∷ 88 ∷ []
                                        ++ (padded (codes "Dave")
                                            ++ (192 ∷ 168 ∷ 0 ∷ 20 ∷ 31 ∷ 64 ∷ 0 ∷ 0 ∷ 0 ∷ 1
                                                ∷ [])))))))))))

-- The globals before main.
abbrev pub start : RoutingTable
start = record { entries = replicate places blank; free_entries = 99 }

-- The table that main starts with, and its bytes.
unfoldable pub own_table : RoutingTable
unfolding init_table
own_table = init_table (codes "HalloGutenTag") 1234567 8000 start

unfoldable pub own_bytes : List ℕ
unfolding own_table table_to_char_array
own_bytes = table_to_char_array own_table (zeros (places * record_size))

-- The table and its bytes behind the message. What main and the functions print on the way is left
-- out.
unfoldable pub trial : RoutingTable × List ℕ
unfolding own_table own_bytes table_update table_to_char_array
trial = let t = table_update test_message 240 own_table in (t, table_to_char_array t own_bytes)

-- The lines behind "Getting routing for Carol:"; the port is the lower 16 bits.
unfoldable pub print_routing : ℕ → List ℕ
unfolding line dotted decimal
print_routing adress_and_port =
    if adress_and_port == no_route
    then line (codes " No routing found for Carol") []
    else line (codes " Next Address: ") (dotted (adress_and_port / 2 ^ 32 % 2 ^ 32))
      ++ line (codes " Next Port: ") (decimal (adress_and_port % 2 ^ 16))

-- The end of main's output, from printRoutingTable on.
unfoldable pub main : List ℕ
unfolding trial print_routing_table get_routing print_routing
main =
    print_routing_table trial.0
    ++ (line (codes "Getting routing for Carol:") []
        ++ print_routing (get_routing trial.0 (codes "Carol")))

length-test_message : length test_message ≡ 240
length-test_message = refl

-- Carol is reached over Dave, at 192.168.0.20:8000.
carol_found : get_routing trial.0 (codes "Carol") ≡ 0xc0a8_0014 * 2 ^ 32 + 8000
unfolding trial get_routing routing_from update_record find_from insert_from is_blank c_str bytes_eq
    read_entry read32 read16 next_hop_count
carol_found = refl
