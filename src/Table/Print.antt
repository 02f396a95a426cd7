-- ===== src/Table/Print.antt =====
-- printRoutingTable of src/routingTable.c: the lines that it pushes to the user interface.
use rn_praktikum.Base.{
  ℕ, zero, suc, ◌+◌, ◌/◌, ◌%◌, ◌^◌, List, [], ◌∷◌, ◌++◌, none, some, ltb, if◌then◌else◌, codes,
  c_str,
}
use rn_praktikum.Queue.{MessageUi, push_ui}
use rn_praktikum.Table.{Entry, Slot, Table, scanned, is_blank}

-- The digits of printf's %u, with the digits behind them; a uint32_t has at most ten.
unfoldable pub digits_from : ℕ → ℕ → List ℕ → List ℕ
digits_from zero n acc = acc
digits_from (suc fuel) n acc =
    let rest = digits_from fuel (n / 10) ((48 + n % 10) ∷ acc) in
    if ltb n 10 then (48 + n) ∷ acc else rest

unfoldable pub decimal : ℕ → List ℕ
unfolding digits_from
decimal n = digits_from 10 n []

-- %u.%u.%u.%u of the four bytes of an address, the highest first
unfoldable pub dotted : ℕ → List ℕ
unfolding decimal
dotted a =
    decimal (a / 2 ^ 24 % 2 ^ 8)
    ++ (codes "."
        ++ (decimal (a / 2 ^ 16 % 2 ^ 8)
            ++ (codes "." ++ (decimal (a / 2 ^ 8 % 2 ^ 8) ++ (codes "." ++ decimal (a % 2 ^ 8))))))

-- "To %s (%u.%u.%u.%u:%u) via %s (%u.%u.%u.%u:%u) in %u Hops"
unfoldable pub print_entry : Entry → List ℕ
unfolding dotted decimal c_str
print_entry e =
    codes "To "
    ++ (c_str e.chat_name
        ++ (codes " ("
            ++ (dotted e.adress
                ++ (codes ":"
                    ++ (decimal e.port
                        ++ (codes ") via "
                            ++ (c_str e.next_chat_name
                                ++ (codes " ("
                                    ++ (dotted e.next_adress
                                        ++ (codes ":"
                                            ++ (decimal e.next_port
                                                ++ (codes ") in "
                                                    ++ (decimal e.hop_count
                                                        ++ codes " Hops")))))))))))))

abbrev pub system : List ℕ
system = codes "System"

-- The loop over the places.
unfoldable pub print_from : ℕ → List Slot → List MessageUi → List MessageUi
unfolding print_entry is_blank push_ui
print_from zero slots ui = ui
print_from (suc n) [] ui = ui
print_from (suc n) (s ∷ slots) ui = print_from n slots (elim s.entry [
  | none ↦ ui
  | some e ↦ if is_blank e then ui else (push_ui (print_entry e) system ui).0
])

-- printRoutingTable()
unfoldable pub print_routing_table : Table → List MessageUi → List MessageUi
unfolding print_from push_ui
print_routing_table t ui =
    print_from scanned t.slots
      (push_ui (codes "----------------- Routing -----------------") system ui).0
