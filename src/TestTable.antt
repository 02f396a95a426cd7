-- ===== src/TestTable.antt =====
-- src/testTable.c: an earlier routing table on its own, with five entries in place of pointers, and
-- the program that tries it. The 80 bytes of a record are those of src/routingTable.c.
pub mod Message
pub mod Search
pub mod Relax
pub mod ReadBack
use rn_praktikum.Base.{
  ℕ, zero, suc, ◌+◌, ◌-◌, ◌*◌, ◌/◌, ◌%◌, ◌^◌, List, [], ◌∷◌, ◌++◌, Option, none, some, Bool, true,
  false, ◌==◌, ltb, if◌then◌else◌, codes, take, drop, replicate, zeros, c_str, str_eq, write_at,
}
use rn_praktikum.Names.{name_len}
use rn_praktikum.Table.{Entry, record_size, no_route, is_blank}
use rn_praktikum.Table.Wire.{
  offset_next_chat_name, offset_next_adress, offset_next_port, read32, read16, next_hop_count,
  read_entry, entry_bytes,
}
use rn_praktikum.Table.Print.{decimal, dotted}

-- sizeof(routingTable) / 80
abbrev pub places : ℕ
places = 5

-- routingTable and freeEntries
pub record RoutingTable : Type 0 where
  pub entries : List Entry
  pub free_entries : ℕ

-- An entry of zeros.
abbrev pub blank : Entry
blank = record {
  chat_name = zeros 32;
  adress = 0;
  port = 0;
  next_chat_name = zeros 32;
  next_adress = 0;
  next_port = 0;
  hop_count = 0;
}

-- initTable(ownName, ownAdress, ownPort); ownAdress is the bit pattern of the int.
unfoldable pub init_table : List ℕ → ℕ → ℕ → RoutingTable → RoutingTable
init_table own_name own_adress own_port t = record t {
  entries =
      record blank {
        chat_name = write_at 0 (c_str own_name ++ 0 ∷ []) (zeros 32);
        adress = own_adress;
        port = own_port % 2 ^ 16;
      }
      ∷ replicate (places - 1) blank;
}

-- The loop of checkNameInTable, from index `i` on.
unfoldable pub find_from : List Entry → ℕ → List ℕ → ℕ
find_from [] i name = 0
find_from (e ∷ es) i name =
    let rest = find_from es (suc i) name in if str_eq e.chat_name name then i else rest

-- checkNameInTable(chatName): the index, which is 0 also for a name that is not there.
unfoldable pub check_name_in_table : RoutingTable → List ℕ → ℕ
unfolding find_from
check_name_in_table t name = find_from t.entries 0 name

-- newEntry of tableUpdate.
unfoldable pub new_entry : List ℕ → Entry
new_entry working =
    read_entry working (take name_len working) (take name_len (drop offset_next_chat_name working))

-- The loop that puts the new entry into the first entry of zeros; `none`: there is none.
unfoldable pub insert_from : Entry → List Entry → Option (List Entry)
unfolding is_blank
insert_from new [] = none
insert_from new (e ∷ es) =
    let rest = insert_from new es in
    if is_blank e then some (new ∷ es) else elim rest [ none ↦ none | some es' ↦ some (e ∷ es') ]

-- The branch for an index of 0.
unfoldable pub add_entry : Entry → RoutingTable → RoutingTable
unfolding insert_from
add_entry new t =
    if ltb 0 t.free_entries
    then (elim (insert_from new t.entries) [
      | none ↦ t
      | some es ↦ record { entries = es; free_entries = t.free_entries - 1 }
    ])
    else t

-- The branch for another index: the way that is announced, if it is shorter.
unfoldable pub improve : List ℕ → Entry → Entry
unfolding read32 read16 next_hop_count
improve working e =
    if ltb (next_hop_count working) e.hop_count
    then record e {
      next_chat_name = take name_len (drop offset_next_chat_name working);
      next_adress = read32 working offset_next_adress;
      next_port = read16 working offset_next_port;
      hop_count = next_hop_count working;
    }
    else e

unfoldable pub change_at : ℕ → (Entry → Entry) → List Entry → List Entry
change_at i f [] = []
change_at zero f (e ∷ es) = f e ∷ es
change_at (suc i) f (e ∷ es) = e ∷ change_at i f es

-- A round of the loop of tableUpdate.
unfoldable pub update_record : List ℕ → RoutingTable → RoutingTable
unfolding check_name_in_table new_entry add_entry improve change_at
update_record working t =
    let index = check_name_in_table t (take name_len working) in
    if index == 0
    then add_entry (new_entry working) t
    else record t { entries = change_at index (improve working) t.entries }

unfoldable pub update_from : ℕ → List ℕ → RoutingTable → RoutingTable
unfolding update_record
update_from zero message t = t
update_from (suc n) message t =
    update_from n (drop record_size message) (update_record (take record_size message) t)

-- tableUpdate(message, length)
unfoldable pub table_update : List ℕ → ℕ → RoutingTable → RoutingTable
unfolding update_from
table_update message length t = update_from (length / record_size) message t

-- The loop of getRouting.
unfoldable pub routing_from : List Entry → List ℕ → ℕ
routing_from [] name = no_route
routing_from (e ∷ es) name =
    let rest = routing_from es name in
    if str_eq e.chat_name name then e.next_adress * 2 ^ 32 + e.next_port else rest

-- getRouting(chatName)
unfoldable pub get_routing : RoutingTable → List ℕ → ℕ
unfolding routing_from
get_routing t name = routing_from t.entries name

-- The loop of deleteFromTable; `none`: the name is not there.
unfoldable pub delete_from : List Entry → List ℕ → Option (List Entry)
delete_from [] name = none
delete_from (e ∷ es) name =
    let rest = delete_from es name in
    if str_eq e.chat_name name
    then some (blank ∷ es)
    else elim rest [ none ↦ none | some es' ↦ some (e ∷ es') ]

-- deleteFromTable(chatName), with `true` for 0 and `false` for -1
unfoldable pub delete_from_table : List ℕ → RoutingTable → RoutingTable × Bool
unfolding delete_from
delete_from_table name t = elim (delete_from t.entries name) [
  | none ↦ (t, false)
  | some es ↦ (record { entries = es; free_entries = t.free_entries + 1 }, true)
]

-- The loop of tableToCharArray, from index `i` on.
unfoldable pub export_from : List Entry → ℕ → List ℕ → List ℕ
unfolding entry_bytes
export_from [] i ergebnis = ergebnis
export_from (e ∷ es) i ergebnis =
    export_from es (suc i) (write_at (i * record_size) (entry_bytes e e) ergebnis)

-- tableToCharArray(ergebnis)
unfoldable pub table_to_char_array : RoutingTable → List ℕ → List ℕ
unfolding export_from
table_to_char_array t ergebnis = export_from t.entries 0 ergebnis

-- A line of printRoutingTable.
unfoldable pub line : List ℕ → List ℕ → List ℕ
line label value = label ++ (value ++ 10 ∷ [])

unfoldable pub print_entry : ℕ → Entry → List ℕ
unfolding line decimal dotted c_str
print_entry i e =
    line (codes "Entry ") (decimal i ++ codes ":")
    ++ (line (codes " Chat Name: ") (c_str e.chat_name)
        ++ (line (codes " Address: ") (dotted e.adress)
            ++ (line (codes " Port: ") (decimal e.port)
                ++ (line (codes " Next Chat Name: ") (c_str e.next_chat_name)
                    ++ (line (codes " Next Address: ") (dotted e.next_adress)
                        ++ (line (codes " Next Port: ") (decimal e.next_port)
                            ++ line (codes " Hop Count: ") (decimal e.hop_count)))))))

unfoldable pub print_from : List Entry → ℕ → List ℕ
unfolding print_entry
print_from [] i = []
print_from (e ∷ es) i = print_entry i e ++ print_from es (suc i)

-- printRoutingTable()
unfoldable pub print_routing_table : RoutingTable → List ℕ
unfolding print_from line
print_routing_table t = line (codes "Routing Table:") [] ++ print_from t.entries 0
