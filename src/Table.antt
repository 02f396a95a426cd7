-- ===== src/Table.antt =====
-- src/routingTable.c and src/routingTable.h: the routing table, its searches and its set-up. The
-- children hold the wire format (Wire), the treatment of one received record (Update), the
-- deletion (Delete), the export (Export), the printout (Print), and the proofs.
pub mod Wire
pub mod Lookup
pub mod Marks
pub mod Slots
pub mod Print
pub mod Forget
pub mod Announce
pub mod Codec
pub mod Capacity
pub mod Invariant
pub mod Distinct
pub mod Front
pub mod Count
pub mod Relax
pub mod Start
pub mod Refine
pub mod Unused
pub mod Growth
pub mod Exchange
pub mod Places
pub mod Update
pub mod Delete
pub mod Export
use rn_praktikum.Base.{
  ℕ, zero, suc, ◌+◌, ◌-◌, ◌*◌, ◌/◌, ◌%◌, ◌^◌, List, [], ◌∷◌, ◌++◌, Option, none, some, Bool, true,
  false, ◌==◌, ◌&&◌, if◌then◌else◌, length, take, get_elem?, write_at, c_str, str_eq, map,
}

-- routingTableEntry
pub record Entry : Type 0 where
  pub chat_name : List ℕ
  pub adress : ℕ
  pub port : ℕ
  pub next_chat_name : List ℕ
  pub next_adress : ℕ
  pub next_port : ℕ
  pub hop_count : ℕ

-- routingTable[i] and, side by side with it, reachbleTable[i]; `none` is a null pointer.
pub record Slot : Type 0 where
  pub entry : Option Entry
  pub name : List ℕ
  pub reachable : ℕ

-- tableLock. An unlock of a mutex that is not locked is undefined; `faults` counts these.
pub record Mutex : Type 0 where
  pub held : Bool
  pub faults : ℕ

unfoldable pub lock : Mutex → Mutex
lock m = record m { held = true }

unfoldable pub unlock : Mutex → Mutex
unlock m = if m.held then record m { held = false } else record m { faults = m.faults + 1 }

-- The globals of the file: the 100 places of both arrays, freeEntries, and the mutex.
pub record Table : Type 0 where
  pub slots : List Slot
  pub free_entries : ℕ
  pub mutex : Mutex

abbrev pub table_size : ℕ
table_size = 100

-- sizeof(routingTable) / 80: the array holds pointers of 8 bytes, so the loops go over 10 places.
abbrev pub scanned : ℕ
scanned = table_size * 8 / 80

-- The loop of checkNameInTable: rounds left, places from `i` on, and the result, 0 or index + 1.
unfoldable pub find_from : ℕ → List Slot → ℕ → List ℕ → ℕ
find_from zero slots i name = 0
find_from (suc n) [] i name = 0
find_from (suc n) (s ∷ slots) i name =
    let rest = find_from n slots (suc i) name in
    elim s.entry [ none ↦ rest | some e ↦ if str_eq e.chat_name name then suc i else rest ]

-- checkNameInTable(chatName)
unfoldable pub check_name_in_table : Table → List ℕ → ℕ
unfolding find_from
check_name_in_table t name = find_from scanned t.slots 0 name

-- ((uint64_t)(a & 0xFF)) << 56 | (a & 0xFF00) << 40 | (a & 0xFF0000) << 24 | (a & 0xFF000000) << 8
-- | port: the bytes do not overlap, so the sum is the disjunction.
unfoldable pub adress_and_port : ℕ → ℕ → ℕ
adress_and_port a port =
    (a % 2 ^ 8) * 2 ^ 56
    + (a / 2 ^ 8 % 2 ^ 8) * 2 ^ 48
    + (a / 2 ^ 16 % 2 ^ 8) * 2 ^ 40
    + (a / 2 ^ 24 % 2 ^ 8) * 2 ^ 32
    + port

-- return -1 as a uint64_t
abbrev pub no_route : ℕ
no_route = 2 ^ 64 - 1

-- The loop of getRouting.
unfoldable pub routing_from : ℕ → List Slot → List ℕ → ℕ
unfolding adress_and_port
routing_from zero slots name = no_route
routing_from (suc n) [] name = no_route
routing_from (suc n) (s ∷ slots) name =
    let rest = routing_from n slots name in
    elim s.entry [
      | none ↦ rest
      | some e ↦ if str_eq e.chat_name name then adress_and_port e.next_adress e.next_port else rest
    ]

-- getRouting(chatName). The mutex, locked at the start and unlocked at each return, is left as it
-- was found.
unfoldable pub get_routing : Table → List ℕ → ℕ
unfolding routing_from
get_routing t name = routing_from scanned t.slots name

-- hopCount == 0 && strcmp(chatName, "") == 0
unfoldable pub is_blank : Entry → Bool
is_blank e = (e.hop_count == 0) && str_eq e.chat_name []

-- The loop of getRoutingTableSize and getSizeofRoutingTable: the entries counted in `n` places.
unfoldable pub count_from : ℕ → List Slot → ℕ
unfolding is_blank
count_from zero slots = 0
count_from (suc n) [] = 0
count_from (suc n) (s ∷ slots) =
    let rest = count_from n slots in
    elim s.entry [ none ↦ rest | some e ↦ if is_blank e then rest else suc rest ]

-- OFFSETMESSAGECOUNT
abbrev pub record_size : ℕ
record_size = 80

-- getRoutingTableSize(), over 10 places
unfoldable pub get_routing_table_size : Table → ℕ
unfolding count_from
get_routing_table_size t = count_from scanned t.slots * record_size

-- getSizeofRoutingTable(), over sizeof(routingTable) / 8 = 100 places
unfoldable pub get_sizeof_routing_table : Table → ℕ
unfolding count_from
get_sizeof_routing_table t = count_from table_size t.slots * record_size

-- The byte swap of initTable.
unfoldable pub swap32 : ℕ → ℕ
swap32 a =
    (a % 2 ^ 8) * 2 ^ 24
    + (a / 2 ^ 8 % 2 ^ 8) * 2 ^ 16
    + (a / 2 ^ 16 % 2 ^ 8) * 2 ^ 8
    + a / 2 ^ 24 % 2 ^ 8

abbrev clear_entry : Slot → Slot
clear_entry s = record s { entry = none }

-- The first place after initTable. `junk` and `junk'` are what malloc left in the two name arrays.
own_slot : List ℕ → ℕ → ℕ → List ℕ → List ℕ → Slot → Slot
unfolding swap32
own_slot own_name own_adress own_port junk junk' s = record {
  entry = some (record {
    chat_name = write_at 0 (c_str own_name ++ 0 ∷ []) junk;
    adress = swap32 own_adress;
    port = own_port % 2 ^ 16;
    next_chat_name = write_at 0 (c_str own_name ++ 0 ∷ []) junk';
    next_adress = swap32 own_adress;
    next_port = own_port % 2 ^ 16;
    hop_count = 0;
  });
  name = write_at 0 (c_str own_name ++ 0 ∷ []) s.name;
  reachable = 1;
}

own_first : (Slot → Slot) → List Slot → List Slot
own_first f [] = []
own_first f (s ∷ slots) = f s ∷ map clear_entry slots

-- initTable(ownName, ownAdress, ownPort); ownAdress is the bit pattern of the int.
unfoldable pub init_table : List ℕ → ℕ → ℕ → List ℕ → List ℕ → Table → Table
unfolding own_slot own_first
init_table own_name own_adress own_port junk junk' t = record t {
  slots = own_first (own_slot own_name own_adress own_port junk junk') t.slots;
}
