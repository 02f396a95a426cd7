-- ===== src/Node.antt =====
-- The state of one host and the operations of src/routingTable.c that need more of it than the
-- table: deleteFromTable, cleanUp, tableUpdate and getHopsOneAway.
pub mod Aging
pub mod Own
pub mod Stale
pub mod Back
pub mod Guard
pub mod Fresh
pub mod Heard
use rn_praktikum.Base.{
  ℕ, zero, suc, ◌+◌, ◌/◌, List, [], ◌∷◌, ◌++◌, Option, none, some, Bool, true, false, ◌==◌,
  if◌then◌else◌, get_elem?, get_or, set, codes, length,
}
use rn_praktikum.Queue.{MessageUi, MessageSend, push_ui}
use rn_praktikum.Table.{
  Entry, Slot, Table, Mutex, lock, unlock, scanned, table_size, record_size, get_routing,
}
use rn_praktikum.Table.Update.{State, update_from, change_at}
use rn_praktikum.Table.Delete.{delete_loop}
use rn_praktikum.Table.Print.{print_routing_table}
use rn_praktikum.Connections.{Net, remove_con}

-- The type user of routingTable.h.
pub record User : Type 0 where
  pub chat_name : List ℕ
  pub adress : ℕ
  pub port : ℕ
  pub not_responded : ℕ

-- The globals: ownName, the routing table, both queues, the connections, list_head of protocol.c
-- and users of heartBeat.c.
pub record Node : Type 0 where
  pub own_name : List ℕ
  pub table : Table
  pub ui : List MessageUi
  pub send : List MessageSend
  pub net : Net
  pub series : List (List ℕ)
  pub users : List User

unfoldable pub lock_table : Node → Node
unfolding lock
lock_table n = record n { table = record (n.table) { mutex = lock n.table.mutex } }

unfoldable pub unlock_table : Node → Node
unfolding unlock
unlock_table n = record n { table = record (n.table) { mutex = unlock n.table.mutex } }

-- deleteFromTable(chatName); it returns -1 in every case.
unfoldable pub delete_from_table : List ℕ → Node → Node
unfolding lock_table unlock_table
delete_from_table name n =
    let locked = lock_table (record n { net = remove_con (get_routing n.table name) n.net }) in
    let table = delete_loop name locked.table in
    unlock_table (record locked { table = table; ui = print_routing_table table locked.ui })

-- "<Empfänger %s nicht erreichbar, aus Routing Tabelle entfernt!>", which is pushed as it is.
abbrev pub text_unreachable : List ℕ
text_unreachable =
    codes "<Empf"
    ++ (0xc3 ∷ 0xa4 ∷ codes "nger %s nicht erreichbar, aus Routing Tabelle entfernt!>")

unfoldable pub change_slot : ℕ → (Slot → Slot) → Node → Node
change_slot i f n = record n { table = record (n.table) { slots = change_at i f n.table.slots } }

-- chatName[0] = '\0'
unfoldable pub drop_name : Slot → Slot
drop_name s = record s { name = set s.name 0 0 }

unfoldable pub unmark : Slot → Slot
unmark s = record s { reachable = 0 }

-- One round of cleanUp.
unfoldable pub clean_at : ℕ → Node → Node
unfolding change_slot drop_name unmark
clean_at i n = elim (get_elem? n.table.slots i) [
  | none ↦ n
  | some s ↦
      if get_or s.name 0 0 == 0
      then n
      else if s.reachable == 0
      then (let gone = delete_from_table s.name (unlock_table n) in
          lock_table (
            change_slot i drop_name
              (record gone { ui = (push_ui text_unreachable s.name gone.ui).0 })))
      else change_slot i unmark n
]

-- The loop of cleanUp with the rounds left, over all 100 places.
unfoldable pub clean_from : ℕ → ℕ → Node → Node
unfolding clean_at
clean_from zero i n = n
clean_from (suc k) i n = clean_from k (suc i) (clean_at i n)

-- cleanUp()
unfoldable pub clean_up : Node → Node
clean_up n = clean_from table_size 0 n

unfoldable pub update_loop : (junk junk' : ℕ → List ℕ) → ℕ → List ℕ → Node → Node
update_loop junk junk' rounds message n =
    let s = update_from junk junk' rounds message (record { table = n.table; ui = n.ui }) in
    record n { table = s.table; ui = s.ui }

-- tableUpdate(message, length)
unfoldable pub table_update : (junk junk' : ℕ → List ℕ) → List ℕ → ℕ → Node → Node
unfolding lock_table unlock_table update_loop
table_update junk junk' message len n =
    let updated = update_loop junk junk' (len / record_size) message (lock_table n) in
    if len == 80
    then unlock_table (record updated { ui = print_routing_table updated.table updated.ui })
    else unlock_table (clean_up updated)

-- The loop of getHopsOneAway: the users from `count` on; one behind the array is lost.
unfoldable pub hops_from : ℕ → List Slot → List User → List User
hops_from zero slots us = us
hops_from (suc k) [] us = us
hops_from (suc k) (s ∷ slots) us = elim s.entry [
  | none ↦ hops_from k slots us
  | some e ↦ elim (e.hop_count == 1) [
    | false ↦ hops_from k slots us
    | true ↦ elim us [
      | [] ↦ []
      | u ∷ rest ↦
          record {
            chat_name = e.chat_name;
            adress = e.adress;
            port = e.port;
            not_responded = if u.not_responded == 1 then 1 else 0;
          }
          ∷ hops_from k slots rest
    ]
  ]
]

-- getHopsOneAway(hopsOneAway)
unfoldable pub get_hops_one_away : Table → List User → List User
get_hops_one_away t us = hops_from scanned t.slots us
