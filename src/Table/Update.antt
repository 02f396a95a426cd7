-- ===== src/Table/Update.antt =====
-- tableUpdate of src/routingTable.c: its loop over the records of a message. What comes after the
-- loop needs the connections too, and stands in Node.
use rn_praktikum.Base.{
  ℕ, zero, suc, ◌-◌, List, [], ◌∷◌, ◌++◌, Option, none, some, ◌==◌, ltb, if◌then◌else◌, take, drop,
  codes,
}
use rn_praktikum.Names.{get_name, name_len}
use rn_praktikum.Queue.{MessageUi, push_ui}
use rn_praktikum.Table.{Entry, Slot, Table, scanned, check_name_in_table, record_size}
use rn_praktikum.Table.Wire.{
  offset_next_chat_name, offset_next_adress, offset_next_port, read32, read16, next_hop_count,
  read_entry,
}

-- "<Empfänger hat sich angemeldet!>"
abbrev pub text_signed_on : List ℕ
text_signed_on = codes "<Empf" ++ (0xc3 ∷ 0xa4 ∷ codes "nger hat sich angemeldet!>")

-- The table and the queue of the user interface, which the loop changes.
pub record State : Type 0 where
  pub table : Table
  pub ui : List MessageUi

unfoldable pub set_slots : State → List Slot → State
set_slots s slots = record s { table = record (s.table) { slots = slots } }

-- The search for a null pointer among `n` places, and the entry put there; `none`: there is none.
unfoldable pub insert_from : ℕ → Entry → List ℕ → List Slot → Option (List Slot)
insert_from zero e name slots = none
insert_from (suc n) e name [] = none
insert_from (suc n) e name (s ∷ slots) =
    let rest = insert_from n e name slots in
    elim s.entry [
      | none ↦ some (record { entry = some e; name = name; reachable = 1 } ∷ slots)
      | some _ ↦ elim rest [ none ↦ none | some slots' ↦ some (s ∷ slots') ]
    ]

-- The branch for a name that is not in the table. Without a free place in reach nothing happens.
unfoldable pub add_entry : Entry → State → State
unfolding insert_from push_ui
add_entry e s =
    if ltb 0 s.table.free_entries
    then (elim (insert_from scanned e e.chat_name s.table.slots) [
      | none ↦ s
      | some slots ↦ record {
        table = record (s.table) { slots = slots; free_entries = s.table.free_entries - 1 };
        ui = (push_ui text_signed_on e.chat_name s.ui).0;
      }
    ])
    else s

-- A change of the place `i`.
unfoldable pub change_at : ℕ → (Slot → Slot) → List Slot → List Slot
change_at i f [] = []
change_at zero f (s ∷ slots) = f s ∷ slots
change_at (suc i) f (s ∷ slots) = s ∷ change_at i f slots

-- The branches for a name that is in the table: the shorter way is taken, and the name is marked
-- as reachable in any case.
unfoldable pub improve : List ℕ → Slot → Slot
unfolding read32 read16 next_hop_count
improve working s = elim s.entry [
  | none ↦ s
  | some e ↦
      if ltb (next_hop_count working) e.hop_count
      then record s {
        entry = some (record e {
          next_chat_name = take name_len (drop offset_next_chat_name working);
          next_adress = read32 working offset_next_adress;
          next_port = read16 working offset_next_port;
          hop_count = next_hop_count working;
        });
        reachable = 1;
      }
      else record s { reachable = 1 }
]

-- One round of the loop. `junk` and `junk'` are the indeterminate bytes of the arrays charName and
-- charName2; the 0 that getName writes behind the 32 bytes of each lies outside of it.
unfoldable pub update_record : List ℕ → List ℕ → List ℕ → State → State
unfolding get_name read_entry check_name_in_table add_entry change_at improve set_slots
update_record junk junk' working s =
    let name = get_name junk working in
    let next_name = get_name junk' (drop offset_next_chat_name working) in
    let index = check_name_in_table s.table name in
    if index == 0
    then add_entry (read_entry working name next_name) s
    else set_slots s (change_at (index - 1) (improve working) s.table.slots)

-- The loop, with the rounds left; `junk i` and `junk' i` belong to the round with i left.
unfoldable pub update_from : (junk junk' : ℕ → List ℕ) → ℕ → List ℕ → State → State
unfolding update_record
update_from junk junk' zero message s = s
update_from junk junk' (suc n) message s =
    update_from junk junk' n (drop record_size message)
      (update_record (junk n) (junk' n) (take record_size message) s)
