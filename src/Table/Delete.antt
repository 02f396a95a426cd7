-- ===== src/Table/Delete.antt =====
-- The loop of deleteFromTable in src/routingTable.c. The rest of the function, which closes a
-- connection and prints the table, stands in Node.
use rn_praktikum.Base.{
  ℕ, zero, suc, List, [], ◌∷◌, none, some, Bool, false, ◌||◌, if◌then◌else◌, str_eq,
}
use rn_praktikum.Table.{Slot, Table, Mutex, unlock, scanned}

-- The two tests of a round: the entry is for `name`, or its way leads over `name`.
unfoldable pub leads_to : List ℕ → Slot → Bool
leads_to name s = elim s.entry [
  | none ↦ false
  | some e ↦ str_eq e.chat_name name || str_eq e.next_chat_name name
]

unfoldable pub clear : Slot → Slot
clear s = record s { entry = none; reachable = 0 }

-- The rounds left, the places from the current one on, freeEntries and the mutex.
unfoldable pub delete_from : ℕ → List ℕ → List Slot → ℕ → Mutex → Table
unfolding leads_to clear unlock
delete_from zero name slots free m = record { slots = slots; free_entries = free; mutex = m }
delete_from (suc n) name [] free m = record { slots = []; free_entries = free; mutex = m }
delete_from (suc n) name (s ∷ slots) free m =
    let gone = leads_to name s in
    let t =
      delete_from n name slots (if gone then suc free else free) (if gone then unlock m else m) in
    record t { slots = (if gone then clear s else s) ∷ t.slots }

unfoldable pub delete_loop : List ℕ → Table → Table
unfolding delete_from
delete_loop name t = delete_from scanned name t.slots t.free_entries t.mutex
