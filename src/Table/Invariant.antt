-- ===== src/Table/Invariant.antt =====
-- The invariant of the routing table of src/routingTable.c, and what it says of freeEntries.
use rn_praktikum.Base.{
  ℕ, zero, suc, ◌+◌, ◌≤◌, ◌≡◌, ◌∙◌, inl, inr, List, none, true, arith, length, Option-cases, take,
  drop,
}
use rn_praktikum.Names.{get_name}
use rn_praktikum.Table.{Entry, Table, scanned, table_size, record_size}
use rn_praktikum.Table.Wire.{read_entry}
use rn_praktikum.Table.Lookup.{lookup}
use rn_praktikum.Table.Count.{
  used_from, used_from-le, used_from-insert, used_from-adjust, used_from-delete,
}
use rn_praktikum.Table.Distinct.{
  Distinct, insert_from-Distinct, adjust_from-Distinct, delete_from-Distinct,
}
use rn_praktikum.Table.Front.{front_only, front_only-insert, front_only-adjust, front_only-delete}
use rn_praktikum.Table.Relax.{relax, entry-improve, chat_name-relax, update_record_cases}
use rn_praktikum.Table.Update.{
  State, set_slots, insert_from, add_entry, improve, update_record, update_from,
}
use rn_praktikum.Table.Delete.{delete_loop}

abbrev pub used : Table → ℕ
used t = used_from scanned t.slots

-- All 100 places are there, freeEntries counts those without an entry, no two entries have the same
-- name, and entries stand in the first ten places only.
pub record IsValid (t : Table) : Type 0 where
  pub places : length t.slots ≡ table_size
  pub accounted : t.free_entries + used t ≡ table_size
  pub distinct : Distinct scanned t.slots
  pub front : front_only scanned t.slots ≡ true

add_entry-IsValid :
    (e : Entry) (s : State)
    → lookup s.table e.chat_name ≡ none
    → IsValid s.table
    → IsValid (add_entry e s).table
unfolding add_entry
add_entry-IsValid e s h v = elim (Option-cases (insert_from scanned e e.chat_name s.table.slots)) [
  | inl p ↦ ground arith
  | inr (slots, p) ↦ ground (
    arith,
    used_from-insert scanned e e.chat_name s.table.slots slots p,
    insert_from-Distinct scanned e e.chat_name s.table.slots slots p h v.distinct,
    front_only-insert scanned e e.chat_name s.table.slots slots p,
  )
]

-- A round of the loop of tableUpdate keeps the table valid.
pub update_record-IsValid :
    (junk junk' working : List ℕ) (s : State)
    → IsValid s.table
    → IsValid (update_record junk junk' working s).table
unfolding set_slots read_entry
update_record-IsValid junk junk' working s v = elim (update_record_cases junk junk' working s) [
  | inl (n, p) ↦ rw p (add_entry-IsValid _ s n v)
  | inr (x, l, p) ↦
      let name = get_name junk working in
      let counts =
        used_from-adjust (improve working) (relax working) (entry-improve working) name scanned
          s.table.slots in
      rw p (record {
        places = counts.1 ∙ v.places;
        accounted = omega (arith, counts.0, v.accounted);
        distinct =
            adjust_from-Distinct (improve working) (relax working) (entry-improve working)
              (chat_name-relax working) name scanned s.table.slots v.distinct;
        front = front_only-adjust (improve working) name scanned s.table.slots ∙ v.front;
      })
]

-- The loop of tableUpdate keeps the table valid, whatever bytes the message holds.
pub update_from-IsValid :
    (junk junk' : ℕ → List ℕ) (n : ℕ) (message : List ℕ) (s : State)
    → IsValid s.table
    → IsValid (update_from junk junk' n message s).table
unfolding update_from
update_from-IsValid junk junk' zero message s v = v
update_from-IsValid junk junk' (suc n) message s v =
    update_from-IsValid junk junk' n (drop record_size message)
      (update_record (junk n) (junk' n) (take record_size message) s)
      (update_record-IsValid (junk n) (junk' n) (take record_size message) s v)

-- The loop of deleteFromTable keeps the table valid.
pub delete_loop-IsValid : (name : List ℕ) (t : Table) → IsValid t → IsValid (delete_loop name t)
unfolding delete_loop
delete_loop-IsValid name t v =
    let counts = used_from-delete scanned name t.slots t.free_entries t.mutex in
    record {
      places = counts.1 ∙ v.places;
      accounted = counts.0 ∙ v.accounted;
      distinct = delete_from-Distinct scanned name t.slots t.free_entries t.mutex v.distinct;
      front = front_only-delete scanned name t.slots t.free_entries t.mutex ∙ v.front;
    }

-- In a valid table freeEntries never falls below 90, so the branch of tableUpdate that reports a
-- full table is never taken.
pub free_entries-ge : (t : Table) → IsValid t → 90 ≤ t.free_entries
free_entries-ge t v = omega (arith, used_from-le scanned t.slots, v.accounted)
