-- ===== src/Table/Capacity.antt =====
-- What tableUpdate of src/routingTable.c does with a new name, by the room in the scanned places.
use rn_praktikum.Base.{
  ℕ, ◌+◌, ◌-◌, ◌<◌, ◌≡◌, refl, ◌∙◌, inl, inr, List, none, some, false, lt→ltb, arith, str_eq, drop,
}
use rn_praktikum.Names.{get_name}
use rn_praktikum.Queue.{push_ui}
use rn_praktikum.Table.{Entry, Slot, scanned}
use rn_praktikum.Table.Wire.{read_entry, offset_next_chat_name}
use rn_praktikum.Table.Lookup.{lookup}
use rn_praktikum.Table.Places.{lookup_from-insert_self, lookup_from-insert_other}
use rn_praktikum.Table.Count.{insert_from-total, insert_from-full}
use rn_praktikum.Table.Relax.{update_record_cases}
use rn_praktikum.Table.Update.{State, insert_from, add_entry, update_record, text_signed_on}
use rn_praktikum.Table.Invariant.{IsValid, used, free_entries-ge}

add_entry_room :
    (e : Entry) (s : State) (slots : List Slot)
    → 0 < s.table.free_entries
    → insert_from scanned e e.chat_name s.table.slots ≡ some slots
    → add_entry e s ≡ record {
      table = record (s.table) { slots = slots; free_entries = s.table.free_entries - 1 };
      ui = (push_ui text_signed_on e.chat_name s.ui).0;
    }
unfolding add_entry
add_entry_room e s slots h q = rw (lt→ltb _ _ h, q, add_entry)

add_entry_full : (e : Entry) (s : State) → used s.table ≡ scanned → add_entry e s ≡ s
unfolding add_entry
add_entry_full e s h = ground (arith, insert_from-full scanned e e.chat_name s.table.slots h)

-- A record for a name that the table does not hold, while one of the ten scanned places is free:
-- the search finds the new entry under its name, and for any other name what it found before;
-- freeEntries falls by one, and the user is told.
pub update_record_new :
    (junk junk' working : List ℕ) (s : State)
    → IsValid s.table
    → lookup s.table (get_name junk working) ≡ none
    → used s.table < scanned
    → let t = update_record junk junk' working s in
      let name = get_name junk working in
      let next_name = get_name junk' (drop offset_next_chat_name working) in
      (lookup t.table name ≡ some (read_entry working name next_name))
      × ((other : List ℕ) → str_eq name other ≡ false → lookup t.table other ≡ lookup s.table other)
      × (t.table.free_entries + 1 ≡ s.table.free_entries)
      × (t.ui ≡ (push_ui text_signed_on name s.ui).0)
unfolding read_entry
update_record_new junk junk' working s v h room = elim (update_record_cases junk junk' working s) [
  | inr (x, l, p) ↦ cc (h, l)
  | inl (n, p) ↦
      let name = get_name junk working in
      let e = read_entry working name (get_name junk' (drop offset_next_chat_name working)) in
      let (slots, q) =
        insert_from-total scanned e name s.table.slots (omega (arith, v.places)) room in
      let free : 0 < s.table.free_entries = omega (arith, free_entries-ge s.table v) in
      rw (p ∙ add_entry_room e s slots free q) (
        lookup_from-insert_self scanned e name s.table.slots slots q h,
        λ other d. lookup_from-insert_other scanned e name other s.table.slots slots q d,
        omega arith,
        refl,
      )
]

-- A record for a name that the table does not hold, while all ten scanned places are taken, is
-- dropped without a trace: the state is as it was.
pub update_record_full :
    (junk junk' working : List ℕ) (s : State)
    → lookup s.table (get_name junk working) ≡ none
    → used s.table ≡ scanned
    → update_record junk junk' working s ≡ s
unfolding read_entry
update_record_full junk junk' working s h full = elim (update_record_cases junk junk' working s) [
  | inr (x, l, p) ↦ cc (h, l)
  | inl (n, p) ↦ p ∙ add_entry_full _ s full
]
