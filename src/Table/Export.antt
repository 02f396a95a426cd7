-- ===== src/Table/Export.antt =====
-- tableToCharArray of src/routingTable.c.
use rn_praktikum.Base.{ℕ, zero, suc, ◌*◌, List, [], ◌∷◌, Option, none, some, true, false, write_at}
use rn_praktikum.Table.{Entry, Slot, Table, scanned, is_blank, record_size}
use rn_praktikum.Table.Wire.{entry_bytes}

-- routingTable[0]; `none` is a null pointer.
unfoldable pub first_entry : List Slot → Option Entry
first_entry [] = none
first_entry (s ∷ slots) = s.entry

-- The loop: rounds left, places, routingTable[0], `count`, and the array. `none` is a read through
-- a null pointer, which comes of an entry to export while routingTable[0] is null.
unfoldable pub export_from : ℕ → List Slot → Option Entry → ℕ → List ℕ → Option (List ℕ)
unfolding is_blank entry_bytes
export_from zero slots own count buf = some buf
export_from (suc n) [] own count buf = some buf
export_from (suc n) (s ∷ slots) own count buf = elim s.entry [
  | none ↦ export_from n slots own count buf
  | some e ↦ elim (is_blank e) [
    | true ↦ export_from n slots own count buf
    | false ↦ elim own [
      | none ↦ none
      | some o ↦
          export_from n slots (some o) (suc count)
            (write_at (count * record_size) (entry_bytes o e) buf)
    ]
  ]
]

-- tableToCharArray(ergebnis)
unfoldable pub table_to_char_array : Table → List ℕ → Option (List ℕ)
table_to_char_array t ergebnis = export_from scanned t.slots (first_entry t.slots) 0 ergebnis
