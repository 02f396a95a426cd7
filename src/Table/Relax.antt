-- ===== src/Table/Relax.antt =====
-- One received record against the partial function from names to entries: a round of the loop of
-- tableUpdate (src/routingTable.c) is the relaxation step of a distance-vector protocol.
use Prim.Native.Nat.{min}
use rn_praktikum.Base.{
  ℕ, ◌≡◌, refl, ap, ◌⊎◌, inl, inr, List, none, some, false, ltb, if◌then◌else◌, arith, str_eq,
  ==_ne, take, drop,
}
use rn_praktikum.Names.{get_name, name_len}
use rn_praktikum.Table.{Entry, Slot, scanned, check_name_in_table, find_from}
use rn_praktikum.Table.Wire.{
  offset_next_chat_name, offset_next_adress, offset_next_port, read32, read16, next_hop_count,
  read_entry,
}
use rn_praktikum.Table.Lookup.{lookup, find_from-lookup, change_at-find, adjust_from}
use rn_praktikum.Table.Places.{lookup_from-adjust_self, lookup_from-adjust_other}
use rn_praktikum.Table.Update.{State, set_slots, add_entry, improve, update_record}

-- The announced way, if it is strictly shorter than the known one.
abbrev pub relax : List ℕ → Entry → Entry
relax working e =
    if ltb (next_hop_count working) e.hop_count
    then record e {
      next_chat_name = take name_len (drop offset_next_chat_name working);
      next_adress = read32 working offset_next_adress;
      next_port = read16 working offset_next_port;
      hop_count = next_hop_count working;
    }
    else e

pub entry-improve :
    (working : List ℕ) (s : Slot) (e : Entry)
    → s.entry ≡ some e
    → (improve working s).entry ≡ some (relax working e)
unfolding improve
entry-improve working s e p = ground arith

pub chat_name-relax : (working : List ℕ) (e : Entry) → (relax working e).chat_name ≡ e.chat_name
chat_name-relax working e = ground arith

-- The two ways through a round.
pub update_record_cases :
    (junk junk' working : List ℕ) (s : State)
    → let name = get_name junk working in
      let next_name = get_name junk' (drop offset_next_chat_name working) in
      ((lookup s.table name ≡ none)
        × (update_record junk junk' working s ≡ add_entry (read_entry working name next_name) s))
      ⊎ ((e : Entry) × (lookup s.table name ≡ some e)
          × (update_record junk junk' working s
              ≡ set_slots s (adjust_from (improve working) name scanned s.table.slots)))
unfolding update_record check_name_in_table
update_record_cases junk junk' working s =
    elim (find_from-lookup scanned s.table.slots 0 (get_name junk working)) [
      | inl (z, l) ↦ inl (l, rw (z, update_record))
      | inr (k, e, z, l) ↦ inr (
        e,
        l,
        rw
            (
              ==_ne (find_from scanned s.table.slots 0 (get_name junk working)) 0 (omega arith),
              update_record,
            )
            (ap (set_slots s) (
              change_at-find (improve working) (get_name junk working) scanned s.table.slots 0
                (omega arith))),
      )
    ]

-- A record for a name that the table holds: the entry of that name becomes the better of the known
-- and the announced way, with the smaller of its hop count and the announced one plus one; the
-- search for any other name, freeEntries and the messages to the user stay as they were.
pub update_record_known :
    (junk junk' working : List ℕ) (s : State) (e : Entry)
    → lookup s.table (get_name junk working) ≡ some e
    → let t = update_record junk junk' working s in
      (lookup t.table (get_name junk working) ≡ some (relax working e))
      × ((relax working e).hop_count ≡ min (next_hop_count working) e.hop_count)
      × ((other : List ℕ)
          → str_eq (get_name junk working) other ≡ false
          → lookup t.table other ≡ lookup s.table other)
      × (t.table.free_entries ≡ s.table.free_entries)
      × (t.ui ≡ s.ui)
unfolding set_slots
update_record_known junk junk' working s e h = elim (update_record_cases junk junk' working s) [
  | inl (n, p) ↦ cc (h, n)
  | inr (x, l, p) ↦ rw p (
    lookup_from-adjust_self (improve working) (relax working) (entry-improve working)
        (chat_name-relax working) (get_name junk working) scanned s.table.slots e h,
    ground arith,
    λ other d.
        lookup_from-adjust_other (improve working) (relax working) (entry-improve working)
          (chat_name-relax working) (get_name junk working) other scanned s.table.slots d,
    refl,
    refl,
  )
]
