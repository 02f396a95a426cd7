-- ===== src/Table/Announce.antt =====
-- What tableToCharArray of src/routingTable.c leaves in an array of getRoutingTableSize() bytes.
use mathlib.Core.List.{append_assoc}
use mathlib.Core.Path.{subst}
use rn_praktikum.Base.{
  ℕ, zero, suc, ◌*◌, ◌≤◌, ◌≡◌, ◌≢◌, refl, ap, sym, ◌∙◌, ◌⊎◌, inl, inr, List, [], ◌∷◌, ◌++◌, none,
  some, true, false, if◌then◌else◌, arith, length, length-append, length-take, take, drop, write_at,
  write_at-append, drop-take_same, length-drop, All, Option-cases, Bool-cases,
}
use rn_praktikum.Table.{
  Entry, Slot, Table, scanned, is_blank, record_size, count_from, get_routing_table_size,
}
use rn_praktikum.Table.Wire.{entry_bytes, bytes32, bytes16}
use rn_praktikum.Table.Export.{export_from, table_to_char_array, first_entry}

-- The entries that are announced: those of the scanned places that are not blank, in order.
unfoldable pub announced_from : ℕ → List Slot → List Entry
announced_from zero slots = []
announced_from (suc n) [] = []
announced_from (suc n) (s ∷ slots) =
    let rest = announced_from n slots in
    elim s.entry [ none ↦ rest | some e ↦ if is_blank e then rest else e ∷ rest ]

abbrev pub announced : Table → List Entry
announced t = announced_from scanned t.slots

-- Their bytes, one after the other.
abbrev pub records : Entry → List Entry → List ℕ
records own [] = []
records own (e ∷ es) = entry_bytes own e ++ records own es

abbrev pub HasName : Entry → Type 0
HasName e = length e.chat_name ≡ 32

pub length-entry_bytes :
    (own e : Entry)
    → length own.next_chat_name ≡ 32
    → HasName e
    → length (entry_bytes own e) ≡ record_size
unfolding entry_bytes bytes32 bytes16
length-entry_bytes own e ho he =
    omega (arith, length-append {0} {A = ℕ}, length-take {0} {A = ℕ}, ho, he)

count_from-announced :
    (n : ℕ) (slots : List Slot) → count_from n slots ≡ length (announced_from n slots)
unfolding count_from announced_from
count_from-announced zero slots = refl
count_from-announced (suc n) [] = refl
count_from-announced (suc n) (s ∷ slots) = ground (arith, count_from-announced n slots)

module _ (own : Entry) (ho : length own.next_chat_name ≡ 32) where
  pub write_record :
      (e : Entry) (count : ℕ) (done buf : List ℕ)
      → HasName e
      → length done ≡ count * record_size
      → record_size ≤ length buf
      → write_at (count * record_size) (entry_bytes own e) (done ++ buf)
        ≡ (done ++ entry_bytes own e) ++ drop record_size buf
  write_record e count done buf he hd hb =
      ap (λ b. write_at (count * record_size) (entry_bytes own e) (done ++ b))
        (sym (drop-take_same record_size buf))
      ∙ write_at-append done (entry_bytes own e) (take record_size buf) (drop record_size buf)
          (count * record_size) (sym hd)
          (omega (arith, length-entry_bytes own e ho he, length-take {0} record_size buf))
      ∙ sym (append_assoc done (entry_bytes own e) (drop record_size buf))

  export_from-skip :
      (n : ℕ) (s : Slot) (slots : List Slot) (count : ℕ) (buf : List ℕ)
      → (s.entry ≡ none) ⊎ ((e : Entry) × (s.entry ≡ some e) × (is_blank e ≡ true))
      → (export_from (suc n) (s ∷ slots) (some own) count buf
          ≡ export_from n slots (some own) count buf)
        × (announced_from (suc n) (s ∷ slots) ≡ announced_from n slots)
  unfolding export_from announced_from
  export_from-skip n s slots count buf h = ground arith

  export_from-take :
      (n : ℕ) (s : Slot) (slots : List Slot) (count : ℕ) (buf : List ℕ) (e : Entry)
      → s.entry ≡ some e
      → is_blank e ≡ false
      → (export_from (suc n) (s ∷ slots) (some own) count buf
          ≡ export_from n slots
              (some own)
              (suc count)
              (write_at (count * record_size) (entry_bytes own e) buf))
        × (announced_from (suc n) (s ∷ slots) ≡ e ∷ announced_from n slots)
  unfolding export_from announced_from
  export_from-take n s slots count buf e p b = ground arith

  -- The loop over `n` places appends their records behind the `count` that are written.
  abbrev Exports : ℕ → List Slot → Type 0
  Exports n slots =
      (count : ℕ) (done buf : List ℕ)
      → length done ≡ count * record_size
      → length buf ≡ length (announced_from n slots) * record_size
      → All HasName (announced_from n slots)
      → export_from n slots (some own) count (done ++ buf)
        ≡ some (done ++ records own (announced_from n slots))

  Exports-skip :
      (n : ℕ) (s : Slot) (slots : List Slot)
      → (s.entry ≡ none) ⊎ ((e : Entry) × (s.entry ≡ some e) × (is_blank e ≡ true))
      → Exports n slots
      → Exports (suc n) (s ∷ slots)
  Exports-skip n s slots h ih count done buf hd hb names =
      let step = export_from-skip n s slots count (done ++ buf) h in
      rw step.1 (step.0 ∙ ih count done buf hd (rw step.1 at hb) (subst (All HasName) step.1 names))

  Exports-take :
      (n : ℕ) (s : Slot) (slots : List Slot) (e : Entry)
      → s.entry ≡ some e
      → is_blank e ≡ false
      → Exports n slots
      → Exports (suc n) (s ∷ slots)
  Exports-take n s slots e p b ih count done buf hd hb names =
      let step = export_from-take n s slots count (done ++ buf) e p b in
      let names' = subst (All HasName) step.1 names in
      let hb' : length buf ≡ suc (length (announced_from n slots)) * record_size =
        rw step.1 at hb in
      rw step.1 (
        step.0
        ∙ ap (export_from n slots (some own) (suc count))
            (write_record e count done buf names'.0 hd (omega arith))
        ∙ ih (suc count) (done ++ entry_bytes own e) (drop record_size buf)
            (omega (arith, length-append {0} {A = ℕ}, length-entry_bytes own e ho names'.0))
            (omega (arith, length-drop {0} {A = ℕ})) names'.1
        ∙ ap some (append_assoc done (entry_bytes own e) (records own (announced_from n slots))))

  export_from-records : (n : ℕ) (slots : List Slot) → Exports n slots
  unfolding export_from announced_from
  export_from-records zero slots count done [] hd hb names = refl
  export_from-records zero slots count done (b ∷ buf) hd hb names = absurd (omega arith)
  export_from-records (suc n) [] count done [] hd hb names = refl
  export_from-records (suc n) [] count done (b ∷ buf) hd hb names = absurd (omega arith)
  export_from-records (suc n) (s ∷ slots) count done buf hd hb names = elim (Option-cases s.entry) [
    | inl p ↦
        Exports-skip n s slots (inl p) (export_from-records n slots) count done buf hd hb names
    | inr (e, p) ↦ elim (Bool-cases (is_blank e)) [
      | inl b ↦
          Exports-skip n s slots (inr (e, p, b)) (export_from-records n slots) count done buf hd hb
            names
      | inr b ↦
          Exports-take n s slots e p b (export_from-records n slots) count done buf hd hb names
    ]
  ]

-- While the first place holds the own entry, tableToCharArray fills an array of
-- getRoutingTableSize() bytes, whatever was in it, with the records of the announced entries one
-- after the other, each with the own name, address and port as the next hop; no byte of the array
-- is left and none is written outside. All names must be arrays of 32 bytes.
pub table_to_char_array-records :
    (t : Table) (own : Entry) (buf : List ℕ)
    → first_entry t.slots ≡ some own
    → length own.next_chat_name ≡ 32
    → All HasName (announced t)
    → length buf ≡ get_routing_table_size t
    → table_to_char_array t buf ≡ some (records own (announced t))
unfolding table_to_char_array get_routing_table_size
table_to_char_array-records t own buf h ho names hb =
    ap (λ o. export_from scanned t.slots o 0 buf) h
    ∙ (export_from-records own ho scanned t.slots 0 [] buf refl
        (hb ∙ ap (λ k. k * record_size) (count_from-announced scanned t.slots)) names)

export_from-null :
    (n : ℕ) (slots : List Slot) (count : ℕ) (buf : List ℕ)
    → announced_from n slots ≢ []
    → export_from n slots none count buf ≡ none
unfolding export_from announced_from
export_from-null zero slots count buf h = absurd (h refl)
export_from-null (suc n) [] count buf h = absurd (h refl)
export_from-null (suc n) (s ∷ slots) count buf h =
    ground (arith, export_from-null n slots count buf)

-- Once the first place is empty, tableToCharArray reads through a null pointer as soon as there is
-- an entry to announce.
pub table_to_char_array-null :
    (t : Table) (buf : List ℕ)
    → first_entry t.slots ≡ none
    → announced t ≢ []
    → table_to_char_array t buf ≡ none
unfolding table_to_char_array
table_to_char_array-null t buf h k =
    ap (λ o. export_from scanned t.slots o 0 buf) h ∙ (export_from-null scanned t.slots 0 buf k)
