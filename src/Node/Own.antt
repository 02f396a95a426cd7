-- ===== src/Node/Own.antt =====
-- A host's own entry, which initTable of src/routingTable.c puts in the first place, through
-- tableUpdate: unless others send it back, it grows stale and is removed.
use mathlib.Core.Option.{some-injective, none-ne-some}
use rn_praktikum.Base.{
  ap, ℕ, zero, suc, ◌/◌, ◌≡◌, ◌≢◌, refl, ◌∙◌, inl, inr, List, [], ◌∷◌, none, some, true, false,
  ==_ne, arith, get_elem?, take, drop, str_eq, Option-cases,
}
use rn_praktikum.Names.{get_name}
use rn_praktikum.Table.{Entry, Slot, Mutex, scanned, record_size, lock, unlock}
use rn_praktikum.Table.Lookup.{adjust_from}
use rn_praktikum.Table.Relax.{update_record_cases}
use rn_praktikum.Table.Update.{
  State, set_slots, insert_from, add_entry, change_at, improve, update_record, update_from,
}
use rn_praktikum.Table.Delete.{delete_from, delete_loop}
use rn_praktikum.Table.Export.{first_entry}
use rn_praktikum.Node.Aging.{IsStale, clean_at-stale, clean_at_cases}
use rn_praktikum.Node.{
  Node, lock_table, unlock_table, delete_from_table, change_slot, drop_name, unmark, clean_at,
  clean_from, clean_up, update_loop, table_update,
}

-- The first place holds an entry for the name that is marked beside it.
abbrev pub FirstIs : Slot → Entry → List Slot → Type 0
FirstIs s e slots =
    (get_elem? slots 0 ≡ some s) × (s.entry ≡ some e) × (str_eq e.chat_name s.name ≡ true)

first_entry-delete_stale :
    (n : ℕ) (s : Slot) (e : Entry) (slots : List Slot) (free : ℕ) (m : Mutex)
    → FirstIs s e slots
    → first_entry (delete_from (suc n) s.name slots free m).slots ≡ none
unfolding delete_from first_entry
first_entry-delete_stale n s e [] free m h = refl
first_entry-delete_stale n s e (x ∷ slots) free m h = ground arith

first_entry-delete_none :
    (n : ℕ) (name : List ℕ) (slots : List Slot) (free : ℕ) (m : Mutex)
    → first_entry slots ≡ none
    → first_entry (delete_from n name slots free m).slots ≡ none
unfolding delete_from first_entry
first_entry-delete_none zero name slots free m h = h
first_entry-delete_none (suc n) name [] free m h = refl
first_entry-delete_none (suc n) name (x ∷ slots) free m h = ground arith

pub first_entry-change_at :
    (f : Slot → Slot) (i : ℕ) (slots : List Slot)
    → ((s : Slot) → (f s).entry ≡ s.entry)
    → first_entry (change_at i f slots) ≡ first_entry slots
unfolding change_at first_entry
first_entry-change_at f i [] h = refl
first_entry-change_at f zero (s ∷ slots) h = h s
first_entry-change_at f (suc i) (s ∷ slots) h = refl

first_entry-delete_from_table :
    (name : List ℕ) (n : Node)
    → first_entry n.table.slots ≡ none
    → first_entry (delete_from_table name (unlock_table n)).table.slots ≡ none
unfolding delete_from_table delete_loop unlock_table
first_entry-delete_from_table name n h =
    first_entry-delete_none scanned name n.table.slots n.table.free_entries
      (lock (unlock n.table.mutex)) h

first_entry-clean_at :
    (i : ℕ) (n : Node)
    → first_entry n.table.slots ≡ none
    → first_entry (clean_at i n).table.slots ≡ none
unfolding change_slot drop_name unmark
first_entry-clean_at i n h = elim (clean_at_cases i n) [
  | inl (s, p, st) ↦
      rw (clean_at-stale i n s p st)
        (first_entry-change_at drop_name i _ (λ x. refl) ∙ first_entry-delete_from_table s.name n h)
  | inr (inl e) ↦ rw e h
  | inr (inr e) ↦ rw e (first_entry-change_at unmark i n.table.slots (λ x. refl) ∙ h)
]

first_entry-clean_from :
    (k i : ℕ) (n : Node)
    → first_entry n.table.slots ≡ none
    → first_entry (clean_from k i n).table.slots ≡ none
unfolding clean_from
first_entry-clean_from zero i n h = h
first_entry-clean_from (suc k) i n h =
    first_entry-clean_from k (suc i) (clean_at i n) (first_entry-clean_at i n h)

first_entry-clean_stale :
    (n : Node) (s : Slot) (e : Entry)
    → FirstIs s e n.table.slots
    → IsStale s
    → first_entry (clean_at 0 n).table.slots ≡ none
unfolding delete_from_table delete_loop unlock_table drop_name
first_entry-clean_stale n s e h st = rw (clean_at-stale 0 n s h.0 st) (
    first_entry-change_at drop_name 0 _ (λ x. refl)
    ∙ first_entry-delete_stale 9 s e n.table.slots n.table.free_entries
        (lock (unlock n.table.mutex)) h)

-- cleanUp empties the first place when it is stale.
pub first_entry-clean_up :
    (n : Node) (s : Slot) (e : Entry)
    → FirstIs s e n.table.slots
    → IsStale s
    → first_entry (clean_up n).table.slots ≡ none
unfolding clean_up clean_from
first_entry-clean_up n s e h st =
    first_entry-clean_from 99 1 (clean_at 0 n) (first_entry-clean_stale n s e h st)

get_elem?-insert_first :
    (n : ℕ) (new : Entry) (r : List ℕ) (slots slots' : List Slot) (s : Slot) (e : Entry)
    → get_elem? slots 0 ≡ some s
    → s.entry ≡ some e
    → insert_from (suc n) new r slots ≡ some slots'
    → get_elem? slots' 0 ≡ some s
unfolding insert_from
get_elem?-insert_first n new r [] slots' s e h p k = cc
get_elem?-insert_first n new r (x ∷ slots) slots' s e h p k =
    elim (Option-cases (insert_from n new r slots)) [
      | inl z ↦ ground arith
      | inr (rest, z) ↦ ground arith
    ]

get_elem?-adjust_first :
    (f : Slot → Slot) (name : List ℕ) (n : ℕ) (slots : List Slot) (s : Slot) (e : Entry)
    → get_elem? slots 0 ≡ some s
    → s.entry ≡ some e
    → str_eq e.chat_name name ≡ false
    → get_elem? (adjust_from f name (suc n) slots) 0 ≡ some s
unfolding adjust_from
get_elem?-adjust_first f name n [] s e h p d = cc
get_elem?-adjust_first f name n (x ∷ slots) s e h p d = ground arith

get_elem?-add_entry :
    (new : Entry) (st : State) (s : Slot) (e : Entry)
    → get_elem? st.table.slots 0 ≡ some s
    → s.entry ≡ some e
    → get_elem? (add_entry new st).table.slots 0 ≡ some s
unfolding add_entry
get_elem?-add_entry new st s e h p =
    elim (Option-cases (insert_from scanned new new.chat_name st.table.slots)) [
      | inl z ↦ ground arith
      | inr (slots, z) ↦
          ground (arith, get_elem?-insert_first 9 new new.chat_name st.table.slots slots s e h p z)
    ]

first_entry-get_elem? :
    (slots : List Slot) (s : Slot) → get_elem? slots 0 ≡ some s → first_entry slots ≡ s.entry
unfolding first_entry
first_entry-get_elem? [] s h = absurd (none-ne-some _ h)
first_entry-get_elem? (x ∷ slots) s h = ap (λ (t : Slot). t.entry) (some-injective _ _ h)

first_slot :
    (slots : List Slot) (e : Entry)
    → first_entry slots ≡ some e
    → (s : Slot) × (get_elem? slots 0 ≡ some s) × (s.entry ≡ some e)
unfolding first_entry
first_slot [] e h = absurd (none-ne-some _ h)
first_slot (s ∷ slots) e h = (s, refl, h)

-- A new entry leaves the first place as it is, if that is taken.
pub first_entry-add_entry :
    (new : Entry) (st : State) (own : Entry)
    → first_entry st.table.slots ≡ some own
    → first_entry (add_entry new st).table.slots ≡ some own
first_entry-add_entry new st own h =
    let (s, p, q) = first_slot st.table.slots own h in
    first_entry-get_elem? _ s (get_elem?-add_entry new st s own p q) ∙ q

-- The first place is the same slot after a record for another name.
FirstIs-update_record :
    (junk junk' working : List ℕ) (st : State) (s : Slot) (e : Entry)
    → str_eq e.chat_name (get_name junk working) ≡ false
    → FirstIs s e st.table.slots
    → FirstIs s e (update_record junk junk' working st).table.slots
unfolding set_slots
FirstIs-update_record junk junk' working st s e d h =
    elim (update_record_cases junk junk' working st) [
      | inl (n, p) ↦ rw p (get_elem?-add_entry _ st s e h.0 h.1, h.1, h.2)
      | inr (x, l, p) ↦ rw p (
        get_elem?-adjust_first (improve working) (get_name junk working) 9 st.table.slots s e h.0
            h.1 d,
        h.1,
        h.2,
      )
    ]

-- The rounds of a message, none of which is for the name `own`.
abbrev pub Others : (junk : ℕ → List ℕ) → List ℕ → ℕ → List ℕ → Type 0
Others junk own zero message = Unit
Others junk own (suc n) message =
    (str_eq own (get_name (junk n) (take record_size message)) ≡ false)
    × Others junk own n (drop record_size message)

FirstIs-update_from :
    (junk junk' : ℕ → List ℕ) (n : ℕ) (message : List ℕ) (st : State) (s : Slot) (e : Entry)
    → Others junk e.chat_name n message
    → FirstIs s e st.table.slots
    → FirstIs s e (update_from junk junk' n message st).table.slots
unfolding update_from
FirstIs-update_from junk junk' zero message st s e o h = h
FirstIs-update_from junk junk' (suc n) message st s e o h =
    FirstIs-update_from junk junk' n (drop record_size message) _ s e o.1
      (FirstIs-update_record (junk n) (junk' n) (take record_size message) st s e o.0 h)

first_entry-unlock :
    (n : Node) → first_entry (unlock_table n).table.slots ≡ first_entry n.table.slots
unfolding unlock_table
first_entry-unlock n = refl

-- The own entry is lost: when the own name was not heard of since the last cleanUp, a ROUTE message
-- that is not of exactly 80 bytes and has no record for the own name empties the first place.
pub table_update_loses_own :
    (junk junk' : ℕ → List ℕ) (message : List ℕ) (len : ℕ) (n : Node) (s : Slot) (e : Entry)
    → len ≢ 80
    → FirstIs s e n.table.slots
    → IsStale s
    → Others junk e.chat_name (len / record_size) message
    → first_entry (table_update junk junk' message len n).table.slots ≡ none
unfolding table_update update_loop lock_table
table_update_loses_own junk junk' message len n s e ne h st o =
    let updated = update_loop junk junk' (len / record_size) message (lock_table n) in
    rw (==_ne len 80 ne, table_update)
      (first_entry-unlock (clean_up updated)
        ∙ first_entry-clean_up updated s e
            (FirstIs-update_from junk junk' (len / record_size) message
              (record { table = (lock_table n).table; ui = n.ui }) s e o h)
            st)
