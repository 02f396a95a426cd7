-- ===== src/Table/Slots.antt =====
-- What holds for every place of the arrays of src/routingTable.c, through the loop of tableUpdate.
use mathlib.Core.Option.{some-injective, none-ne-some}
use mathlib.Core.Path.{subst}
use rn_praktikum.Base.{
  ℕ, zero, suc, ◌≡◌, inl, inr, List, [], ◌∷◌, some, ltb, All, get_elem?, take, drop, str_eq,
  Bool-cases, Option-cases,
}
use rn_praktikum.Names.{get_name}
use rn_praktikum.Table.{Entry, Slot, scanned, record_size}
use rn_praktikum.Table.Wire.{offset_next_chat_name, read_entry}
use rn_praktikum.Table.Lookup.{adjust_from}
use rn_praktikum.Table.Relax.{update_record_cases}
use rn_praktikum.Table.Update.{
  State, set_slots, insert_from, add_entry, improve, update_record, update_from,
}

pub All-get_elem? :
    (P : Slot → Type 0) (slots : List Slot) (j : ℕ) (s : Slot)
    → All P slots
    → get_elem? slots j ≡ some s
    → P s
All-get_elem? P [] j s a h = absurd (none-ne-some s h)
All-get_elem? P (x ∷ slots) zero s a h = subst P (some-injective x s h) a.0
All-get_elem? P (x ∷ slots) (suc j) s a h = All-get_elem? P slots j s a.1 h

-- The place of a new entry.
abbrev pub taken_by : Entry → List ℕ → Slot
taken_by e name = record { entry = some e; name = name; reachable = 1 }

module _ (P : Slot → Type 0) where
  pub insert_from-All :
      (k : ℕ) (e : Entry) (r : List ℕ) (slots slots' : List Slot)
      → P (taken_by e r)
      → All P slots
      → insert_from k e r slots ≡ some slots'
      → All P slots'
  unfolding insert_from
  insert_from-All zero e r slots slots' n a h = absurd (none-ne-some slots' h)
  insert_from-All (suc k) e r [] slots' n a h = absurd (none-ne-some slots' h)
  insert_from-All (suc k) e r (s ∷ slots) slots' n (m, a) h = elim (Option-cases s.entry) [
    | inl p ↦ subst (All P) (some-injective _ _ (rw (p, insert_from) at h)) (n, a)
    | inr (x, p) ↦ elim (Option-cases (insert_from k e r slots)) [
      | inl q ↦ absurd (none-ne-some slots' (rw (p, q, insert_from) at h))
      | inr (rest, q) ↦
          subst (All P) (some-injective _ _ (rw (p, q, insert_from) at h))
            (m, insert_from-All k e r slots rest n a q)
    ]
  ]

  pub add_entry-All :
      (e : Entry) (st : State)
      → P (taken_by e e.chat_name)
      → All P st.table.slots
      → All P (add_entry e st).table.slots
  unfolding add_entry
  add_entry-All e st n a = elim (Bool-cases (ltb 0 st.table.free_entries)) [
    | inr f ↦ rw (f, add_entry) a
    | inl f ↦ elim (Option-cases (insert_from scanned e e.chat_name st.table.slots)) [
      | inl p ↦ rw (f, p, add_entry) a
      | inr (slots, p) ↦
          rw (f, p, add_entry) (insert_from-All scanned e e.chat_name st.table.slots slots n a p)
    ]
  ]

  adjust_from-All :
      (f : Slot → Slot) (name : List ℕ) (k : ℕ) (slots : List Slot)
      → ((s : Slot) → P s → P (f s))
      → All P slots
      → All P (adjust_from f name k slots)
  unfolding adjust_from
  adjust_from-All f name zero slots n a = a
  adjust_from-All f name (suc k) [] n a = a
  adjust_from-All f name (suc k) (s ∷ slots) n (m, a) = elim (Option-cases s.entry) [
    | inl p ↦ rw (p, adjust_from) (m, adjust_from-All f name k slots n a)
    | inr (e, p) ↦ elim (Bool-cases (str_eq e.chat_name name)) [
      | inl q ↦ rw (p, adjust_from) (rw (q, adjust_from) (n s m, a))
      | inr q ↦ rw (p, adjust_from) (rw (q, adjust_from) (m, adjust_from-All f name k slots n a))
    ]
  ]

  -- A round of the loop.
  pub update_record-All :
      (junk junk' working : List ℕ) (st : State)
      → let name = get_name junk working in
        let next_name = get_name junk' (drop offset_next_chat_name working) in
        P (taken_by (read_entry working name next_name) name)
        → ((s : Slot) → P s → P (improve working s))
        → All P st.table.slots
        → All P (update_record junk junk' working st).table.slots
  unfolding set_slots read_entry
  update_record-All junk junk' working st n f a = elim (update_record_cases junk junk' working st) [
    | inl (l, p) ↦ rw p (add_entry-All _ st n a)
    | inr (x, l, p) ↦
        rw p (adjust_from-All (improve working) (get_name junk working) scanned st.table.slots f a)
  ]

  -- The loop, for what holds of every new place and every improved one.
  pub update_from-All :
      (junk junk' : ℕ → List ℕ) (n : ℕ) (message : List ℕ) (st : State)
      → ((e : Entry) (name : List ℕ) → P (taken_by e name))
      → ((working : List ℕ) (s : Slot) → P s → P (improve working s))
      → All P st.table.slots
      → All P (update_from junk junk' n message st).table.slots
  unfolding update_from
  update_from-All junk junk' zero message st new old a = a
  update_from-All junk junk' (suc n) message st new old a =
      let working = take record_size message in
      update_from-All junk junk' n (drop record_size message)
        (update_record (junk n) (junk' n) working st) new old
        (update_record-All (junk n) (junk' n) working st (new _ _) (old working) a)
