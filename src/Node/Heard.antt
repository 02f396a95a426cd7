-- ===== src/Node/Heard.antt =====
-- tableUpdate of src/routingTable.c while no name of the host has grown stale: cleanUp then removes
-- nothing.
use rn_praktikum.Base.{
  ℕ, zero, suc, ◌/◌, ◌≤◌, ◌≡◌, ◌≢◌, refl, sym, ◌∙◌, inl, inr, List, [], ◌∷◌, some, none, zeros,
  replicate, ◌==◌, ltb, arith, All, get_elem?, get_or, take, drop, str_eq, Bool-cases, Option-cases,
}
use rn_praktikum.Names.{get_name}
use rn_praktikum.Table.Start.{start_table}
use rn_praktikum.Table.{init_table, Entry, Slot, Table, scanned, table_size, record_size}
use rn_praktikum.Table.Wire.{next_hop_count}
use rn_praktikum.Table.Lookup.{lookup, adjust_from}
use rn_praktikum.Table.Marks.{get_elem?-change_at}
use rn_praktikum.Table.Slots.{All-get_elem?, update_from-All}
use rn_praktikum.Table.Relax.{relax, entry-improve, update_record_cases}
use rn_praktikum.Table.Update.{State, set_slots, add_entry, improve, update_record, update_from}
use rn_praktikum.Table.Export.{first_entry}
use rn_praktikum.Node.Aging.{clean_at_cases, entry-unmark, lookup-change_slot-unmark}
use rn_praktikum.Node.Own.{first_entry-add_entry, first_entry-change_at}
use rn_praktikum.Node.{
  Node, lock_table, unlock_table, change_slot, unmark, clean_at, clean_from, clean_up, update_loop,
  table_update,
}

-- A place whose name, if it is set, was seen since the last cleanUp.
abbrev pub Heard : Slot → Type 0
Heard s = get_or s.name 0 0 ≢ 0 → s.reachable ≢ 0

improve-Heard : (working : List ℕ) (s : Slot) → Heard s → Heard (improve working s)
unfolding improve
improve-Heard working s h = elim (Option-cases s.entry) [
  | inl p ↦ rw (p, improve) h
  | inr (e, p) ↦ elim (Bool-cases (ltb (next_hop_count working) e.hop_count)) [
    | inl q ↦ rw (p, improve) (rw (q, improve) (λ n z. omega arith))
    | inr q ↦ rw (p, improve) (rw (q, improve) (λ n z. omega arith))
  ]
]

-- The loop of tableUpdate leaves no place stale that it did not find so.
update_from-Heard :
    (junk junk' : ℕ → List ℕ) (n : ℕ) (message : List ℕ) (st : State)
    → All Heard st.table.slots
    → All Heard (update_from junk junk' n message st).table.slots
update_from-Heard junk junk' n message st a =
    update_from-All Heard junk junk' n message st (λ e name nz z. omega arith) improve-Heard a

replicate-Heard :
    (k : ℕ) → All Heard (replicate k (record { entry = none; name = zeros 32; reachable = 0 }))
replicate-Heard zero = tt
replicate-Heard (suc k) = ((λ named. absurd (named refl)), replicate-Heard k)

-- The first place is taken.
abbrev pub HasFirst : List Slot → Type 0
HasFirst slots = (e : Entry) × (first_entry slots ≡ some e)

-- It is so after initTable.
pub init_table-Heard :
    (name : List ℕ) (adress port : ℕ) (junk junk' : List ℕ)
    → let slots = (init_table name adress port junk junk' start_table).slots in
      All Heard slots × HasFirst slots
unfolding init_table first_entry
init_table-Heard name adress port junk junk' =
    (((λ named z. omega arith), replicate-Heard 99), (_, refl))

adjust_from-HasFirst :
    (working name : List ℕ) (k : ℕ) (slots : List Slot)
    → HasFirst slots
    → HasFirst (adjust_from (improve working) name k slots)
unfolding adjust_from first_entry
adjust_from-HasFirst working name zero slots h = h
adjust_from-HasFirst working name (suc k) [] h = h
adjust_from-HasFirst working name (suc k) (s ∷ slots) (e, p) =
    elim (Bool-cases (str_eq e.chat_name name)) [
      | inl q ↦
          rw (p, adjust_from) (rw (q, adjust_from) (relax working e, entry-improve working s e p))
      | inr q ↦ rw (p, adjust_from) (rw (q, adjust_from) (e, p))
    ]

add_entry-HasFirst :
    (new : Entry) (st : State) → HasFirst st.table.slots → HasFirst (add_entry new st).table.slots
add_entry-HasFirst new st (e, h) = (e, first_entry-add_entry new st e h)

update_from-HasFirst :
    (junk junk' : ℕ → List ℕ) (n : ℕ) (message : List ℕ) (st : State)
    → HasFirst st.table.slots
    → HasFirst (update_from junk junk' n message st).table.slots
unfolding update_from set_slots
update_from-HasFirst junk junk' zero message st h = h
update_from-HasFirst junk junk' (suc n) message st h =
    let working = take record_size message in
    update_from-HasFirst junk junk' n (drop record_size message)
      (update_record (junk n) (junk' n) working st)
      (elim (update_record_cases (junk n) (junk' n) working st) [
        | inl (l, p) ↦ rw p (add_entry-HasFirst _ st h)
        | inr (x, l, p) ↦
            rw p (adjust_from-HasFirst working (get_name (junk n) working) scanned st.table.slots h)
      ])

-- No place from `i` on is stale.
abbrev HeardFrom : ℕ → List Slot → Type 0
HeardFrom i slots = (j : ℕ) (s : Slot) → i ≤ j → get_elem? slots j ≡ some s → Heard s

-- Two tables with the same entries, as far as the search and the first place are concerned.
abbrev Alike : Table → Table → Type 0
Alike t t' =
    ((x : List ℕ) → lookup t' x ≡ lookup t x) × (first_entry t'.slots ≡ first_entry t.slots)

Alike-trans : (t t' t'' : Table) → Alike t t' → Alike t' t'' → Alike t t''
Alike-trans t t' t'' (a, b) (c, d) = (λ x. c x ∙ a x, d ∙ b)

-- A round of cleanUp at a place that is not stale.
clean_at-Heard :
    (i : ℕ) (n : Node)
    → HeardFrom i n.table.slots
    → Alike n.table (clean_at i n).table × HeardFrom (suc i) (clean_at i n).table.slots
unfolding change_slot
clean_at-Heard i n h = elim (clean_at_cases i n) [
  | inl (s, p, (named, st)) ↦ absurd (h i s (omega arith) p named st)
  | inr (inl e) ↦ rw e ((λ x. refl, refl), λ j s le p. h j s (omega arith) p)
  | inr (inr e) ↦ rw e (
    (lookup-change_slot-unmark i n, first_entry-change_at unmark i n.table.slots entry-unmark),
    λ j s le p.
        h j s (omega arith)
          (sym (get_elem?-change_at unmark i j n.table.slots (λ q. omega arith)) ∙ p),
  )
]

clean_from-Heard :
    (k i : ℕ) (n : Node) → HeardFrom i n.table.slots → Alike n.table (clean_from k i n).table
unfolding clean_from
clean_from-Heard zero i n h = (λ x. refl, refl)
clean_from-Heard (suc k) i n h =
    let (a, h') = clean_at-Heard i n h in
    Alike-trans n.table (clean_at i n).table (clean_from (suc k) i n).table a
      (clean_from-Heard k (suc i) (clean_at i n) h')

clean_up-Heard : (n : Node) → All Heard n.table.slots → Alike n.table (clean_up n).table
unfolding clean_up
clean_up-Heard n a =
    clean_from-Heard table_size 0 n (λ j s le p. All-get_elem? Heard n.table.slots j s a p)

-- The table before the loop of tableUpdate.
abbrev pub before : Node → State
before n = record { table = (lock_table n).table; ui = n.ui }

-- While no place is stale, what is found after tableUpdate is what its loop has left, whatever the
-- length of the message is, and the first place stays taken.
pub table_update-Heard :
    (junk junk' : ℕ → List ℕ) (message : List ℕ) (len : ℕ) (n : Node)
    → All Heard n.table.slots
    → HasFirst n.table.slots
    → ((x : List ℕ)
        → lookup (table_update junk junk' message len n).table x
          ≡ lookup (update_from junk junk' (len / record_size) message (before n)).table x)
      × HasFirst (table_update junk junk' message len n).table.slots
unfolding table_update update_loop lock_table unlock_table
table_update-Heard junk junk' message len n a first =
    let k = len / record_size in
    let (e, p) = update_from-HasFirst junk junk' k message (before n) first in
    elim (Bool-cases (len == 80)) [
      | inl q ↦ rw (q, table_update) (λ x. refl, (e, p))
      | inr q ↦
          let (same, same_first) =
            clean_up-Heard (update_loop junk junk' k message (lock_table n))
              (update_from-Heard junk junk' k message (before n) a) in
          rw (q, table_update) (same, (e, same_first ∙ p))
    ]
